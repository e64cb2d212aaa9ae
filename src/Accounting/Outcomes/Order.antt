-- ===== src/Accounting/Outcomes/Order.antt =====
-- The verdict on a partition does not depend on the order of its observations.
use mathlib.Core.Logic.{∥∥₁_elim}
use mathlib.Core.List.{foldl, append-nil, append_assoc, Perm, Permᴰ}
use mathlib.Core.Bool.{Bool-set}
use codex_privacy_hud.Prelude.{
  overlaps, any, Bool, false, ◌≡◌, refl, ◌∙◌, ap, sym, ◌||◌, ||_assoc, List, ◌∷◌, arith,
}
use codex_privacy_hud.Accounting.Outcomes.{
  Facts, Seen, no_facts, note, verdict, conflicts, pair_stopped, denial_pairs, partition_unresolved,
}
use codex_privacy_hud.Accounting.Outcomes.Join.{join}
use codex_privacy_hud.Accounting.Outcomes.Additive.{note-IsAdditive, foldl-IsAdditive}
use codex_privacy_hud.Accounting.Outcomes.Same.{
  SameFacts, SameFacts-refl, SameFacts-join, SameFacts-join_comm, SameFacts-trans,
  verdict-SameFacts,
}

-- What the loop finds in a group.
unfoldable pub facts_of : List Seen → Facts
facts_of group = foldl note no_facts group

||_false : (a : Bool) → (a || false) ≡ a
||_false a = ground arith

pub join_none : (f : Facts) → join f no_facts ≡ f
join_none f = simp (append-nil, ||_false)

join_assoc : (f g h : Facts) → join (join f g) h ≡ join f (join g h)
join_assoc f g h = simp (append_assoc, ||_assoc)

pub facts_of-cons :
    (s : Seen) (g : List Seen) → facts_of (s ∷ g) ≡ join (note no_facts s) (facts_of g)
unfolding facts_of
facts_of-cons s g =
    ap (λ f. foldl note f g) (sym (join_none (note no_facts s)))
    ∙ foldl-IsAdditive note note-IsAdditive g (note no_facts s) no_facts

facts_of_swap :
    (a b : Seen) (l : List Seen) → SameFacts (facts_of (a ∷ b ∷ l)) (facts_of (b ∷ a ∷ l))
facts_of_swap a b l =
    let x = note no_facts a in
    let y = note no_facts b in
    rw (facts_of-cons a (b ∷ l), facts_of-cons b l, facts_of-cons b (a ∷ l), facts_of-cons a l)
      (rw (← join_assoc x y (facts_of l), ← join_assoc y x (facts_of l))
        (SameFacts-join (SameFacts-join_comm x y) (SameFacts-refl (facts_of l))))

facts_of-permᴰ : {g h : List Seen} → Permᴰ g h → SameFacts (facts_of g) (facts_of h)
facts_of-permᴰ Permᴰ.nil = SameFacts-refl _
facts_of-permᴰ (Permᴰ.cons {a} {b} {l₁} {l₂} e d) =
    rw (facts_of-cons a l₁, facts_of-cons b l₂, e)
      (SameFacts-join (SameFacts-refl (note no_facts b)) (facts_of-permᴰ d))
facts_of-permᴰ (Permᴰ.swap {a} {b} {a'} {b'} {l} e f) = rw (e, f) (facts_of_swap b' a' l)
facts_of-permᴰ (Permᴰ.trans d d') = SameFacts-trans (facts_of-permᴰ d) (facts_of-permᴰ d')

-- The verdict on one action and boundary is the same in whatever order its observations stand.
pub partition_unresolved-perm :
    {g h : List Seen} → Perm g h → partition_unresolved g ≡ partition_unresolved h
unfolding partition_unresolved facts_of
partition_unresolved-perm p = ∥∥₁_elim p (Bool-set _ _) (λ d. verdict-SameFacts (facts_of-permᴰ d))

pub verdict-no_facts : verdict no_facts ≡ false
unfolding verdict conflicts pair_stopped denial_pairs overlaps any
verdict-no_facts = refl
