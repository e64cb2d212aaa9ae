-- ===== src/PromptHold/Pending.antt =====
-- What the loops of the gate over `pending` and `labels` do to a single hash.
use mathlib.Core.List.{foldl, Mem}
use text.Mathlib.TextEquality.{eq_iff}
use codex_privacy_hud.Prelude.{
  ℕ, ◌+◌, ◌≤◌, String, Bool, true, false, ◌||◌, none, some, List, [], ◌∷◌, map, ◌≡◌, refl, ap, sym,
  ◌∙◌, arith, if◌then◌else◌, ltb, any, filter, Dict, lookup, assign, upsert, remove, lookup-upsert,
  lookup-remove, member, string_key, ◌==◌, ==→eq, Unique, Bool-cases, inl, inr, some_inj, ||_false,
  ||_assoc, ==_refl, ||-false, ◌&&◌, ==_sym_false,
}
use codex_privacy_hud.Prelude.SameSet.{any-mem}
use codex_privacy_hud.Accounting.Records.{Digest}
use codex_privacy_hud.PromptHold.{window, hold_all, drop_all, purge, is_over, labels_of, keys}

if_same {ℓ} : {A : Type ℓ} (b : Bool) (a : A) → (if b then a else a) ≡ a
if_same true a = refl
if_same false a = refl

and_false : (b : Bool) → (b && false) ≡ false
and_false b = ground arith

leb_of_ltb : (a b : ℕ) → ltb a b ≡ false → b ≤ a
leb_of_ltb a b h = ground arith

ltb_of_leb : (a b : ℕ) → b ≤ a → ltb a b ≡ false
ltb_of_leb a b h = ground arith

pub lookup-hold_all :
    (h : Digest) (now : ℕ) (ks : List Digest) (p : Dict Digest ℕ)
    → lookup h (hold_all now ks p) ≡ (if member h ks then some now else lookup h p)
unfolding hold_all member any
lookup-hold_all h now [] p = refl
lookup-hold_all h now (k ∷ ks) p =
    lookup-hold_all h now ks (assign k now p)
    ∙ ground (arith, eq_iff k h, eq_iff h k, lookup-upsert k h (λ _. now) p)

pub lookup-drop_all :
    (h : Digest) (ks : List Digest) (p : Dict Digest ℕ)
    → lookup h (drop_all ks p) ≡ (if member h ks then none else lookup h p)
unfolding drop_all member any
lookup-drop_all h [] p = refl
lookup-drop_all h (k ∷ ks) p =
    lookup-drop_all h ks (remove k p) ∙ ground (arith, eq_iff k h, eq_iff h k, lookup-remove k h p)

module _ (q : Digest × ℕ → Bool) (h : Digest) where
  abbrev meets_key : Digest × ℕ → Bool
  meets_key e = h == e.0 && q e

  member-listed : (p : Dict Digest ℕ) → member h (map (λ e. e.0) (filter q p)) ≡ any meets_key p
  unfolding member any filter
  member-listed [] = refl
  member-listed (e ∷ p) = ground (arith, member-listed p)

  not_of_unlisted :
      (t : ℕ) (p : Dict Digest ℕ) → any meets_key p ≡ false → lookup h p ≡ some t → q (h, t) ≡ false
  unfolding any lookup
  not_of_unlisted t [] m l = cc
  not_of_unlisted t ((k, u) ∷ p) m l = elim (Bool-cases (k == h)) [
    | inl same ↦
        let at : k ≡ h = ==→eq k h same in
        let value : u ≡ t = some_inj (rw same at l) in ground (arith, eq_iff h k, at, value)
    | inr other ↦ not_of_unlisted t p (||-false _ _ m).1 (rw other at l)
  ]

  unlisted_of_absent : (p : Dict Digest ℕ) → lookup h p ≡ none → any meets_key p ≡ false
  unfolding any lookup
  unlisted_of_absent [] l = refl
  unlisted_of_absent ((k, u) ∷ p) l = elim (Bool-cases (k == h)) [
    | inl same ↦ cc (rw same at l)
    | inr other ↦ rw (==_sym_false k h other, unlisted_of_absent p (rw other at l)) refl
  ]

  unlisted_of_not :
      (t : ℕ) (p : Dict Digest ℕ)
      → Unique p
      → lookup h p ≡ some t
      → q (h, t) ≡ false
      → any meets_key p ≡ false
  unfolding any lookup
  unlisted_of_not t [] u l n = refl
  unlisted_of_not t ((k, v) ∷ p) u l n = elim (Bool-cases (k == h)) [
    | inl same ↦
        let at : k ≡ h = ==→eq k h same in
        let value : v ≡ t = some_inj (rw same at l) in
        let here : meets_key (k, v) ≡ false = rw (at, value, n) (and_false _) in
        rw (here, unlisted_of_absent p (ap (λ x. lookup x p) (sym at) ∙ u.0)) refl
    | inr other ↦ rw (==_sym_false k h other, unlisted_of_not t p u.1 (rw other at l) n) refl
  ]

-- What is pending behind the purge was pending before, with its window open.
pub purge_sound :
    (now : ℕ) (h : Digest) (t : ℕ) (p : Dict Digest ℕ)
    → lookup h (purge now p) ≡ some t
    → (lookup h p ≡ some t) × (now ≤ t + window)
unfolding purge
purge_sound now h t p l =
    let found = sym (lookup-drop_all h (map (λ e. e.0) (filter (is_over now) p)) p) ∙ l in
    elim (Bool-cases (member h (map (λ e. e.0) (filter (is_over now) p)))) [
      | inl over ↦ cc (rw over at found)
      | inr kept ↦
          let there : lookup h p ≡ some t = rw kept at found in
          (
            there,
            leb_of_ltb (t + window) now (
                not_of_unlisted (is_over now) h t p (sym (member-listed (is_over now) h p) ∙ kept)
                  there),
          )
    ]

-- What is not pending does not come to be by the purge.
pub purge_absent :
    (now : ℕ) (h : Digest) (p : Dict Digest ℕ) → lookup h p ≡ none → lookup h (purge now p) ≡ none
unfolding purge
purge_absent now h p l =
    let listed = map (λ e. e.0) (filter (is_over now) p) in
    lookup-drop_all h listed p
    ∙ ap (λ o. if member h listed then none else o) l
    ∙ if_same (member h listed) none

-- A hold whose window is open survives the purge.
pub purge_complete :
    (now : ℕ) (h : Digest) (t : ℕ) (p : Dict Digest ℕ)
    → Unique p
    → lookup h p ≡ some t
    → now ≤ t + window
    → lookup h (purge now p) ≡ some t
unfolding purge
purge_complete now h t p u l w =
    lookup-drop_all h (map (λ e. e.0) (filter (is_over now) p)) p
    ∙ ap (λ b. if b then none else lookup h p)
        (member-listed (is_over now) h p
          ∙ unlisted_of_not (is_over now) h t p u l (ltb_of_leb (t + window) now w))
    ∙ l

member-keys-assign :
    (k j v : String) (d : Dict Digest String)
    → member k (keys (assign j v d)) ≡ (member k (keys d) || k == j)
unfolding upsert member any
member-keys-assign k j v [] = ground arith
member-keys-assign k j v ((i, w) ∷ d) =
    ground (arith, eq_iff i j, eq_iff k i, eq_iff k j, member-keys-assign k j v d)

member-labels_into :
    (k : Digest) (hash : String → Digest) (d : Dict Digest String) (values : Dict String String)
    → member k (keys (foldl (λ d e. assign (hash e.0) e.1 d) d values))
      ≡ (member k (keys d) || any (λ e. k == hash e.0) values)
unfolding any
member-labels_into k hash d [] = sym (||_false (member k (keys d)))
member-labels_into k hash d (e ∷ values) =
    member-labels_into k hash (assign (hash e.0) e.1 d) values
    ∙ ap (λ b. b || any (λ e. k == hash e.0) values) (member-keys-assign k (hash e.0) e.1 d)
    ∙ ||_assoc (member k (keys d)) (k == hash e.0) (any (λ e. k == hash e.0) values)

-- The hash of every submitted value is labelled.
pub member-labels_of :
    (hash : String → Digest) (value label : String) (values : Dict String String)
    → Mem (value, label) values
    → member (hash value) (keys (labels_of hash values)) ≡ true
unfolding labels_of member any
member-labels_of hash value label values m =
    member-labels_into (hash value) hash [] values
    ∙ any-mem (λ e. hash value == hash e.0) (value, label) values m (==_refl (hash value))
