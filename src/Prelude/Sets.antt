-- ===== src/Prelude/Sets.antt =====
-- Python's sets, as lists that the program reads only through membership, inclusion, a shared
-- element, and whether they are empty.
use mathlib.Core.Path.{◌≡◌, refl, ap, sym, ◌∙◌}
use mathlib.Core.Bool.{Bool, true, false, ◌||◌, not}
use mathlib.Core.List.{List, [], ◌∷◌, ◌++◌}
use mathlib.Core.Logic.{inl, inr}
use native.Mathlib.Omega.{arith}
use codex_privacy_hud.Prelude.Tests.{if◌then◌else◌, Bool-cases, ||-false}
use codex_privacy_hud.Prelude.Lists.{any, all, filter}
use codex_privacy_hud.Prelude.Keys.{Comparable, ◌==◌, ==_refl}

abbrev pub is_empty {ℓ} : {A : Type ℓ} → List A → Bool
is_empty [] = true
is_empty (x ∷ xs) = false

module _ {ℓ} {A : Type ℓ} ⦃e : Comparable A⦄ where
  -- `a in s`
  unfoldable pub member : A → List A → Bool
  unfolding any
  member a s = any (λ x. a == x) s

  -- `s <= t`
  unfoldable pub subset : List A → List A → Bool
  unfolding all member
  subset s t = all (λ a. member a t) s

  -- `bool(s & t)`
  unfoldable pub overlaps : List A → List A → Bool
  unfolding any member
  overlaps s t = any (λ a. member a t) s

  -- `s - {a}`
  unfoldable pub without : A → List A → List A
  unfolding filter
  without a s = filter (λ x. not (x == a)) s

  -- `s.add(a)`, with no second copy
  unfoldable pub insert : A → List A → List A
  unfolding member
  insert a s = if member a s then s else s ++ a ∷ []

  pub member-append : (a : A) (s t : List A) → member a (s ++ t) ≡ (member a s || member a t)
  unfolding member
  member-append a [] t = refl
  member-append a (x ∷ s) t = ground (arith, member-append a s t)

  member_eq : (a b : A) (s : List A) → a ≡ b → member b s ≡ true → member a s ≡ true
  member_eq a b s p h = rw p h

  pub member-insert : (a b : A) (s : List A) → member a (insert b s) ≡ (a == b || member a s)
  unfolding insert
  member-insert a b s = elim (Bool-cases (member b s)) [
    | inl old ↦ rw old (ground (arith, e.agrees_iff a b, member_eq a b s))
    | inr new ↦ rw (new, member-append a s (b ∷ [])) (ground arith)
  ]

  pub member_self : (a : A) (s : List A) → member a (a ∷ s) ≡ true
  unfolding member
  member_self a s = ground (arith, ==_refl a)

  pub overlaps_of_member :
      (a : A) (s t : List A) → member a s ≡ true → member a t ≡ true → overlaps s t ≡ true
  unfolding overlaps
  overlaps_of_member a [] t h k = cc
  overlaps_of_member a (x ∷ s) t h k =
      ground (arith, e.agrees_iff a x, member_eq x a t, overlaps_of_member a s t)

  pub false_at :
      (q : A → Bool) (a : A) (s : List A) → any q s ≡ false → member a s ≡ true → q a ≡ false
  unfolding any member
  false_at q a [] h m = cc
  false_at q a (x ∷ s) h m = elim (Bool-cases (a == x)) [
    | inl same ↦ ap q ((e.agrees_iff a x).0 same) ∙ (||-false (q x) (any q s) h).0
    | inr other ↦ false_at q a s (||-false (q x) (any q s) h).1 (rw other at m)
  ]

  pub member-filter :
      (q : A → Bool) (a : A) (s : List A)
      → member a s ≡ true
      → q a ≡ true
      → member a (filter q s) ≡ true
  unfolding any member filter
  member-filter q a [] m h = cc
  member-filter q a (x ∷ s) m h = elim (Bool-cases (a == x)) [
    | inl same ↦
        let at_x : q x ≡ true = ap q (sym ((e.agrees_iff a x).0 same)) ∙ h in rw (at_x, same) refl
    | inr other ↦ let later = member-filter q a s (rw other at m) h in ground (arith, later)
  ]

  pub is_empty_of_member : (a : A) (s : List A) → member a s ≡ true → is_empty s ≡ false
  unfolding member any
  is_empty_of_member a [] h = cc
  is_empty_of_member a (x ∷ s) h = refl
