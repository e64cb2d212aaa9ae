-- ===== src/Prelude/Grouping.antt =====
-- Items collected by key: `d.setdefault(key(x), []).append(x)` over a list.
use mathlib.Core.Path.{◌≡◌, refl, ap, sym, ◌∙◌}
use mathlib.Core.Option.{Option}
use mathlib.Core.Logic.{inl, inr}
use mathlib.Core.List.{List, [], ◌∷◌, ◌++◌, foldl, append_assoc, append-nil}
use codex_privacy_hud.Prelude.Tests.{if◌then◌else◌, Bool-cases}
use codex_privacy_hud.Prelude.Lists.{filter}
use codex_privacy_hud.Prelude.Keys.{Comparable, ◌==◌, ==→eq}
use codex_privacy_hud.Prelude.Dicts.{
  Dict, or_else, lookup, upsert, lookup-upsert, Unique, upsert-Unique,
}

abbrev pub push {ℓ} : {A : Type ℓ} → A → Option (List A) → List A
push x o = or_else o [] ++ x ∷ []

module _ {ℓ} {K A : Type ℓ} ⦃e : Comparable K⦄ (key : A → K) where
  abbrev pub group_into : Dict K (List A) → List A → Dict K (List A)
  group_into = foldl (λ d x. upsert (key x) (push x) d)

  pub group_into-Unique : (d : Dict K (List A)) (xs : List A) → Unique d → Unique (group_into d xs)
  group_into-Unique d [] u = u
  group_into-Unique d (x ∷ xs) u =
      group_into-Unique (upsert (key x) (push x) d) xs (upsert-Unique (key x) (push x) d u)

  push-filter :
      (k : K) (before : List A) (x : A) (xs : List A)
      → (if key x == k then before ++ x ∷ [] else before) ++ filter (λ y. key y == k) xs
        ≡ before ++ filter (λ y. key y == k) (x ∷ xs)
  unfolding filter
  push-filter k before x xs = elim (Bool-cases (key x == k)) [
    | inl same ↦ rw same (append_assoc before (x ∷ []) (filter (λ y. key y == k) xs))
    | inr other ↦ rw other refl
  ]

  or_else-upsert :
      (k : K) (d : Dict K (List A)) (x : A)
      → or_else (lookup k (upsert (key x) (push x) d)) []
        ≡ (if key x == k then or_else (lookup k d) [] ++ x ∷ [] else or_else (lookup k d) [])
  or_else-upsert k d x = rw lookup-upsert (elim (Bool-cases (key x == k)) [
    | inl same ↦ rw same (ap (λ j. or_else (lookup j d) [] ++ x ∷ []) (==→eq (key x) k same))
    | inr other ↦ rw other refl
  ])

  -- Under a key stand the items with that key, in order, behind those that were there before.
  pub lookup-group_into :
      (k : K) (d : Dict K (List A)) (xs : List A)
      → or_else (lookup k (group_into d xs)) []
        ≡ or_else (lookup k d) [] ++ filter (λ x. key x == k) xs
  unfolding filter
  lookup-group_into k d [] = sym (append-nil (or_else (lookup k d) []))
  lookup-group_into k d (x ∷ xs) =
      lookup-group_into k (upsert (key x) (push x) d) xs
      ∙ ap (λ l. l ++ filter (λ y. key y == k) xs) (or_else-upsert k d x)
      ∙ push-filter k (or_else (lookup k d) []) x xs
