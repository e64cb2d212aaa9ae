-- ===== src/Prelude/Dicts.antt =====
-- Python's dict, as an association list in insertion order.

use mathlib.Core.Path.{◌≡◌, refl, ap, ap₂, ◌∙◌}
use mathlib.Core.Bool.{Bool, true, ◌||◌}
use mathlib.Core.Option.{Option, none, some}
use mathlib.Core.Logic.{inl, inr}
use mathlib.Core.List.{List, [], ◌∷◌}
use native.Mathlib.Omega.{arith}
use codex_privacy_hud.Prelude.Tests.{if◌then◌else◌, Bool-cases, ||_true}
use codex_privacy_hud.Prelude.Lists.{any}
use codex_privacy_hud.Prelude.Keys.{Comparable, ◌==◌, ==_refl, ==_sym_false}

abbrev pub Dict {ℓ} : Type ℓ → Type ℓ → Type ℓ
Dict K V = List (K × V)

-- `o` or a default
abbrev pub or_else {ℓ} : {A : Type ℓ} → Option A → A → A
or_else none d = d
or_else (some a) d = a

pub some_inj {ℓ} : {A : Type ℓ} {a b : A} → some a ≡ some b → a ≡ b
some_inj h = cc

module _ {ℓ} {K V : Type ℓ} ⦃e : Comparable K⦄ where
  -- `d.get(k)`
  unfoldable pub lookup : K → Dict K V → Option V
  lookup k [] = none
  lookup k ((j, v) ∷ d) = if j == k then some v else lookup k d

  -- `d[k] = f(d.get(k))`
  unfoldable pub upsert : K → (Option V → V) → Dict K V → Dict K V
  upsert k f [] = (k, f none) ∷ []
  upsert k f ((j, v) ∷ d) =
      let rest = upsert k f d in if j == k then (j, f (some v)) ∷ d else (j, v) ∷ rest

  -- `d[k] = v`
  abbrev pub assign : K → V → Dict K V → Dict K V
  assign k v = upsert k (λ _. v)

  -- `d.pop(k, None)`
  unfoldable pub remove : K → Dict K V → Dict K V
  remove k [] = []
  remove k ((j, v) ∷ d) = let rest = remove k d in if j == k then rest else (j, v) ∷ rest

  pub lookup-upsert :
      (k j : K) (f : Option V → V) (d : Dict K V)
      → lookup j (upsert k f d) ≡ (if k == j then some (f (lookup k d)) else lookup j d)
  unfolding lookup upsert
  lookup-upsert k j f [] = refl
  lookup-upsert k j f ((i, v) ∷ d) =
      ground (arith, e.agrees_iff i k, e.agrees_iff i j, e.agrees_iff k j, lookup-upsert k j f d)

  pub lookup-remove :
      (k j : K) (d : Dict K V) → lookup j (remove k d) ≡ (if k == j then none else lookup j d)
  unfolding lookup remove
  lookup-remove k j [] = ground arith
  lookup-remove k j ((i, v) ∷ d) =
      ground (arith, e.agrees_iff i k, e.agrees_iff i j, e.agrees_iff k j, lookup-remove k j d)

  -- An entry that a lookup finds is met by a walk over the entries.
  pub any_of_lookup :
      (q : K × V → Bool) (k : K) (v : V) (d : Dict K V)
      → lookup k d ≡ some v
      → q (k, v) ≡ true
      → any q d ≡ true
  unfolding lookup any
  any_of_lookup q k v [] h p = cc
  any_of_lookup q k v ((j, w) ∷ d) h p = elim (Bool-cases (j == k)) [
    | inl same ↦
        let found : w ≡ v = some_inj (rw same at h) in
        ap (λ b. b || any q d) (ap₂ (λ x y. q (x, y)) ((e.agrees_iff j k).0 same) found ∙ p)
    | inr other ↦
        ap (λ b. q (j, w) || b) (any_of_lookup q k v d (rw other at h) p) ∙ ||_true (q (j, w))
  ]

  -- No key stands twice.
  abbrev pub Unique : Dict K V → Type ℓ
  Unique [] = Unit
  Unique ((j, v) ∷ d) = (lookup j d ≡ none) × Unique d

  pub upsert-Unique : (k : K) (f : Option V → V) (d : Dict K V) → Unique d → Unique (upsert k f d)
  unfolding upsert lookup
  upsert-Unique k f [] u = (refl, tt)
  upsert-Unique k f ((j, v) ∷ d) u = elim (Bool-cases (j == k)) [
    | inl same ↦ rw same u
    | inr other ↦ rw other (
      lookup-upsert k j f d
          ∙ ap (λ b. if b then some (f (lookup k d)) else lookup j d) (==_sym_false j k other)
          ∙ u.0,
      upsert-Unique k f d u.1,
    )
  ]

  -- With unique keys, an entry that a walk meets is found by a lookup.
  pub lookup_of_any :
      (q : K × V → Bool) (d : Dict K V)
      → Unique d
      → any q d ≡ true
      → (k : K) × (v : V) × (lookup k d ≡ some v) × (q (k, v) ≡ true)
  unfolding lookup any
  lookup_of_any q [] u h = cc
  lookup_of_any q ((j, v) ∷ d) u h = elim (Bool-cases (q (j, v))) [
    | inl here ↦ (j, v, rw (==_refl j), here)
    | inr later ↦
        let (k, w, found, holds) = lookup_of_any q d u.1 (rw later at h) in
        (k, w, ground (arith, e.agrees_iff j k, u.0), holds)
  ]
