-- ===== src/Prelude/SameSet.antt =====
-- Lists that hold the same elements, whatever the order and the number of times: no test of a set
-- tells them apart.
use mathlib.Core.Path.{◌≡◌, refl, sym, ap, ◌∙◌, ap₂, fun_ext}
use mathlib.Core.Bool.{Bool, true, ◌&&◌, ◌||◌, not, Bool-set}
use mathlib.Core.Logic.{∥∥₁_elim}
use mathlib.Core.List.{List, [], ◌∷◌, ◌++◌, Perm, Permᴰ, Mem, Memᴰ}
use native.Mathlib.Omega.{arith}
use codex_privacy_hud.Prelude.Tests.{||_comm}
use codex_privacy_hud.Prelude.Lists.{any, all, any-append, filter}
use codex_privacy_hud.Prelude.Keys.{Comparable, ◌==◌}
use codex_privacy_hud.Prelude.Sets.{member, subset, overlaps, is_empty, without}

pub record SameSet {ℓ} {A : Type ℓ} (s t : List A) : Type ℓ where
  pub at : (q : A → Bool) → any q s ≡ any q t

module _ {ℓ} {A : Type ℓ} where
  all-not-any : (p : A → Bool) (s : List A) → all p s ≡ not (any (λ a. not (p a)) s)
  unfolding all any
  all-not-any p [] = refl
  all-not-any p (x ∷ s) = ground (arith, all-not-any p s)

  any-true : (s : List A) → is_empty s ≡ not (any (λ _. true) s)
  unfolding any
  any-true [] = refl
  any-true (x ∷ s) = refl

  any-filter : (p q : A → Bool) (s : List A) → any q (filter p s) ≡ any (λ x. p x && q x) s
  unfolding any filter
  any-filter p q [] = refl
  any-filter p q (x ∷ s) = ground (arith, any-filter p q s)

  any-memᴰ : (p : A → Bool) (a : A) {s : List A} → Memᴰ a s → p a ≡ true → any p s ≡ true
  unfolding any
  any-memᴰ p a (Memᴰ.head {xs = xs} e) h =
      ap (λ x. p x || any p xs) (sym e) ∙ ap (λ b. b || any p xs) h
  any-memᴰ p a (Memᴰ.tail {x = x} {xs = xs} m) h = ground (arith, any-memᴰ p a m h)

  pub any-mem : (p : A → Bool) (a : A) (s : List A) → Mem a s → p a ≡ true → any p s ≡ true
  any-mem p a s m h = ∥∥₁_elim m (Bool-set _ _) (λ d. any-memᴰ p a d h)

  any_swap : (p : A → Bool) (a b : A) (l : List A) → any p (a ∷ b ∷ l) ≡ any p (b ∷ a ∷ l)
  unfolding any
  any_swap p a b l = ground arith

  any-permᴰ : (p : A → Bool) {s t : List A} → Permᴰ s t → any p s ≡ any p t
  unfolding any
  any-permᴰ p Permᴰ.nil = refl
  any-permᴰ p (Permᴰ.cons {a} {b} e d) = ap₂ (λ x y. p x || y) e (any-permᴰ p d)
  any-permᴰ p (Permᴰ.swap {a} {b} {l = l} e f) =
      any_swap p a b l ∙ ap₂ (λ x y. p x || (p y || any p l)) f e
  any-permᴰ p (Permᴰ.trans d d') = any-permᴰ p d ∙ any-permᴰ p d'

  -- A reordering keeps the elements.
  pub SameSet-perm : {s t : List A} → Perm s t → SameSet s t
  SameSet-perm h = record { at = λ q. ∥∥₁_elim h (Bool-set _ _) (λ d. any-permᴰ q d) }

  pub SameSet-append : {s t u v : List A} → SameSet s t → SameSet u v → SameSet (s ++ u) (t ++ v)
  SameSet-append {s} {t} {u} {v} h k = record {
    at = λ q. any-append q s u ∙ ap₂ ◌||◌ (h.at q) (k.at q) ∙ sym (any-append q t v);
  }

  pub SameSet-append_comm : (s t : List A) → SameSet (s ++ t) (t ++ s)
  SameSet-append_comm s t = record {
    at = λ q. any-append q s t ∙ ||_comm (any q s) (any q t) ∙ sym (any-append q t s);
  }

  pub is_empty-SameSet : {s t : List A} → SameSet s t → is_empty s ≡ is_empty t
  is_empty-SameSet {s} {t} h = any-true s ∙ ap not (h.at (λ _. true)) ∙ sym (any-true t)

  pub SameSet-filter :
      (p : A → Bool) {s t : List A} → SameSet s t → SameSet (filter p s) (filter p t)
  SameSet-filter p {s} {t} h = record {
    at = λ q. any-filter p q s ∙ h.at (λ x. p x && q x) ∙ sym (any-filter p q t);
  }

module _ {ℓ} {A : Type ℓ} ⦃e : Comparable A⦄ where
  pub member-SameSet : (a : A) {s t : List A} → SameSet s t → member a s ≡ member a t
  unfolding member
  member-SameSet a h = h.at (λ x. a == x)

  pub overlaps-SameSet :
      {s t u v : List A} → SameSet s t → SameSet u v → overlaps s u ≡ overlaps t v
  unfolding overlaps
  overlaps-SameSet {s} {t} {u} {v} h k =
      h.at (λ a. member a u) ∙ ap (λ p. any p t) (fun_ext (λ a. member-SameSet a k))

  pub subset-SameSet : {s t u v : List A} → SameSet s t → SameSet u v → subset s u ≡ subset t v
  unfolding subset
  subset-SameSet {s} {t} {u} {v} h k =
      all-not-any (λ a. member a u) s
      ∙ ap not (h.at (λ a. not (member a u)))
      ∙ ap (λ p. not (any p t)) (fun_ext (λ a. ap not (member-SameSet a k)))
      ∙ sym (all-not-any (λ a. member a v) t)

  pub SameSet-without : (a : A) {s t : List A} → SameSet s t → SameSet (without a s) (without a t)
  unfolding without
  SameSet-without a h = SameSet-filter (λ x. not (x == a)) h
