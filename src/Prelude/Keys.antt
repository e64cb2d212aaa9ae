-- ===== src/Prelude/Keys.antt =====
-- Keys: types whose equality the program tests, as an interface with instances.
use Prim.Native.Nat.{ℕ}
use Prim.Native.String.{String}
use mathlib.Core.Path.{◌≡◌, refl, sym, ap, ◌∙◌}
use mathlib.Core.Logic.{◌↔◌}
use mathlib.Core.Bool.{Bool, true, false, ◌&&◌}
use native.Mathlib.Omega.{arith}
use text.Mathlib.Text.{◌==◌ as str_eq}
use text.Mathlib.TextEquality.{eq_iff}
use codex_privacy_hud.Prelude.Tests.{nat_eq, nat_eq_iff}

pub record Comparable {ℓ} (A : Type ℓ) : Type ℓ where
  pub agrees : A → A → Bool
  pub agrees_iff : (a b : A) → (agrees a b ≡ true) ↔ (a ≡ b)

instance abbrev pub string_key : Comparable String
string_key = record { agrees = str_eq; agrees_iff = eq_iff }

instance abbrev pub nat_key : Comparable ℕ
nat_key = record { agrees = nat_eq; agrees_iff = nat_eq_iff }

infix 50 ◌==◌
abbrev pub ◌==◌ {ℓ} : {A : Type ℓ} ⦃e : Comparable A⦄ → A → A → Bool
◌==◌ ⦃e⦄ = e.agrees

module _ {ℓ} {A : Type ℓ} ⦃e : Comparable A⦄ where
  pub ==_refl : (a : A) → (a == a) ≡ true
  ==_refl a = (e.agrees_iff a a).1 refl

  pub ==→eq : (a b : A) → (a == b) ≡ true → a ≡ b
  ==→eq a b = (e.agrees_iff a b).0

  pub ==_sym_false : (a b : A) → (a == b) ≡ false → (b == a) ≡ false
  ==_sym_false a b h = ground (arith, e.agrees_iff a b, e.agrees_iff b a)

-- A type that a function codes into the numbers with no collision.
module _ {ℓ} {A : Type ℓ} (code : A → ℕ) (decode : ℕ → A)
    (back : (a : A) → decode (code a) ≡ a) where
  pub code_iff : (a b : A) → (nat_eq (code a) (code b) ≡ true) ↔ (a ≡ b)
  code_iff a b = (
    λ h. sym (back a) ∙ ap decode ((nat_eq_iff (code a) (code b)).0 h) ∙ back b,
    λ e. (nat_eq_iff (code a) (code b)).1 (ap code e),
  )

  abbrev pub key_by : Comparable A
  key_by = record { agrees = λ a b. nat_eq (code a) (code b); agrees_iff = code_iff }

module _ {ℓ κ} {A : Type ℓ} {B : Type κ} ⦃e : Comparable A⦄ ⦃f : Comparable B⦄ where
  abbrev pub agrees_pair : A × B → A × B → Bool
  agrees_pair (a, b) (c, d) = e.agrees a c && f.agrees b d

  pub agrees_pair_iff : (p q : A × B) → (agrees_pair p q ≡ true) ↔ (p ≡ q)
  agrees_pair_iff (a, b) (c, d) = (
    λ h. ground (arith, e.agrees_iff a c, f.agrees_iff b d),
    λ h. ground (arith, e.agrees_iff a c, f.agrees_iff b d),
  )

  instance abbrev pub pair_key : Comparable (A × B)
  pair_key = record { agrees = agrees_pair; agrees_iff = agrees_pair_iff }
