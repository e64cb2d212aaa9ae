-- ===== src/Bands.antt =====
-- The bands of a scoring profile: `_bands` of src/privacy_hud/accounting.py, and `Matrix.band` of
-- src/privacy_hud/matrix/loader.py. A negative bound is refused by the source, since the first band
-- starts at 0 and none ends before it starts, so a bound is a natural number.
pub mod Cover
mod Tests
use codex_privacy_hud.Prelude.{
  ℕ, ◌+◌, String, Bool, true, false, not, ◌&&◌, ◌||◌, Option, none, some, List, [], ◌∷◌, length,
  if◌then◌else◌, ltb, leb, nat_eq, ◌==◌, string_key,
}

pub record Band : Type 0 where
  pub lo : ℕ
  pub hi : ℕ
  pub name : String

-- `_BAND_NAMES`
abbrev pub band_names : List String
band_names = "safe" ∷ "warn" ∷ "danger" ∷ []

-- The loop: where the next band must start. `none` is the `ValueError`.
pub next_lo : ℕ → List Band → List String → Option ℕ
next_lo expected_lo [] names = some expected_lo
next_lo expected_lo (b ∷ bs) [] = some expected_lo
next_lo expected_lo (b ∷ bs) (n ∷ ns) =
    let rest = next_lo (b.hi + 1) bs ns in
    if not (b.name == n) || not (nat_eq b.lo expected_lo) || ltb b.hi b.lo then none else rest

pub accept : Option ℕ → List Band → Option (List Band)
accept none bs = none
accept (some expected_lo) bs =
    if not (nat_eq (length bs) (length band_names)) || not (nat_eq expected_lo 101)
    then none
    else some bs

-- `_bands`
pub bands : List Band → Option (List Band)
bands value = accept (next_lo 0 value band_names) value

abbrev pub contains : ℕ → Band → Bool
contains percent b = leb b.lo percent && leb percent b.hi

-- `band`. `none` is `UnknownKey`.
pub band : ℕ → List Band → Option String
band percent [] = none
band percent (b ∷ bs) =
    let rest = band percent bs in if contains percent b then some b.name else rest
