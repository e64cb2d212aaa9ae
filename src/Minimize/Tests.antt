-- ===== src/Minimize/Tests.antt =====
-- An example: two values of a text of six code points.
use codex_privacy_hud.Prelude.{String, some, List, [], ◌∷◌, ◌≡◌, refl, arith}
use codex_privacy_hud.Minimize.{
  Text, Found, minimize_text, sorted_by_start, insert_by_start, replace_next, replace_one,
  same_text,
}
use codex_privacy_hud.Minimize.Weave.{weave, minimize_text-weave}

abbrev stars : String → Text → Text
stars data_type value = 42 ∷ 42 ∷ []

abbrev line : Text
line = 1 ∷ 2 ∷ 3 ∷ 4 ∷ 5 ∷ 6 ∷ []

abbrev found : List Found
found =
    record { data_type = "email"; value = 2 ∷ []; start = 1; end = 2 }
    ∷ record { data_type = "phone"; value = 4 ∷ 5 ∷ []; start = 3; end = 5 }
    ∷ []

replaced : minimize_text stars line found ≡ some (1 ∷ 42 ∷ 42 ∷ 3 ∷ 42 ∷ 42 ∷ 6 ∷ [])
unfolding minimize_text sorted_by_start insert_by_start replace_next replace_one same_text
replaced = refl

minimize_text-weave_example : minimize_text stars line found ≡ some (weave stars line 0 found)
minimize_text-weave_example =
    minimize_text-weave stars line found (
      omega arith,
      omega arith,
      omega arith,
      refl,
      (omega arith, omega arith, omega arith, refl, tt),
    )
