-- ===== src/Minimize.antt =====
-- `minimize_text` of src/privacy_hud/minimize.py. A text is its list of code points, and `pseudonym`
-- (a keyed hash of a value under the salt, of mask.py) is a parameter. `none` is the `ValueError` of a
-- finding whose span does not hold its value.
pub mod Weave
mod Tests
use mathlib.Core.List.{foldl}
use codex_privacy_hud.Prelude.{
  ℕ, String, Bool, true, false, ◌&&◌, Option, none, some, List, [], ◌∷◌, ◌++◌, if◌then◌else◌, ltb,
  nat_eq, take, drop,
}

abbrev pub Text : Type 0
Text = List ℕ

pub record Found : Type 0 where
  pub data_type : String
  pub value : Text
  pub start : ℕ
  pub end : ℕ

pub same_text : Text → Text → Bool
same_text [] [] = true
same_text [] (y ∷ ys) = false
same_text (x ∷ xs) [] = false
same_text (x ∷ xs) (y ∷ ys) = nat_eq x y && same_text xs ys

-- `t[a:b]`
abbrev pub slice : ℕ → ℕ → Text → Text
slice a b t = drop a (take b t)

insert_by_start : Found → List Found → List Found
insert_by_start f [] = f ∷ []
insert_by_start f (g ∷ gs) =
    let rest = insert_by_start f gs in if ltb f.start g.start then g ∷ rest else f ∷ g ∷ gs

-- `sorted(findings, key=lambda f: f.start, reverse=True)`, which keeps the order of equal starts
pub sorted_by_start : List Found → List Found
unfolding insert_by_start
sorted_by_start [] = []
sorted_by_start (f ∷ fs) = insert_by_start f (sorted_by_start fs)

module _ (pseudonym : String → Text → Text) where
  -- The body of the loop
  pub replace_one : Found → Text → Option Text
  replace_one f out =
      if same_text (slice f.start f.end out) f.value
      then some (take f.start out ++ (pseudonym f.data_type f.value ++ drop f.end out))
      else none

  pub replace_next : Option Text → Found → Option Text
  replace_next none f = none
  replace_next (some out) f = replace_one f out

  -- `minimize_text`
  pub minimize_text : Text → List Found → Option Text
  minimize_text text findings = foldl replace_next (some text) (sorted_by_start findings)
