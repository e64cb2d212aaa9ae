-- ===== src/Prelude/Sorting.antt =====
-- `sorted(set(xs))` over texts.
use Prim.Native.String.{String, compare}
use Prim.Native.Nat.{Ordering}
use mathlib.Core.List.{List, [], ◌∷◌, foldr}

insert_sorted : String → List String → List String
insert_sorted a [] = a ∷ []
insert_sorted a (x ∷ xs) =
    let rest = insert_sorted a xs in
    elim (compare a x) [ Ordering.lt ↦ a ∷ x ∷ xs | Ordering.eq ↦ x ∷ xs | Ordering.gt ↦ x ∷ rest ]

unfoldable pub sorted_set : List String → List String
unfolding insert_sorted
sorted_set = foldr insert_sorted []
