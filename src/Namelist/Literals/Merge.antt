-- ===== src/Namelist/Literals/Merge.antt =====
-- scripts/lib/CIME/namelist.py: what merge_literal_lists chooses at each position.
use cime.Common.{
  ℕ, zero, suc, ◌≡◌, refl, Text, Option, none, some, List, [], ◌∷◌, if◌then◌else◌, is_nil,
  get_elem?, arith,
}
use cime.Namelist.Literals.{expand_literal_list, merge_elements, merge_literal_lists}

-- The value at a position: a null value of `overwrite` leaves the default.
unfoldable pub chosen : Option Text → Option Text → Option Text
chosen default none = default
chosen none (some e) = some e
chosen (some d) (some e) = if is_nil e then some d else some e

merge_elements-chosen :
    (default overwrite : List Text) (i : ℕ)
    → get_elem? (merge_elements default overwrite) i
      ≡ chosen (get_elem? default i) (get_elem? overwrite i)
unfolding merge_elements chosen
merge_elements-chosen [] [] i = refl
merge_elements-chosen [] (e ∷ overwrite) zero = refl
merge_elements-chosen [] (e ∷ overwrite) (suc i) = ground arith
merge_elements-chosen (d ∷ default) [] i = refl
merge_elements-chosen (d ∷ default) (e ∷ overwrite) zero = ground arith
merge_elements-chosen (d ∷ default) (e ∷ overwrite) (suc i) =
    merge_elements-chosen default overwrite i

-- At every position, after the repetitions `r*c` of both lists are written out, the merged list has
-- the value of `overwrite`, or that of `default` where `overwrite` has a null value or no value.
pub merge_literal_lists-chosen :
    (default overwrite : List Text) (i : ℕ)
    → get_elem? (merge_literal_lists default overwrite) i
      ≡ chosen
          (get_elem? (expand_literal_list default) i)
          (get_elem? (expand_literal_list overwrite) i)
unfolding merge_literal_lists
merge_literal_lists-chosen default overwrite i =
    merge_elements-chosen (expand_literal_list default) (expand_literal_list overwrite) i
