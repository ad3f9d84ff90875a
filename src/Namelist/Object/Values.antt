-- ===== src/Namelist/Object/Values.antt =====
-- scripts/lib/CIME/namelist.py: set_variable_value and merge_nl of the class Namelist.
use cime.Common.{
  list_eq, nat_eq, ℕ, zero, suc, ◌+◌, ◌-◌, Text, Bool, false, Option, none, some, List, [], ◌∷◌,
  ◌++◌, if◌then◌else◌, Result, ok, err, expect, ◌>>=◌, ◌>>◌, leb, is_nil, length,
}
use cime.Common.Dict.{insert, keys}
use cime.Common.Int.{ℤ, pos, negsuc, ltb_ℤ, ◌+ℤ◌}
use cime.Namelist.Literals.{merge_literal_lists}
use cime.Namelist.Names.{NameError, Indices, get_fortran_variable_indices, get_fortran_name_only}
use cime.Namelist.Object.{
  Groups, NamelistError, name_error, low_index, index_error, found, group_found, get_variable_value,
  get_variable_names, get_group_names,
}

unfoldable pub lift_name : {A : Type 0} → Result NameError A → Result NamelistError A
lift_name (ok a) = ok a
lift_name (err e) = err (name_error e)

-- [''] * n
unfoldable pub nulls : ℕ → List Text
nulls zero = []
nulls (suc n) = [] ∷ nulls n

-- while len(values) < n: values.append('')
unfoldable pub pad_to : ℕ → List Text → List Text
unfolding nulls
pad_to n values = values ++ nulls (n - length values)

-- values[j] = value, with j < len(values)
unfoldable pub set_at : ℕ → Text → List Text → List Text
set_at j value [] = []
set_at zero value (v ∷ values) = value ∷ values
set_at (suc j) value (v ∷ values) = v ∷ set_at j value values

-- The padding and values[i-1] = value: an index below 0 counts from the end.
unfoldable pub place : ℤ → Text → List Text → Result NamelistError (List Text)
unfolding set_at pad_to
place (pos zero) value values =
    if leb 1 (length values) then ok (set_at (length values - 1) value values) else err index_error
place (pos (suc j)) value values = ok (set_at j value (pad_to (suc j) values))
place (negsuc k) value values =
    if leb (k + 2) (length values)
    then ok (set_at (length values - (k + 2)) value values)
    else err index_error

-- i is in range(_, stop, step), behind its start.
unfoldable pub in_range : ℤ → ℤ → ℤ → Bool
in_range i stop step = if ltb_ℤ (pos 0) step then ltb_ℤ i stop else ltb_ℤ stop i

-- The loop over the indices, by the values that are left.
unfoldable pub place_values : ℤ → ℤ → ℤ → List Text → List Text → Result NamelistError (List Text)
unfolding place in_range ◌+ℤ◌
place_values i stop step [] values = if in_range i stop step then err index_error else ok values
place_values i stop step (v ∷ value) values =
    if in_range i stop step
    then place i v values >>= (λ placed.
      if is_nil value then ok placed else place_values (i +ℤ step) stop step value placed)
    else ok values

-- The values of a variable with `value` at the indices; minindex is above 0.
unfoldable pub assigned : Indices → List Text → List Text → Result NamelistError (List Text)
unfolding nulls place_values ◌+ℤ◌
assigned i value current = elim i.minindex [
  | negsuc _ ↦ err low_index
  | pos zero ↦ err low_index
  | pos (suc j) ↦
      place_values (pos (suc j)) (i.maxindex +ℤ (i.step +ℤ i.step)) i.step value
        (current ++ nulls (j - length current))
]

-- The name as it stands in the list, the given one if it does not.
abbrev pub or_name : Text → Option Text → Text
or_name name none = name
or_name name (some n) = n

unfoldable pub resolve : Text → List Text → Text
unfolding found
resolve name names = or_name name (found name names)

-- self._groups[gn][vn] = values
unfoldable pub put : Text → Text → List Text → Groups → Groups
unfolding resolve group_found insert
put group_name variable_name values groups =
    let group = group_found group_name groups in
    insert (resolve group_name (keys groups))
      (insert (resolve variable_name (keys group)) values group) groups

unfoldable pub set_variable_value :
    Text → Text → List Text → ℕ → Groups → Result NamelistError Groups
unfolding lift_name get_fortran_variable_indices get_fortran_name_only assigned get_variable_value
    put
set_variable_value group_name variable_name value var_size groups = do
  i ← lift_name (get_fortran_variable_indices variable_name (pos var_size) false)
  name ← lift_name (get_fortran_name_only variable_name)
  expect (ltb_ℤ (pos 0) i.minindex) low_index
  values ← assigned i value (get_variable_value group_name name groups)
  ok (put group_name name values groups)

-- One step of merge_nl: the value of `other` under the names of a group and a variable.
unfoldable pub merge_variable : Bool → Groups → Text → Text → Groups → Result NamelistError Groups
unfolding get_variable_value merge_literal_lists set_variable_value
merge_variable overwrite other group_name variable_name self =
    let self_val = get_variable_value group_name variable_name self in
    let other_val = get_variable_value group_name variable_name other in
    let merged_val =
      if overwrite
      then merge_literal_lists self_val other_val
      else merge_literal_lists other_val self_val in
    set_variable_value group_name variable_name merged_val (length merged_val) self

unfoldable pub merge_variables :
    Bool → Groups → Text → List Text → Groups → Result NamelistError Groups
unfolding merge_variable
merge_variables overwrite other group_name [] self = ok self
merge_variables overwrite other group_name (variable_name ∷ names) self =
    merge_variable overwrite other group_name variable_name self
    >>= (λ merged. merge_variables overwrite other group_name names merged)

unfoldable pub merge_groups : Bool → Groups → List Text → Groups → Result NamelistError Groups
unfolding merge_variables get_variable_names
merge_groups overwrite other [] self = ok self
merge_groups overwrite other (group_name ∷ names) self =
    merge_variables overwrite other group_name (get_variable_names group_name other) self
    >>= (λ merged. merge_groups overwrite other names merged)

unfoldable pub merge_nl : Bool → Groups → Groups → Result NamelistError Groups
unfolding merge_groups get_group_names
merge_nl overwrite other self = merge_groups overwrite other (get_group_names other) self
