-- ===== src/Namelist/Object.antt =====
-- scripts/lib/CIME/namelist.py: the class Namelist. `self._groups` is explicit.
pub mod Values
pub mod Lookup
pub mod Get
pub mod Assign
pub mod Write
pub mod Merge
pub mod Lines
pub mod Tests
use cime.Common.{
  ℕ, zero, suc, ◌+◌, ◌-◌, ◌*◌, Text, text, Bool, true, false, ◌&&◌, ◌||◌, not, Option, none, some,
  List, [], ◌∷◌, ◌++◌, map, if◌then◌else◌, Result, ok, err, expect, ◌>>=◌, ◌>>◌, leb, ltb, ◌==◌,
  nat_eq, list_eq, is_nil, contains, length,
}
use cime.Common.Dict.{Dict, lookup, insert, remove, keys}
use cime.Common.Int.{ℤ, pos, negsuc, ltb_ℤ, ◌+ℤ◌}
use cime.Namelist.Literals.{merge_literal_lists}
use cime.Namelist.Names.{
  NameError, no_match, zero_step, Indices, get_fortran_variable_indices, get_fortran_name_only,
}

abbrev pub Group : Type 0
Group = Dict Text (List Text)

abbrev pub Groups : Type 0
Groups = Dict Text Group

pub data NamelistError : Type 0 where
  -- of get_fortran_variable_indices and get_fortran_name_only
  name_error : NameError → NamelistError
  -- "Indices < 1 not supported in CIME interface to fortran namelists"
  low_index : NamelistError
  -- "Variable is present in multiple groups"
  many_groups : NamelistError
  -- IndexError: pop from empty list, list assignment index out of range
  index_error : NamelistError
  -- KeyError
  key_error : NamelistError

-- str.lower() of one character, and of an ASCII text
abbrev lower_char : ℕ → ℕ
lower_char c = if leb b'A' c && leb c b'Z' then c + 32 else c

unfoldable pub lower : Text → Text
lower [] = []
lower (c ∷ s) = lower_char c ∷ lower s

unfoldable pub string_in_list : Text → List Text → Option Text
unfolding lower
string_in_list string [] = none
string_in_list string (x ∷ xs) =
    let later = string_in_list string xs in if lower string == lower x then some x else later

-- `if not gn`: the empty text is no name
unfoldable pub found : Text → List Text → Option Text
unfolding string_in_list
found string xs = elim (string_in_list string xs) [
  | none ↦ none
  | some x ↦ if is_nil x then none else some x
]

unfoldable pub get_group_names : Groups → List Text
get_group_names groups = keys groups

unfoldable pub group_named : Text → Groups → Group
unfolding lookup
group_named name groups = elim (lookup name groups) [ none ↦ [] | some group ↦ group ]

unfoldable pub values_named : Text → Group → List Text
unfolding lookup
values_named name group = elim (lookup name group) [ none ↦ [] | some values ↦ values ]

-- d[k] of a key that is found
abbrev pub at_key {ℓ} : {V : Type ℓ} → Dict Text V → Option Text → Option V
at_key d none = none
at_key d (some k) = lookup k d

unfoldable pub found_entry {ℓ} : {V : Type ℓ} → Text → Dict Text V → Option V
unfolding found lookup
found_entry name d = at_key d (found name (keys d))

abbrev pub or_null : Option (List Text) → List Text
or_null none = [] ∷ []
or_null (some values) = values

abbrev pub or_empty : Option Group → Group
or_empty none = []
or_empty (some group) = group

-- The values of a name in a group, a null value where there is none.
unfoldable pub value_in_group : Text → Group → List Text
unfolding found_entry
value_in_group variable_name group = or_null (found_entry variable_name group)

-- The group of a name, an empty one where there is none.
unfoldable pub group_found : Text → Groups → Group
unfolding found_entry
group_found group_name groups = or_empty (found_entry group_name groups)

unfoldable pub get_variable_names : Text → Groups → List Text
unfolding group_found
get_variable_names group_name groups = keys (group_found group_name groups)

unfoldable pub get_variable_value : Text → Text → Groups → List Text
unfolding group_found value_in_group
get_variable_value group_name variable_name groups =
    value_in_group variable_name (group_found group_name groups)

-- possible_groups, with the name that the variable has in each of them
unfoldable pub possible_groups : Text → Groups → List (Text × Text)
unfolding found
possible_groups variable_name [] = []
possible_groups variable_name ((group_name, group) ∷ groups) =
    let later = possible_groups variable_name groups in
    elim (found variable_name (keys group)) [ none ↦ later | some vn ↦ (group_name, vn) ∷ later ]

unfoldable pub get_value : Text → Groups → Result NamelistError (List Text)
unfolding possible_groups group_named values_named
get_value variable_name groups = elim (possible_groups variable_name groups) [
  | [] ↦ ok ([] ∷ [])
  | (gn, vn) ∷ [] ↦ ok (values_named vn (group_named gn groups))
  | _ ∷ _ ∷ _ ↦ err many_groups
]

unfoldable pub delete_variable : Text → Text → Groups → Groups
unfolding found group_named remove insert
delete_variable group_name variable_name groups = elim (found group_name (keys groups)) [
  | none ↦ groups
  | some gn ↦ elim (found variable_name (keys (group_named gn groups))) [
    | none ↦ groups
    | some vn ↦ insert gn (remove vn (group_named gn groups)) groups
  ]
]

-- The loop over the variables of a group, and over the groups.
unfoldable pub copy_group : Group → Group → Group
unfolding insert
copy_group copy [] = copy
copy_group copy ((variable_name, values) ∷ group) =
    copy_group (insert variable_name values copy) group

unfoldable pub copy_groups : Groups → Groups → Groups
unfolding insert copy_group
copy_groups copy [] = copy
copy_groups copy ((group_name, group) ∷ groups) =
    copy_groups (insert group_name (copy_group [] group) copy) groups

-- Namelist(groups)
unfoldable pub init : Groups → Groups
unfolding copy_groups
init groups = copy_groups [] groups

unfoldable pub clean_groups : Groups → Groups
clean_groups groups = []
