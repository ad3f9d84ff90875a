-- ===== src/Namelist/Object/Tests.antt =====
-- Doctests of the class Namelist in scripts/lib/CIME/namelist.py.
use cime.Namelist.Object.Lines.{wrap_values-length}
use cime.Namelist.Object.Merge.{merge_variable-get}
use cime.Namelist.Object.Assign.{overlay, assigned-overlay, set_variable_value-get}
use cime.Namelist.Object.Lookup.{same_name}
use cime.Namelist.Literals.{merge_literal_lists}
use cime.Namelist.Names.{Indices, name_part, get_fortran_variable_indices}
use cime.Common.Int.{pos}
use cime.Common.Lists.{All}
use cime.Common.{◌≤◌, length, arith, ◌&&◌, if◌then◌else◌}
use cime.Common.{
  Text, text, ◌≡◌, refl, true, false, Option, none, some, List, [], ◌∷◌, Result, ok, err,
}
use cime.Common.Int.{◌+ℤ◌}
use cime.Namelist.Parser.Tests.{parser}
use cime.Namelist.Parser.Groups.{parse}
use cime.Namelist.Object.{
  Groups, NamelistError, many_groups, lower, string_in_list, found, get_group_names, group_named,
  values_named, found_entry, value_in_group, group_found, get_variable_names, get_variable_value,
  possible_groups, get_value, delete_variable, copy_group, copy_groups, init,
}
use cime.Namelist.Object.Values.{
  lift_name, nulls, pad_to, set_at, place, in_range, place_values, assigned, resolve, put,
  set_variable_value, merge_variable, merge_variables, merge_groups, merge_nl,
}
use cime.Namelist.Object.Write.{
  text_leb, insert_sorted, sorted, nml, written, wrap_values, write_lines, variable_lines,
  group_lines, write_groups, first_written, groups_written, write,
}

-- All that the tests of the class compute with.
unfoldable pub object : Unit {0}
unfolding parser ◌+ℤ◌ lower string_in_list found get_group_names group_named values_named
    found_entry value_in_group group_found get_variable_names get_variable_value possible_groups
    get_value delete_variable copy_group copy_groups init lift_name nulls pad_to set_at place
    in_range place_values assigned resolve put set_variable_value merge_variable merge_variables
    merge_groups merge_nl text_leb insert_sorted sorted written wrap_values write_lines
    variable_lines group_lines write_groups first_written groups_written write
object = tt

abbrev values_after : Result NamelistError Groups → Text → Text → Option (List Text)
unfolding object
values_after (ok groups) group_name variable_name =
    some (get_variable_value group_name variable_name groups)
values_after (err e) group_name variable_name = none

abbrev x : Groups
x =
    (
      text "foo",
      (text "bar", text "1" ∷ [])
          ∷ (text "bazz", [] ∷ text "2" ∷ [])
          ∷ (text "brat", text "3" ∷ [])
          ∷ [],
    )
    ∷ []

abbrev y : Groups
y =
    (
      text "foo",
      (text "bar", text "2" ∷ [])
          ∷ (text "bazz", text "1" ∷ text "1" ∷ text "1" ∷ [])
          ∷ (text "baker", text "4" ∷ [])
          ∷ [],
    )
    ∷ (text "foo2", (text "barter", text "5" ∷ []) ∷ [])
    ∷ []

get_doctest :
    (get_variable_value (text "foO") (text "Bar") x ≡ text "1" ∷ [])
    × (get_variable_value (text "fo") (text "Bar") x ≡ [] ∷ [])
    × (get_value (text "Baker") y ≡ ok (text "4" ∷ []))
    × (get_value
          (text "bar")
          ((text "a", (text "bar", []) ∷ []) ∷ (text "b", (text "BAR", []) ∷ []) ∷ [])
        ≡ err many_groups)
    × (get_variable_names (text "fOo") (delete_variable (text "FOO") (text "BAR") x)
        ≡ text "bazz" ∷ text "brat" ∷ [])
unfolding object
get_doctest = (refl, refl, refl, refl, refl)

set_doctest :
    (values_after
        (set_variable_value (text "foo") (text "bar(2)") (text "3" ∷ []) 4 x)
        (text "foo")
        (text "bar")
      ≡ some (text "1" ∷ text "3" ∷ []))
    × (values_after
          (set_variable_value (text "Brack") (text "baR") (text "4" ∷ []) 1 x)
          (text "brack")
          (text "bar")
        ≡ some (text "4" ∷ []))
    × (values_after
          (set_variable_value
            (text "foo")
            (text "red(2:6:2)")
            (text "2" ∷ text "4" ∷ text "6" ∷ [])
            12
            x)
          (text "foo")
          (text "red")
        ≡ some ([] ∷ text "2" ∷ [] ∷ text "4" ∷ [] ∷ text "6" ∷ []))
unfolding object
set_doctest = (refl, refl, refl)

merge_doctest :
    (values_after (merge_nl false y x) (text "foo") (text "bar") ≡ some (text "1" ∷ []))
    × (values_after (merge_nl false y x) (text "foo") (text "bazz")
        ≡ some (text "1" ∷ text "2" ∷ text "1" ∷ []))
    × (values_after (merge_nl false y x) (text "foo2") (text "barter") ≡ some (text "5" ∷ []))
    × (values_after (merge_nl true y x) (text "foo") (text "bazz")
        ≡ some (text "1" ∷ text "1" ∷ text "1" ∷ []))
    × (values_after (merge_nl true y x) (text "foo") (text "brat") ≡ some (text "3" ∷ []))
unfolding object
merge_doctest = (refl, refl, refl, refl, refl)

-- What is written, and what the parser reads from it.
write_test :
    (write none nml true x ≡ ok (text "&foo\n  bar = 1\n  bazz = , 2\n  brat = 3\n/\n", x))
    × (parse (text "&foo\n  bar = 1\n  bazz = , 2\n  brat = 3\n/\n") false true
        ≡ some (ok (record { groups = x; flat = [] })))
unfolding object
write_test = (refl, refl)

assigned-overlay_example :
    assigned
      (record { minindex = pos 3; maxindex = pos 4; step = pos 1 })
      (text "a" ∷ text "b" ∷ [])
      (text "1" ∷ [])
    ≡ ok (overlay 2 (text "a" ∷ text "b" ∷ []) (text "1" ∷ []))
assigned-overlay_example =
    assigned-overlay 2 4 (text "a") (text "b" ∷ []) (text "1" ∷ []) (omega arith)

abbrev new_x : Groups
new_x =
    (
      text "foo",
      (text "bar", text "1" ∷ text "3" ∷ [])
          ∷ (text "bazz", [] ∷ text "2" ∷ [])
          ∷ (text "brat", text "3" ∷ [])
          ∷ [],
    )
    ∷ []

set_variable_value-get_example :
    (i : Indices) × (values : List Text) × (get_fortran_variable_indices
        (text "bar(2)")
        (pos 4)
        false
      ≡ ok i)
    × (assigned i (text "3" ∷ []) (get_variable_value (text "FOO") (name_part (text "bar(2)")) x)
        ≡ ok values)
    × ((other_group other_variable : Text)
        → get_variable_value other_group other_variable new_x ≡ (
            if same_name other_group (text "FOO")
              && same_name other_variable (name_part (text "bar(2)"))
            then values
            else get_variable_value other_group other_variable x))
unfolding object
set_variable_value-get_example =
    set_variable_value-get (text "FOO") (text "bar(2)") (text "3" ∷ []) 4 x new_x refl refl

merge_variable-get_example :
    (new : Groups) × (merge_variable true y (text "foo") (text "bazz") x ≡ ok new)
    × ((other_group other_variable : Text)
        → get_variable_value other_group other_variable new ≡ (
            if same_name other_group (text "foo") && same_name other_variable (text "bazz")
            then (if true
                then merge_literal_lists
                    (get_variable_value (text "foo") (text "bazz") x)
                    (get_variable_value (text "foo") (text "bazz") y)
                else merge_literal_lists
                    (get_variable_value (text "foo") (text "bazz") y)
                    (get_variable_value (text "foo") (text "bazz") x))
            else get_variable_value other_group other_variable x))
unfolding object
merge_variable-get_example =
    merge_variable-get true (text "foo") (text "bazz") y x refl refl refl (omega arith)

wrap_values-length_example :
    All (λ l. length l ≤ 81) (wrap_values (text "  bar = 1") (text "2" ∷ text "True" ∷ []))
unfolding written
wrap_values-length_example =
    wrap_values-length (text "  bar = 1") (text "2" ∷ text "True" ∷ []) (omega arith)
      (omega arith, (omega arith, tt))
