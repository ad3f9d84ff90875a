-- ===== src/NamelistCompare/Tests.antt =====
-- Doctests of scripts/lib/CIME/compare_namelists.py, and the theorem at concrete namelists.
use cime.Common.{list_eq, nat_eq, Text, text, none, some, [], ◌∷◌, ◌++◌, ◌≡◌, refl}
use cime.Common.Dict.{Dict, lookup}
use cime.Common.Parts.{has_prefix, has_part}
use cime.Common.Words.{is_space, join}
use cime.Namelist.Literals.{after_first}
use cime.SimpleCompare.Normal.{after_case, after_id, taken, written_at, sub_case, basename}
use cime.NamelistCompare.{
  Value, scalar, items, entries, no_values, more, Entries, no_entries, entry, find, both, decimal,
  remark, missing_key, extra_key, difference, compare_normalized, compare_strings, item_name,
  key_name, append_comment, extra_variables, joined, block, extra_namelists, wrong_type,
  extra_items, missing_items, extra_keys, compare_values, compare_variable, compare_variables,
  compare_namelist, compare_gold, compare_namelists,
}
use cime.NamelistCompare.Normal.{
  after_letters, after_dot_id, after_actions, upper, split_at, last_part_from, last_part, has_scale,
  normalize_path, replace_case, normalize_item, normalize_items, normalize_string_value,
}
use cime.NamelistCompare.Namelists.{AgreeNamelist, compare_namelists-agree}

-- All that the tests compute with.
program : Unit {0}
unfolding lookup has_prefix has_part is_space join after_first after_case after_id taken written_at
    sub_case basename find both decimal remark missing_key extra_key difference compare_normalized
    compare_strings item_name key_name append_comment extra_variables joined block extra_namelists
    wrong_type extra_items missing_items extra_keys compare_values compare_variable
    compare_variables compare_namelist compare_gold compare_namelists after_letters after_dot_id
    after_actions upper split_at last_part_from last_part has_scale normalize_path replace_case
    normalize_item normalize_items normalize_string_value
program = tt

abbrev shown : Value → Text
shown (scalar s) = s
shown (items _) = text "[...]"
shown (entries _) = text "OrderedDict(...)"

abbrev kind : Value → Text
kind (scalar _) = text "<class 'str'>"
kind (items _) = text "<class 'list'>"
kind (entries _) = text "<class 'collections.OrderedDict'>"

abbrev list_of : Text → Text → Text → Value
list_of a b c = items (more (scalar a) (more (scalar b) (more (scalar c) no_values)))

abbrev gold : Dict Text Entries
gold =
    (text "nml1", entry (text "val11") (scalar (text "'foo'")) no_entries)
    ∷ (
      text "nml2",
      entry (text "val21") (scalar (text "'foo'")) (
          entry (text "val22") (list_of (text "'foo'") (text "'bar'") (text "'baz'")) (
            entry (text "val23") (scalar (text "'baz'")) (
              entry (text "val24")
                (entries (
                  entry (text "1") (scalar (text "2"))
                    (entry (text "3") (scalar (text "4")) no_entries)))
                no_entries))),
    )
    ∷ []

abbrev comp : Dict Text Entries
comp =
    (text "nml01", entry (text "val11") (scalar (text "'foo'")) no_entries)
    ∷ (
      text "nml2",
      entry (text "val21") (scalar (text "'foo0'")) (
          entry (text "val22") (list_of (text "'foo'") (text "'bar0'") (text "'baz'")) (
            entry (text "val230") (scalar (text "'baz'")) (
              entry (text "val24")
                (entries (
                  entry (text "1") (scalar (text "20"))
                    (entry (text "30") (scalar (text "4")) no_entries)))
                no_entries))),
    )
    ∷ []

compare_doctest :
    (compare_namelists shown kind gold gold none ≡ some [])
    × (compare_namelists shown kind gold comp none
        ≡ some (
            text
              "Missing namelist: nml1\nDifferences in namelist 'nml2':\n  BASE: val21 = 'foo'\n  COMP: val21 = 'foo0'\n"
            ++ (text
                  "  BASE: val22 list item 1 = 'bar'\n  COMP: val22 list item 1 = 'bar0'\n  missing variable: 'val23'\n"
                ++ (text
                      "  BASE: val24 dict item 1 = 2\n  COMP: val24 dict item 1 = 20\n  dict variable 'val24' missing key 3 with value 4\n"
                    ++ text
                        "  dict variable 'val24' has extra key 30 with value 4\n  found extra variable: 'val230'\nFound extra namelist: nml01\n"))))
unfolding program
compare_doctest = (refl, refl)

normalize_test :
    (normalize_string_value
        (text "case_name")
        (text "'ERB.f19.C.150513-230221'")
        (some (text "ERB.f19"))
      ≡ some (text "'ERB.f19.ACTION.TESTID"))
    × (normalize_string_value (text "runid") (text "'FOO'") none ≡ some (text "RUNID"))
    × (normalize_string_value (text "mode_defs") (text "'A:so4:/projects/a.nc:+'") none
        ≡ some (text "'A:so4:a.nc:+'"))
    × (normalize_string_value (text "x") (text "1.0*/projects/a.nc") none ≡ some (text "1.0*a.nc"))
    × (normalize_string_value (text "x") (text "1.0*projects/a.nc") none ≡ none)
unfolding program
normalize_test = (refl, refl, refl, refl, refl)

compare_namelists-agree_example :
    AgreeNamelist none (lookup (text "nml2") gold) (lookup (text "nml2") gold)
unfolding program
compare_namelists-agree_example =
    compare_namelists-agree shown kind none gold gold refl (text "nml2")
