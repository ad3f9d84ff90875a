-- ===== src/Namelist/Tests.antt =====
-- Doctests of scripts/lib/CIME/namelist.py, and the theorems at concrete inputs.
use cime.Namelist.Literals.Types.{is_valid_fortran_namelist_literal-real}
use cime.Namelist.Literals.Merge.{chosen, merge_literal_lists-chosen}
use cime.Namelist.Literals.RoundTrip.{character_literal-string}
use cime.Common.Lists.{get_elem?}
use cime.Common.{text, ◌≡◌, refl, true, false, some, [], ◌∷◌, ok}
use cime.Common.Int.{pos, negsuc}
use cime.Common.Words.{is_space}
use cime.Namelist.Regex.{up_to, nullable, seq_lean, is_never, alt_lean, deriv, matches}
use cime.Namelist.Literals.{
  integer, real, complex, character, logical, digits_of, after_digits, has_nonzero, starts_with,
  has_repeat, after_first, before_last, lstrip_blanks, rstrip_blanks, strip_blanks,
  fortran_namelist_base_value, is_valid_fortran_namelist_literal, delimiter_of, undouble,
  character_literal_to_string, double_quotes, string_to_character_literal, number_from, copies,
  expand_literal, expand_literal_list, compress_literal_list, merge_elements, merge_literal_lists,
}
use cime.Namelist.Names.{
  fortran_name_regex, is_valid_fortran_name, name_part, after_name, get_fortran_name_only,
  signed_int, skip_char, or_else, indices_in, same_ℤ, indices_of, any_length,
  get_fortran_variable_indices,
}

-- All that the tests of literals and names compute with.
unfoldable pub program : Unit {0}
unfolding is_space up_to nullable seq_lean is_never alt_lean deriv matches digits_of after_digits
    has_nonzero starts_with has_repeat after_first before_last lstrip_blanks rstrip_blanks
    strip_blanks fortran_namelist_base_value is_valid_fortran_namelist_literal delimiter_of undouble
    character_literal_to_string double_quotes string_to_character_literal number_from copies
    expand_literal expand_literal_list compress_literal_list merge_elements merge_literal_lists
    fortran_name_regex is_valid_fortran_name name_part after_name get_fortran_name_only signed_int
    skip_char or_else indices_in same_ℤ indices_of any_length get_fortran_variable_indices
program = tt

integers_doctest :
    (is_valid_fortran_namelist_literal integer (text "5*1") ≡ true)
    × (is_valid_fortran_namelist_literal integer (text "5* 1") ≡ false)
    × (is_valid_fortran_namelist_literal integer (text "5 *1") ≡ false)
    × (is_valid_fortran_namelist_literal integer (text " 1") ≡ true)
    × (is_valid_fortran_namelist_literal integer (text "-26") ≡ true)
    × (is_valid_fortran_namelist_literal integer (text "2e6") ≡ false)
    × (is_valid_fortran_namelist_literal integer (text "5*") ≡ true)
unfolding program
integers_doctest = (refl, refl, refl, refl, refl, refl, refl)

reals_doctest :
    (is_valid_fortran_namelist_literal real (text "+.5") ≡ true)
    × (is_valid_fortran_namelist_literal real (text ".") ≡ false)
    × (is_valid_fortran_namelist_literal real (text "1e-6") ≡ true)
    × (is_valid_fortran_namelist_literal real (text "1-6") ≡ true)
    × (is_valid_fortran_namelist_literal real (text "nan(booga)") ≡ true)
    × (is_valid_fortran_namelist_literal real (text "iNfInity") ≡ true)
    × (is_valid_fortran_namelist_literal complex (text "(1., 2.)") ≡ true)
    × (is_valid_fortran_namelist_literal complex (text "(A,B)") ≡ false)
unfolding program
reals_doctest = (refl, refl, refl, refl, refl, refl, refl, refl)

others_doctest :
    (is_valid_fortran_namelist_literal logical (text ".TEXAS$") ≡ true)
    × (is_valid_fortran_namelist_literal logical (text ".f/1") ≡ false)
    × (is_valid_fortran_namelist_literal logical (text "at") ≡ false)
    × (is_valid_fortran_namelist_literal character (text "'don''t'") ≡ true)
    × (is_valid_fortran_namelist_literal character (text "'don't'") ≡ false)
unfolding program
others_doctest = (refl, refl, refl, refl, refl)

names_doctest :
    (is_valid_fortran_name (text "aLiBi_123") ≡ true)
    × (is_valid_fortran_name (text "A(1:2:3)") ≡ true)
    × (is_valid_fortran_name (text "A(:-2:)") ≡ true)
    × (is_valid_fortran_name (text "A(1,3)") ≡ false)
    × (is_valid_fortran_name (text "_") ≡ false)
    × (get_fortran_name_only (text "foo(:+2:)") ≡ ok (text "foo"))
unfolding program
names_doctest = (refl, refl, refl, refl, refl, refl)

indices_doctest :
    (get_fortran_variable_indices (text "foo(3)") (pos 1) false
      ≡ ok (record { minindex = pos 3; maxindex = pos 3; step = pos 1 }))
    × (get_fortran_variable_indices (text "foo(1:2:3)") (pos 1) false
        ≡ ok (record { minindex = pos 1; maxindex = pos 2; step = pos 3 }))
    × (get_fortran_variable_indices (text "foo(::2)") (pos 4) false
        ≡ ok (record { minindex = pos 1; maxindex = pos 4; step = pos 2 }))
    × (get_fortran_variable_indices (text "foo(::)") (pos 1) true
        ≡ ok (record { minindex = pos 1; maxindex = negsuc 0; step = pos 1 }))
unfolding program
indices_doctest = (refl, refl, refl, refl)

lists_doctest :
    (expand_literal_list (text "1" ∷ text "f*" ∷ text "3*3" ∷ text "2*f*" ∷ [])
      ≡ text "1" ∷ text "f*" ∷ text "3" ∷ text "3" ∷ text "3" ∷ text "f*" ∷ text "f*" ∷ [])
    × (merge_literal_lists
          (text "3*false" ∷ text "3*true" ∷ [])
          (text "true" ∷ text "4*" ∷ text "false" ∷ [])
        ≡ text "true" ∷ text "false" ∷ text "false" ∷ text "true" ∷ text "true" ∷ text "false" ∷ [])
unfolding program
lists_doctest = (refl, refl)

character_literal-string_example :
    (is_valid_fortran_namelist_literal character (string_to_character_literal (text "a \"b\" 'c'"))
      ≡ true)
    × (character_literal_to_string (string_to_character_literal (text "a \"b\" 'c'"))
        ≡ some (text "a \"b\" 'c'"))
character_literal-string_example = character_literal-string (text "a \"b\" 'c'")

merge_literal_lists-chosen_example :
    get_elem? (merge_literal_lists (text "3*1" ∷ []) ([] ∷ text "2" ∷ [])) 1
    ≡ chosen
        (get_elem? (expand_literal_list (text "3*1" ∷ [])) 1)
        (get_elem? (expand_literal_list ([] ∷ text "2" ∷ [])) 1)
merge_literal_lists-chosen_example =
    merge_literal_lists-chosen (text "3*1" ∷ []) ([] ∷ text "2" ∷ []) 1

is_valid_fortran_namelist_literal-real_example :
    is_valid_fortran_namelist_literal real (text "3*-26") ≡ true
unfolding program
is_valid_fortran_namelist_literal-real_example =
    is_valid_fortran_namelist_literal-real (text "3*-26") refl
