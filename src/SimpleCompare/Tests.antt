-- ===== src/SimpleCompare/Tests.antt =====
-- Doctests of scripts/lib/CIME/simple_compare.py, and the theorem at concrete files.
use cime.Common.{Text, text, false, none, some, List, [], ◌∷◌, ok, ◌==◌, list_eq, nat_eq, ◌≡◌, refl}
use cime.Common.Parts.{has_prefix, has_part}
use cime.Common.Words.{is_space, lstrip, rstrip, strip, join}
use cime.Namelist.Literals.{before_last}
use cime.SimpleCompare.{
  is_idle, skip_comments_and_whitespace, single_quotes, value_of, difference, moves, ahead,
  report_on, extra_lines, missing_lines, add, compare_at, compare_lines, compare_data,
  compare_files,
}
use cime.SimpleCompare.Normal.{
  after_case, after_id, after_action, taken, written_at, sub_case, basename, normalize_string_value,
}
use cime.SimpleCompare.Match.{values, compare_files-values}

-- All that the tests compute with.
program : Unit {0}
unfolding is_space lstrip rstrip strip join has_prefix has_part before_last is_idle
    skip_comments_and_whitespace single_quotes value_of difference moves ahead report_on extra_lines
    missing_lines add compare_at compare_lines compare_data compare_files after_case after_id
    after_action taken written_at sub_case basename normalize_string_value values
program = tt

abbrev gold : List Text
gold = [] ∷ text "data1\n" ∷ text "data2 data3\n" ∷ [] ∷ text "# Comment\n" ∷ text "data7\n" ∷ []

abbrev other : List Text
other = text "data1\n" ∷ text "data2 data30\n" ∷ text "data7\n" ∷ text "data00" ∷ []

compare_doctest :
    (compare_data gold gold none false ≡ record { comments = []; cnt = 0 })
    × (compare_data gold other none false ≡ record {
      comments =
          text
            "Inequivalent lines data2 data3 != data2 data30\n  NORMALIZED: data2 data3 != data2 data30\nFound extra lines\ndata00\n";
      cnt = 1;
    })
unfolding program
compare_doctest = (refl, refl)

normalize_test :
    (normalize_string_value (some (text "ERS.f19")) (text "x = ERS.f19.G.20150513 y")
      ≡ text "x = ERS.f19.ACTION.TESTID y")
    × (normalize_string_value none (text "/projects/inputdata/a.nc") ≡ text "a.nc")
    × (normalize_string_value none (text "cpl.log.150514") ≡ text "cpl.log")
    × (normalize_string_value none (text "username me") ≡ [])
unfolding program
normalize_test = (refl, refl, refl, refl)

-- Lines that are missing are not all named: the slice ends at index 1.
missing_test :
    compare_data (text "a" ∷ text "b" ∷ []) (text "a" ∷ []) none false
    ≡ record { comments = text "Missing lines\n\n"; cnt = 0 }
unfolding program
missing_test = refl

compare_files-values_example :
    (comments : Text) × (compare_files (some gold) (some other) (some (text "ERS.f19"))
      ≡ ok (values (some (text "ERS.f19")) gold == values (some (text "ERS.f19")) other, comments))
compare_files-values_example = compare_files-values gold other (some (text "ERS.f19"))
