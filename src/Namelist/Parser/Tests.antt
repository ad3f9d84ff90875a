-- ===== src/Namelist/Parser/Tests.antt =====
-- Doctests of the parser in scripts/lib/CIME/namelist.py.
use cime.Namelist.Parser.Scan.{opens, scan_literal-some}
use cime.Namelist.Parser.Position.{walk, advance-walk}
use cime.Namelist.Parser.Total.{parse-total}
use cime.Namelist.Parser.Cursor.{index_error}
use cime.Common.Lists.{take}
use cime.Common.{◌≢◌, length, arith, ◌≤◌}
use cime.Common.{
  ℕ, Text, text, ◌≡◌, refl, Bool, true, false, Option, none, some, List, [], ◌∷◌, Result, ok, err,
}
use cime.Common.Dict.{lookup, insert, member}
use cime.Common.Int.{◌-ℤ◌, ◌*ℤ◌}
use cime.Namelist.Tests.{program}
use cime.Namelist.Parser.Cursor.{
  when◌then◌else◌, on_option, Exception, parse_error, failed_expect, name_error, value_error,
  Outcome, returned, eof, raised, curr, count_lines, last_col, consume, advance, advance_until,
  next, line_length, eat_comment, eat_blanks, eat_lines, eat_whitespace, expect_char,
}
use cime.Namelist.Parser.Lexemes.{
  cut_at, check_name, parse_variable_name, parse_namelist_group_name, quoted_parts,
  parse_character_literal, parse_complex_literal, look_ahead_for_equals, look_ahead_for_plusequals,
  scan_literal,
}
use cime.Namelist.Parser.Values.{
  parse_prefix, end_literal, parse_undelimited, parse_unprefixed, parse_literal, before_comma,
  after_comma, expect_separator, parse_values, fits, check_count, skip_equals, first_value,
  values_behind, NameAndValues, parse_name_and_values,
}
use cime.Namelist.Parser.Groups.{
  Variables, Settings, no_settings, assign, assign_groupless, parse_variables, open_group,
  close_group, parse_namelist_group, parse_groupless, next_group, parse_groups, first_group,
  parse_body, parse_namelist, parser_of, tabs_to_spaces, outcome_of, parse,
}
use cime.Namelist.Names.{no_match}

-- All that the tests of the parser compute with.
unfoldable pub parser : Unit {0}
unfolding program when◌then◌else◌ on_option lookup insert member ◌-ℤ◌ ◌*ℤ◌ curr count_lines last_col
    consume advance advance_until next line_length eat_comment eat_blanks eat_lines eat_whitespace
    expect_char cut_at check_name parse_variable_name parse_namelist_group_name quoted_parts
    parse_character_literal parse_complex_literal look_ahead_for_equals look_ahead_for_plusequals
    scan_literal parse_prefix end_literal parse_undelimited parse_unprefixed parse_literal
    before_comma after_comma expect_separator parse_values fits check_count skip_equals first_value
    values_behind parse_name_and_values no_settings assign assign_groupless parse_variables
    open_group close_group parse_namelist_group parse_groupless next_group parse_groups first_group
    parse_body parse_namelist parser_of tabs_to_spaces outcome_of parse
parser = tt

abbrev literal_of : Bool → Bool → Text → Outcome (Option Text)
unfolding parser
literal_of allow_name allow_eof_end s = (parse_literal allow_name allow_eof_end (parser_of s)).0

abbrev value : Text → Outcome (Option Text)
value s = returned (some s)

literals_doctest :
    (literal_of false false (text "\"abc\" ") ≡ value (text "\"abc\""))
    × (literal_of false false (text "\"abc\"") ≡ eof)
    × (literal_of false true (text "\"abc\"") ≡ value (text "\"abc\""))
    × (literal_of false false (text "(1.,2.) ") ≡ value (text "(1.,2.)"))
    × (literal_of false false (text "nan(booga) ") ≡ value (text "nan(booga)"))
    × (literal_of false false (text "hamburger ") ≡ raised parse_error)
    × (literal_of false false (text ",") ≡ value [])
    × (literal_of false false (text "6*(1., 2.) ") ≡ value (text "6*(1., 2.)"))
    × (literal_of false false (text "6*") ≡ eof)
    × (literal_of false true (text "6*") ≡ value (text "6*"))
    × (literal_of false false (text "foo+= ") ≡ raised parse_error)
    × (literal_of true false (text "foo\n= ") ≡ returned none)
    × (literal_of true false (text "6*foo= ") ≡ raised parse_error)
    × (literal_of false true [] ≡ value [])
unfolding parser
literals_doctest =
    (refl, refl, refl, refl, refl, refl, refl, refl, refl, refl, refl, refl, refl, refl)

abbrev values_in : Bool → Text → Outcome NameAndValues
unfolding parser
values_in allow_eof_end s = (parse_name_and_values allow_eof_end (parser_of s)).0

values_doctest :
    (values_in false (text "foo(3)='bar' /")
      ≡ returned (record { name = text "foo(3)"; values = text "'bar'" ∷ []; addto = false }))
    × (values_in false (text "foo=,,'bazz',6*/")
        ≡ returned (record {
          name = text "foo";
          values = [] ∷ [] ∷ text "'bazz'" ∷ text "6*" ∷ [];
          addto = false;
        }))
    × (values_in false (text "foo='bar' 'bazz' foo2(2)='ban'")
        ≡ returned (record {
          name = text "foo";
          values = text "'bar'" ∷ text "'bazz'" ∷ [];
          addto = false;
        }))
    × (values_in true (text "foo(1:2)=1,2,3 ") ≡ raised failed_expect)
    × (values_in true (text "foo=1,")
        ≡ returned (record { name = text "foo"; values = text "1" ∷ [] ∷ []; addto = false }))
    × (values_in true (text "foo+=1")
        ≡ returned (record { name = text "foo"; values = text "1" ∷ []; addto = true }))
    × (values_in false (text "foo 'bar' /") ≡ raised parse_error)
unfolding parser
values_doctest = (refl, refl, refl, refl, refl, refl, refl)

-- A name with a `%`, which the parser of names accepts, and a second parenthesis.
errors_test :
    (values_in true (text "abc%fred=1") ≡ raised (name_error no_match))
    × (values_in true (text "foo=a((b") ≡ raised value_error)
unfolding parser
errors_test = (refl, refl)

abbrev grouped : List (Text × Variables) → Option (Result Exception Settings)
grouped groups = some (ok (record { groups = groups; flat = [] }))

abbrev groupless : Variables → Option (Result Exception Settings)
groupless flat = some (ok (record { groups = []; flat = flat }))

files_doctest :
    (parse (text " \n!Comment") false true ≡ grouped [])
    × (parse (text "! Comment \n &group /! Comment ") false true
        ≡ grouped ((text "group", []) ∷ []))
    × (parse (text "&group1\n foo='bar','bazz'\n,, foo2=2*5\n / &group2 /") false true
        ≡ grouped (
            (
              text "group1",
              (text "foo", text "'bar'" ∷ text "'bazz'" ∷ [] ∷ [])
                  ∷ (text "foo2", text "5" ∷ text "5" ∷ [])
                  ∷ [],
            )
            ∷ (text "group2", [])
            ∷ []))
    × (parse (text "&group /&group /") false true ≡ some (err failed_expect))
    × (parse (text "!blah \n foo='bar','bazz'\n,, foo2=2*5\n ") true true
        ≡ groupless (
            (text "foo", text "'bar'" ∷ text "'bazz'" ∷ [] ∷ [])
            ∷ (text "foo2", text "2*5" ∷ [])
            ∷ []))
    × (parse (text "foo='bar'\n foo+='bazz'") true true
        ≡ groupless ((text "foo", text "'bar'" ∷ text "'bazz'" ∷ []) ∷ []))
    × (parse (text "foo='bar', foo=") true true ≡ groupless ((text "foo", text "'bar'" ∷ []) ∷ []))
unfolding parser
files_doctest = (refl, refl, refl, refl, refl, refl, refl)

parse-total_example :
    (result : Result Exception Settings) × (parse (text "&a b(2)=1, 'c' /") false true
      ≡ some result)
    × (result ≢ err index_error)
parse-total_example = parse-total (text "&a b(2)=1, 'c' /") false true

advance-walk_example : walk (1, 0) (take 5 (text "abc\nd\nef")) ≡ (
  (advance 5 false (parser_of (text "abc\nd\nef"))).1.line,
  (advance 5 false (parser_of (text "abc\nd\nef"))).1.col,
)
unfolding parser
advance-walk_example = advance-walk 5 false (parser_of (text "abc\nd\nef"))

scan_literal-some_example :
    (size : ℕ) × (scan_literal true 1 (text "nan(a,b) ") ≡ some size)
    × (size ≤ length (text "nan(a,b) "))
unfolding opens
scan_literal-some_example = scan_literal-some true 1 (text "nan(a,b) ") (omega arith)
