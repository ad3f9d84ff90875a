-- ===== src/Namelist/Parser/Values.antt =====
-- scripts/lib/CIME/namelist.py: the methods of _NamelistParser that read the values of a variable.
use cime.Common.{
  ℕ, zero, suc, ◌-◌, Text, text, Bool, true, false, ◌&&◌, ◌||◌, not, Option, none, some, List, [],
  ◌∷◌, ◌++◌, if◌then◌else◌, ◌==◌, nat_eq, is_nil, length,
}
use cime.Common.Int.{pos, ltb_ℤ, ◌*ℤ◌, ◌-ℤ◌}
use cime.Namelist.Literals.{has_repeat, is_valid_fortran_namelist_literal, integer, real, logical}
use cime.Namelist.Names.{Indices, get_fortran_variable_indices}
use cime.Namelist.Parser.Cursor.{
  parse_error, failed_expect, name_error, value_error, Cursor, Parser, ◌>>=◌, ◌>>◌, return, raise,
  when◌then◌else◌, out_of_fuel, on_option, except_eof, raise_eof, lift, here, slice, fuelled, curr,
  advance, advance_until, eat_whitespace, expect_char,
}
use cime.Namelist.Parser.Lexemes.{
  parse_variable_name, parse_character_literal, parse_complex_literal, look_ahead_for_equals,
  look_ahead_for_plusequals, scan_literal,
}
use cime.Common.Lists.{drop}

-- The repeat prefix, with whether the text ends with it.
unfoldable pub parse_prefix : Bool → Parser Bool
unfolding advance_until advance has_repeat
parse_prefix allow_eof_end = do
  c ← here
  when has_repeat c.rest
      then fuelled (advance_until (λ a. a == b'*')) >> advance 1 allow_eof_end
      else return false

-- A literal with delimiters, behind its prefix.
abbrev pub delimited : Text → Bool → Parser Text → Parser (Option Text)
delimited prefix allow_eof_end parse = do
  literal ← parse
  advance 1 allow_eof_end
  return (some (prefix ++ literal))

abbrev valid_value : Text → Bool
valid_value text =
    is_valid_fortran_namelist_literal integer text
    || is_valid_fortran_namelist_literal logical text
    || is_valid_fortran_namelist_literal real text

-- From the end of the scan: `old` is where the literal starts with its prefix.
unfoldable pub end_literal : Cursor → Bool → Bool → ℕ → Parser (Option Text)
unfolding advance look_ahead_for_equals look_ahead_for_plusequals is_valid_fortran_namelist_literal
end_literal old allow_name allow_eof_end size = do
  c ← here
  when (not allow_eof_end && is_nil (drop size c.rest))
      then advance (length c.rest) false >> return tt
      else return tt
  let ahead = drop size c.rest
  when (allow_name && (look_ahead_for_equals ahead || look_ahead_for_plusequals ahead))
      then return none
      else do
        advance size allow_eof_end
        new ← here
        when (valid_value (slice old new)) then return (some (slice old new)) else raise parse_error

unfoldable pub parse_undelimited : Cursor → Bool → Bool → Parser (Option Text)
unfolding scan_literal end_literal
parse_undelimited old allow_name allow_eof_end = do
  c ← here
  on_option (scan_literal allow_name 1 c.rest) (raise value_error)
      (end_literal old allow_name allow_eof_end)

-- Behind the prefix.
unfoldable pub parse_unprefixed : Cursor → Bool → Bool → Parser (Option Text)
unfolding curr parse_character_literal parse_complex_literal parse_undelimited has_repeat
parse_unprefixed old allow_name allow_eof_end = do
  start ← here
  a ← curr
  when a == b'"' || a == b'\''
      then delimited (slice old start) allow_eof_end parse_character_literal
      else when a == b'('
      then delimited (slice old start) allow_eof_end parse_complex_literal
      else parse_undelimited old (allow_name && not (has_repeat old.rest)) allow_eof_end

-- `none` for the None of a variable name.
unfoldable pub parse_literal : Bool → Bool → Parser (Option Text)
unfolding parse_prefix parse_unprefixed
parse_literal allow_name allow_eof_end = do
  old ← here
  when allow_eof_end && is_nil old.rest
      then return (some [])
      else parse_prefix allow_eof_end >>= (λ ended.
        when ended then return (some old.rest) else parse_unprefixed old allow_name allow_eof_end)

-- The first try block: true goes on.
unfoldable pub before_comma : Bool → Parser Bool
unfolding eat_whitespace curr
before_comma allow_eof =
    except_eof
      (do
        eat_whitespace false
        a ← curr
        when a == b'/'
            then (when allow_eof then raise parse_error else return false)
            else return true)
      (when allow_eof then return false else raise_eof)

-- The second try block.
unfoldable pub after_comma : Bool → Parser (Unit {0})
unfolding eat_whitespace curr advance
after_comma allow_eof =
    except_eof
      (do
        a ← curr
        when a == b',' then advance 1 false >> (eat_whitespace true >> return tt) else return tt)
      (when allow_eof then return tt else raise_eof)

unfoldable pub expect_separator : Bool → Parser Bool
unfolding expect_char before_comma after_comma
expect_separator allow_eof = do
  c ← here
  when allow_eof && is_nil c.rest then return false else do
    expect_char (text " \n,/")
    more ← before_comma allow_eof
    when more then after_comma allow_eof >> return true else return false

-- The loop over the values behind the first one.
unfoldable pub parse_values : Bool → ℕ → Parser (List Text)
unfolding expect_separator parse_literal
parse_values allow_eof_end zero = out_of_fuel
parse_values allow_eof_end (suc fuel) = do
  more ← expect_separator allow_eof_end
  when more
      then parse_literal true allow_eof_end >>= (λ literal.
        on_option literal (return [])
          (λ value. parse_values allow_eof_end fuel >>= (λ values. return (value ∷ values))))
      else return []

-- len(values) <= max(0, 1 + (maxindex - minindex) / step), with a value
unfoldable pub fits : ℕ → Indices → Bool
unfolding ◌*ℤ◌ ◌-ℤ◌
fits count i =
    let span = i.maxindex -ℤ i.minindex in
    let needed = pos (count - 1) *ℤ i.step in
    if ltb_ℤ (pos 0) i.step then not (ltb_ℤ span needed) else not (ltb_ℤ needed span)

unfoldable pub check_count : Text → List Text → Parser (Unit {0})
unfolding get_fortran_variable_indices fits
check_count name values = do
  i ← lift name_error (get_fortran_variable_indices name (pos 1) true)
  when ((ltb_ℤ (pos 1) i.minindex || ltb_ℤ i.minindex i.maxindex || ltb_ℤ (pos 1) i.step)
        && ltb_ℤ (pos 0) i.maxindex)
      then (when (fits (length values) i) then return tt else raise failed_expect)
      else return tt

pub record NameAndValues : Type 0 where
  pub name : Text
  pub values : List Text
  pub addto : Bool

-- self._advance(); self._eat_whitespace(): false at the end of the file that ends the values
unfoldable pub skip_equals : Bool → Parser Bool
unfolding advance eat_whitespace
skip_equals allow_eof_end =
    except_eof (advance 1 false >> (eat_whitespace false >> return true))
      (when allow_eof_end then return false else raise_eof)

-- self._parse_literal(allow_eof_end=allow_eof_end), which does not return None
unfoldable pub first_value : Bool → Parser Text
unfolding parse_literal
first_value allow_eof_end = do
  literal ← parse_literal false allow_eof_end
  on_option literal (return []) return

-- The values behind the equals sign, and the check of their count.
unfoldable pub values_behind : Text → Bool → Parser (List Text)
unfolding skip_equals first_value parse_values check_count
values_behind name allow_eof_end = do
  more ← skip_equals allow_eof_end
  when more
      then first_value allow_eof_end >>= (λ value.
        fuelled (parse_values allow_eof_end)
        >>= (λ values. check_count name (value ∷ values) >> return (value ∷ values)))
      else return ([] ∷ [])

unfoldable pub parse_name_and_values : Bool → Parser NameAndValues
unfolding parse_variable_name eat_whitespace curr advance expect_char values_behind
parse_name_and_values allow_eof_end = do
  name ← parse_variable_name true
  eat_whitespace false
  a ← curr
  when a == b'+' then advance 1 false else return false
  expect_char (b'=' ∷ [])
  values ← values_behind name allow_eof_end
  return (record { name = name; values = values; addto = a == b'+' })
