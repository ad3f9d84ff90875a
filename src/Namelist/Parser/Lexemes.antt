-- ===== src/Namelist/Parser/Lexemes.antt =====
-- scripts/lib/CIME/namelist.py: the methods of _NamelistParser that read names and literals.
use cime.Common.{
  ℕ, zero, suc, Text, text, Bool, false, ◌&&◌, ◌||◌, not, Option, none, some, [], ◌∷◌,
  if◌then◌else◌, ltb, ◌==◌, nat_eq, is_nil, contains, length,
}
use cime.Namelist.Literals.{is_blank, is_valid_fortran_namelist_literal, complex, character}
use cime.Namelist.Names.{is_valid_fortran_name}
use cime.Namelist.Parser.Cursor.{
  parse_error, failed_expect, Parser, ◌>>=◌, ◌>>◌, return, raise, when◌then◌else◌, out_of_fuel,
  here, slice, slice_with, fuelled, curr, advance, advance_until, next, expect_char,
}

-- re.sub(a + '.+$', "", name): from the first `a` that has something behind it.
unfoldable pub cut_at : ℕ → Text → Text
cut_at a [] = []
cut_at a (c ∷ s) = let rest = cut_at a s in if c == a && not (is_nil s) then [] else c ∷ rest

-- The tests of a variable name.
unfoldable pub check_name : Text → Parser Text
unfolding cut_at is_valid_fortran_name
check_name text = do
  when (contains text b'(')
      then (when (contains text b')') then return tt else raise failed_expect)
      else when (contains text b')')
      then raise failed_expect
      else return tt
  let text_check =
      if contains text b'%'
      then cut_at b'%' text
      else if contains text b'@'
      then cut_at b'@' text
      else text
  when is_valid_fortran_name text_check then return text else raise parse_error

abbrev ends_name : Bool → ℕ → Bool
ends_name allow_equals a = is_blank a || allow_equals && (a == b'=' || a == b'+')

unfoldable pub parse_variable_name : Bool → Parser Text
unfolding advance_until check_name
parse_variable_name allow_equals = do
  old ← here
  fuelled (advance_until (ends_name allow_equals))
  new ← here
  check_name (slice old new)

unfoldable pub parse_namelist_group_name : Parser Text
unfolding expect_char advance parse_variable_name
parse_namelist_group_name = do expect_char (b'&' ∷ []); advance 1 false; parse_variable_name false

-- The loop over the parts between doubled delimiters.
unfoldable pub quoted_parts : ℕ → ℕ → Parser (Unit {0})
unfolding advance_until next advance
quoted_parts delimiter zero = out_of_fuel
quoted_parts delimiter (suc fuel) = do
  fuelled (advance_until (λ a. a == delimiter))
  c ← here
  when length c.rest == 1
      then return tt
      else next >>= (λ a.
        when a == delimiter then advance 2 false >> quoted_parts delimiter fuel else return tt)

unfoldable pub parse_character_literal : Parser Text
unfolding curr advance quoted_parts is_valid_fortran_namelist_literal
parse_character_literal = do
  delimiter ← curr
  old ← here
  advance 1 false
  fuelled (quoted_parts delimiter)
  new ← here
  when (is_valid_fortran_namelist_literal character (slice_with old new))
      then return (slice_with old new)
      else raise parse_error

unfoldable pub parse_complex_literal : Parser Text
unfolding advance_until is_valid_fortran_namelist_literal
parse_complex_literal = do
  old ← here
  fuelled (advance_until (λ a. a == b')'))
  new ← here
  when (is_valid_fortran_namelist_literal complex (slice_with old new))
      then return (slice_with old new)
      else raise parse_error

-- From the text behind a position.
unfoldable pub look_ahead_for_equals : Text → Bool
look_ahead_for_equals [] = false
look_ahead_for_equals (a ∷ s) =
    let later = look_ahead_for_equals s in if is_blank a then later else a == b'='

unfoldable pub look_ahead_for_plusequals : Text → Bool
unfolding look_ahead_for_equals
look_ahead_for_plusequals [] = false
look_ahead_for_plusequals (a ∷ s) =
    let later = look_ahead_for_plusequals s in
    if is_blank a then later else a == b'+' && look_ahead_for_equals s

abbrev pub map_suc : Option ℕ → Option ℕ
map_suc none = none
map_suc (some n) = some (suc n)

-- The character is among the separators, `commas` of which are commas.
abbrev pub stops : Bool → ℕ → ℕ → Bool
stops allow_name commas a =
    is_blank a || a == b'/' || ltb 0 commas && a == b',' || allow_name && (a == b'=' || a == b'+')

-- separators.remove(','): none for the ValueError
abbrev pub remove_comma : ℕ → Option ℕ
remove_comma zero = none
remove_comma (suc fewer) = some fewer

-- The separators behind a character that is none of them.
abbrev pub commas_after : ℕ → ℕ → Option ℕ
commas_after commas a =
    if a == b'(' then remove_comma commas else some (if a == b')' then suc commas else commas)

-- new_pos - self._pos at the end of the scan of a literal that has no delimiters, none for the
-- ValueError.
unfoldable pub scan_literal : Bool → ℕ → Text → Option ℕ
scan_literal allow_name commas [] = some 0
scan_literal allow_name commas (a ∷ s) =
    if stops allow_name commas a then some 0 else elim (commas_after commas a) [
      | none ↦ none
      | some rest ↦ map_suc (scan_literal allow_name rest s)
    ]
