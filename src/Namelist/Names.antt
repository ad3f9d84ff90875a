-- ===== src/Namelist/Names.antt =====
-- scripts/lib/CIME/namelist.py: the names of Fortran variables, with an optional index expression.
use cime.Common.{
  ℕ, Text, Bool, ◌&&◌, ◌||◌, Option, none, some, [], ◌∷◌, if◌then◌else◌, Result, ok, expect, ◌>>◌,
  leb, ◌==◌, nat_eq, not, is_nil,
}
use cime.Common.Int.{ℤ, pos, negsuc, pos_part, neg_part, sub_ℕ, is_zero_ℤ}
use cime.Common.Words.{is_space}
use cime.Namelist.Regex.{Regex, one, seq, alt, star, opt, up_to, matches}
use cime.Namelist.Literals.{
  is_digit, char, int_re, digits_of, after_digits, number_from, starts_with,
}

abbrev pub is_letter : ℕ → Bool
is_letter c = leb b'a' c && leb c b'z' || leb b'A' c && leb c b'Z'

-- [a-z0-9_@], re.IGNORECASE
abbrev pub is_name_char : ℕ → Bool
is_name_char c = is_letter c || is_digit c || c == b'_' || c == b'@'

-- ([+-]?\d+)?:([+-]?\d+)?:?([+-]?\d+)?
abbrev triplet_re : Regex
triplet_re =
    seq (opt int_re) (seq (char b':') (seq (opt int_re) (seq (opt (char b':')) (opt int_re))))

-- FORTRAN_NAME_REGEX
unfoldable pub fortran_name_regex : Regex
unfolding up_to
fortran_name_regex = seq (one is_letter) (
    seq (up_to 62 (one is_name_char))
      (seq (opt (seq (char b'(') (seq (alt int_re triplet_re) (char b')')))) (star (one is_space))))

unfoldable pub is_valid_fortran_name : Text → Bool
is_valid_fortran_name string = matches fortran_name_regex string

pub data NameError : Type 0 where
  -- AttributeError: 'NoneType' object has no attribute 'group'
  no_match : NameError
  -- "Step size 0 not allowed"
  zero_step : NameError

-- group(1): no name character can follow it in a text that matches
unfoldable pub name_part : Text → Text
name_part [] = []
name_part (c ∷ s) = let rest = name_part s in if is_name_char c then c ∷ rest else []

unfoldable pub after_name : Text → Text
after_name [] = []
after_name (c ∷ s) = let rest = after_name s in if is_name_char c then rest else c ∷ s

unfoldable pub get_fortran_name_only : Text → Result NameError Text
get_fortran_name_only full_var = do
  expect (is_valid_fortran_name full_var) no_match
  ok (name_part full_var)

-- [+-]?\d+ at the start, with its value, and what follows
unfoldable pub signed_int : Text → Option ℤ × Text
unfolding digits_of after_digits number_from
signed_int [] = (none, [])
signed_int (c ∷ s) =
    if is_digit c
    then (some (pos (number_from 0 (digits_of (c ∷ s)))), after_digits (c ∷ s))
    else if (c == b'+' || c == b'-') && not (is_nil (digits_of s))
    then (
      some (
          if c == b'+'
          then pos (number_from 0 (digits_of s))
          else sub_ℕ 0 (number_from 0 (digits_of s))),
      after_digits s,
    )
    else (none, c ∷ s)

unfoldable pub skip_char : ℕ → Text → Text
skip_char a [] = []
skip_char a (c ∷ s) = if c == a then s else c ∷ s

pub record Indices : Type 0 where
  pub minindex : ℤ
  pub maxindex : ℤ
  pub step : ℤ

unfoldable pub or_else : Option ℤ → ℤ → ℤ
or_else none z = z
or_else (some a) z = a

-- The groups 4 to 8, from the text behind the parenthesis.
unfoldable pub indices_in : ℤ → Text → Indices
unfolding signed_int skip_char or_else starts_with
indices_in varlen body =
    let (first, after_first) = signed_int body in
    let (second, after_second) = signed_int (skip_char b':' after_first) in
    let (third, rest) = signed_int (skip_char b':' after_second) in
    let low = or_else first (pos 1) in
    if starts_with b')' after_first
    then record { minindex = low; maxindex = low; step = pos 1 }
    else record { minindex = low; maxindex = or_else second varlen; step = or_else third (pos 1) }

unfoldable pub same_ℤ : ℤ → ℤ → Bool
same_ℤ a b = pos_part a == pos_part b && neg_part a == neg_part b

unfoldable pub indices_of : ℤ → Text → Indices
indices_of varlen [] = record { minindex = pos 1; maxindex = varlen; step = pos 1 }
indices_of varlen (c ∷ s) =
    if c == b'('
    then indices_in varlen s
    else record { minindex = pos 1; maxindex = varlen; step = pos 1 }

unfoldable pub any_length : Bool → Indices → Indices
unfolding same_ℤ
any_length allow_any_len i =
    if allow_any_len && same_ℤ i.maxindex i.minindex then record i { maxindex = negsuc 0 } else i

unfoldable pub get_fortran_variable_indices : Text → ℤ → Bool → Result NameError Indices
unfolding indices_of indices_in any_length after_name
get_fortran_variable_indices varname varlen allow_any_len = do
  expect (is_valid_fortran_name varname) no_match
  let i = any_length allow_any_len (indices_of varlen (after_name varname))
  expect (not (is_zero_ℤ i.step)) zero_step
  ok i
