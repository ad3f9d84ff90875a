-- ===== src/Namelist/Literals.antt =====
-- scripts/lib/CIME/namelist.py: literals of Fortran namelists, as ASCII texts.
pub mod RoundTrip
pub mod Merge
pub mod Types
use cime.Common.{
  ℕ, zero, suc, ◌+◌, ◌-◌, ◌*◌, Text, text, Bool, true, false, ◌&&◌, ◌||◌, not, Option, none, some,
  List, [], ◌∷◌, ◌++◌, if◌then◌else◌, leb, ◌==◌, nat_eq, is_nil, contains,
}
use mathlib.Core.Option
use cime.Namelist.Regex.{Regex, blank, one, seq, alt, star, opt, plus, matches}

abbrev pub is_digit : ℕ → Bool
is_digit c = leb b'0' c && leb c b'9'

abbrev pub is_blank : ℕ → Bool
is_blank c = c == b' ' || c == b'\n'

-- re.IGNORECASE: the letter, which is a small one, or its capital
abbrev pub letter : ℕ → Regex
letter small = one (λ c. c == small || c + 32 == small)

abbrev pub char : ℕ → Regex
char a = one (λ c. c == a)

abbrev pub char_but : ℕ → Regex
char_but a = one (λ c. not (c == a))

-- _int_re_string
abbrev pub int_re : Regex
int_re = seq (opt (one (λ c. c == b'+' || c == b'-'))) (plus (one is_digit))

-- _ieee_exceptional_re_string
abbrev ieee_exceptional_re : Regex
ieee_exceptional_re =
    alt
      (seq (letter b'i') (
        seq (letter b'n') (
          seq (letter b'f') (
            opt (
              seq (letter b'i')
                (seq (letter b'n') (seq (letter b'i') (seq (letter b't') (letter b'y')))))))))
      (seq (letter b'n') (
        seq (letter b'a')
          (seq (letter b'n') (opt (seq (char b'(') (seq (plus (char_but b')')) (char b')')))))))

-- _float_re_string
abbrev pub float_re : Regex
float_re =
    alt
      (seq (opt (one (λ c. c == b'+' || c == b'-'))) (
        seq
          (alt (seq (plus (one is_digit)) (opt (seq (char b'.') (star (one is_digit)))))
            (seq (char b'.') (plus (one is_digit))))
          (opt (seq (opt (alt (letter b'e') (letter b'd'))) int_re))))
      ieee_exceptional_re

abbrev complex_re : Regex
complex_re =
    let blanks = star (one is_blank) in
    seq (char b'(') (
      seq blanks (
        seq float_re
          (seq blanks (seq (char b',') (seq blanks (seq float_re (seq blanks (char b')'))))))))

-- _char_single_re_string and _char_double_re_string
abbrev pub quoted_re : ℕ → Regex
quoted_re quote =
    let inner = star (char_but quote) in
    seq (char quote)
      (seq inner (seq (star (seq (char quote) (seq (char quote) inner))) (char quote)))

abbrev pub character_re : Regex
character_re = alt (quoted_re b'\'') (quoted_re b'"')

abbrev logical_re : Regex
logical_re = seq (opt (char b'.')) (
    seq (alt (letter b't') (letter b'f'))
      (star (one (λ c. not (c == b'=' || c == b'/' || is_blank c)))))

pub data LiteralType : Type 0 where
  integer real complex character logical : LiteralType

-- FORTRAN_LITERAL_REGEXES
abbrev pub literal_regex : LiteralType → Regex
literal_regex integer = int_re
literal_regex real = float_re
literal_regex complex = complex_re
literal_regex character = character_re
literal_regex logical = logical_re

-- The digits at the start, and what follows them.
unfoldable pub digits_of : Text → Text
digits_of [] = []
digits_of (c ∷ s) = let rest = digits_of s in if is_digit c then c ∷ rest else []

unfoldable pub after_digits : Text → Text
after_digits [] = []
after_digits (c ∷ s) = let rest = after_digits s in if is_digit c then rest else c ∷ s

-- A digit from 1 to 9 is among them.
unfoldable pub has_nonzero : Text → Bool
has_nonzero [] = false
has_nonzero (c ∷ s) = not (c == b'0') || has_nonzero s

unfoldable pub starts_with : ℕ → Text → Bool
starts_with a [] = false
starts_with a (c ∷ s) = c == a

-- FORTRAN_REPEAT_PREFIX_REGEX.search(string)
unfoldable pub has_repeat : Text → Bool
unfolding digits_of after_digits has_nonzero starts_with
has_repeat s = has_nonzero (digits_of s) && starts_with b'*' (after_digits s)

-- string[string.find(a) + 1:], with the character in the string
unfoldable pub after_first : ℕ → Text → Text
after_first a [] = []
after_first a (c ∷ s) = let rest = after_first a s in if c == a then s else rest

-- The part before the last occurrence of the character.
unfoldable pub before_last : ℕ → Text → Text
before_last a [] = []
before_last a (c ∷ s) = let rest = before_last a s in if contains s a then c ∷ rest else []

-- string.strip(" \n")
unfoldable pub lstrip_blanks : Text → Text
lstrip_blanks [] = []
lstrip_blanks (c ∷ s) = let rest = lstrip_blanks s in if is_blank c then rest else c ∷ s

unfoldable pub rstrip_blanks : Text → Text
rstrip_blanks [] = []
rstrip_blanks (c ∷ s) =
    let rest = rstrip_blanks s in if is_nil rest && is_blank c then [] else c ∷ rest

unfoldable pub strip_blanks : Text → Text
unfolding lstrip_blanks rstrip_blanks
strip_blanks s = rstrip_blanks (lstrip_blanks s)

unfoldable pub fortran_namelist_base_value : Text → Text
unfolding strip_blanks has_repeat after_first
fortran_namelist_base_value string =
    let stripped = strip_blanks string in
    if has_repeat stripped then after_first b'*' stripped else stripped

unfoldable pub is_valid_fortran_namelist_literal : LiteralType → Text → Bool
is_valid_fortran_namelist_literal type_ string =
    let base = fortran_namelist_base_value string in
    is_nil base || matches (literal_regex type_) base

-- The last quote or apostrophe.
unfoldable pub delimiter_of : Text → Option ℕ
delimiter_of [] = none
delimiter_of (c ∷ s) = elim (delimiter_of s) [
  | none ↦ if c == b'\'' || c == b'"' then some c else none
  | some d ↦ some d
]

-- literal.replace(delimiter * 2, delimiter)
unfoldable pub undouble : ℕ → Text → Text
undouble d [] = []
undouble d (c ∷ []) = c ∷ []
undouble d (c ∷ e ∷ s) =
    let pair = d ∷ undouble d s in
    let single = c ∷ undouble d (e ∷ s) in if c == d && e == d then pair else single

-- none is the TypeError of a literal without a delimiter.
unfoldable pub character_literal_to_string : Text → Option Text
unfolding delimiter_of undouble after_first before_last
character_literal_to_string literal =
    Option.map (λ d. undouble d (before_last d (after_first d literal))) (delimiter_of literal)

-- string.replace('"', '""')
unfoldable pub double_quotes : Text → Text
double_quotes [] = []
double_quotes (c ∷ s) =
    let rest = double_quotes s in if c == b'"' then b'"' ∷ b'"' ∷ rest else c ∷ rest

unfoldable pub string_to_character_literal : Text → Text
unfolding double_quotes
string_to_character_literal string = b'"' ∷ (double_quotes string ++ b'"' ∷ [])

-- int(num), of digits
unfoldable pub number_from : ℕ → Text → ℕ
number_from n [] = n
number_from n (c ∷ s) = number_from (n * 10 + (c - b'0')) s

unfoldable pub copies : ℕ → Text → List Text
copies zero value = []
copies (suc n) value = value ∷ copies n value

unfoldable pub expand_literal : Text → List Text
unfolding copies has_repeat number_from after_first
expand_literal literal =
    if has_repeat literal
    then copies (number_from 0 (digits_of literal)) (after_first b'*' literal)
    else literal ∷ []

unfoldable pub expand_literal_list : List Text → List Text
expand_literal_list [] = []
expand_literal_list (literal ∷ literals) = expand_literal literal ++ expand_literal_list literals

-- `do_compression` is off, and the literals are texts.
unfoldable pub compress_literal_list : List Text → List Text
compress_literal_list literals = literals

-- The loop over the pairs, and what is left of the longer list.
unfoldable pub merge_elements : List Text → List Text → List Text
merge_elements [] overwrite = overwrite
merge_elements (d ∷ default) [] = d ∷ default
merge_elements (d ∷ default) (e ∷ overwrite) =
    (if is_nil e then d else e) ∷ merge_elements default overwrite

unfoldable pub merge_literal_lists : List Text → List Text → List Text
unfolding compress_literal_list
merge_literal_lists default overwrite =
    compress_literal_list
      (merge_elements (expand_literal_list default) (expand_literal_list overwrite))
