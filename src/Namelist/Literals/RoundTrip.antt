-- ===== src/Namelist/Literals/RoundTrip.antt =====
-- scripts/lib/CIME/namelist.py: a string written as a character literal is a valid literal, and reads
-- back as the string.
use mathlib.Core.List.{append_assoc}
use cime.Common.{
  ℕ, Text, ◌≡◌, refl, ap, ◌∙◌, true, false, not, some, [], ◌∷◌, ◌++◌, ◌==◌, nat_eq, is_nil,
  contains-append, arith, Bool-cases, inl, inr,
}
use cime.Namelist.Regex.{Regex, seq, star, matches, Matches, m_one, m_seq, m_right, m_stop, m_more}
use cime.Namelist.Regex.Complete.{matches_complete}
use cime.Namelist.Literals.{
  char, char_but, character_re, character, delimiter_of, after_first, before_last, undouble,
  double_quotes, character_literal_to_string, string_to_character_literal, rstrip_blanks,
  strip_blanks, is_blank, fortran_namelist_base_value, is_valid_fortran_namelist_literal,
}

delimiter_of-snoc : (s : Text) → delimiter_of (s ++ b'"' ∷ []) ≡ some b'"'
unfolding delimiter_of
delimiter_of-snoc [] = refl
delimiter_of-snoc (c ∷ s) = ground (arith, delimiter_of-snoc s)

before_last-snoc : (d : ℕ) (s : Text) → before_last d (s ++ d ∷ []) ≡ s
unfolding before_last
before_last-snoc d [] = refl
before_last-snoc d (c ∷ s) = ground (arith, before_last-snoc d s, contains-append s (d ∷ []) d)

undouble-single : (d c : ℕ) (s : Text) → (c == d) ≡ false → undouble d (c ∷ s) ≡ c ∷ undouble d s
unfolding undouble
undouble-single d c [] h = refl
undouble-single d c (e ∷ s) h = ground arith

undouble-pair : (s : Text) → undouble b'"' (b'"' ∷ b'"' ∷ s) ≡ b'"' ∷ undouble b'"' s
unfolding undouble
undouble-pair s = refl

undouble-double_quotes : (s : Text) → undouble b'"' (double_quotes s) ≡ s
unfolding double_quotes
undouble-double_quotes [] = unfold undouble in refl
undouble-double_quotes (c ∷ s) = elim (Bool-cases (c == b'"')) [
  | inl quote ↦ rw quote (ground (arith, undouble-pair (double_quotes s), undouble-double_quotes s))
  | inr other ↦
      rw other (
        undouble-single b'"' c (double_quotes s) other ∙ ap (λ t. c ∷ t) (undouble-double_quotes s))
]

after_first_quote : (s : Text) → after_first b'"' (b'"' ∷ s) ≡ s
unfolding after_first
after_first_quote s = refl

reads_back : (s : Text) → character_literal_to_string (string_to_character_literal s) ≡ some s
unfolding character_literal_to_string string_to_character_literal
reads_back s =
    rw
      (
        delimiter_of-snoc (b'"' ∷ double_quotes s),
        after_first_quote (double_quotes s ++ b'"' ∷ []),
        before_last-snoc b'"' (double_quotes s),
        undouble-double_quotes s,
      )
      refl

-- The tail of a literal behind its first quote.
abbrev body_re : Regex
body_re =
    let inner = star (char_but b'"') in
    seq inner (seq (star (seq (char b'"') (seq (char b'"') inner))) (char b'"'))

quote-Matches : Matches (char b'"') (b'"' ∷ [])
quote-Matches = m_one b'"' refl

plain_body : (c : ℕ) {w : Text} → (c == b'"') ≡ false → Matches body_re w → Matches body_re (c ∷ w)
plain_body c other (m_seq m n j) =
    m_seq (m_more {v = _} (m_one c (ap not other)) m refl) n (ap (λ t. c ∷ t) j)

quoted_body : {w : Text} → Matches body_re w → Matches body_re (b'"' ∷ b'"' ∷ w)
quoted_body (m_seq {u} m (m_seq {u = v} {v = z} m' n' j') j) =
    let pair = m_seq quote-Matches (m_seq quote-Matches m refl) refl in
    m_seq m_stop (m_seq (m_more pair m' refl) n' refl) (ground (arith, append_assoc u v z, j', j))

body-Matches : (s : Text) → Matches body_re (double_quotes s ++ b'"' ∷ [])
unfolding double_quotes
body-Matches [] = m_seq m_stop (m_seq m_stop quote-Matches refl) refl
body-Matches (c ∷ s) = elim (Bool-cases (c == b'"')) [
  | inl quote ↦ rw quote (quoted_body (body-Matches s))
  | inr other ↦ rw other (plain_body c other (body-Matches s))
]

not_empty : (s : Text) (c : ℕ) → is_nil (s ++ c ∷ []) ≡ false
not_empty [] c = refl
not_empty (d ∷ s) c = refl

rstrip_blanks-snoc :
    (s : Text) (c : ℕ) → is_blank c ≡ false → rstrip_blanks (s ++ c ∷ []) ≡ s ++ c ∷ []
unfolding rstrip_blanks
rstrip_blanks-snoc [] c solid = ground arith
rstrip_blanks-snoc (d ∷ s) c solid = ground (arith, rstrip_blanks-snoc s c solid, not_empty s c)

quoted_base :
    (s : Text) → fortran_namelist_base_value (b'"' ∷ (s ++ b'"' ∷ [])) ≡ b'"' ∷ (s ++ b'"' ∷ [])
unfolding fortran_namelist_base_value
quoted_base s =
    let whole = rstrip_blanks-snoc (b'"' ∷ s) b'"' refl in
    let same : strip_blanks (b'"' ∷ (s ++ b'"' ∷ [])) ≡ b'"' ∷ (s ++ b'"' ∷ []) =
      unfold strip_blanks in whole in
    rw same refl

matches_quoted : (s : Text) → matches character_re (b'"' ∷ (double_quotes s ++ b'"' ∷ [])) ≡ true
matches_quoted s =
    matches_complete character_re (b'"' ∷ (double_quotes s ++ b'"' ∷ []))
      (m_right (m_seq quote-Matches (body-Matches s) refl))

valid_literal :
    (s : Text) → is_valid_fortran_namelist_literal character (string_to_character_literal s) ≡ true
unfolding is_valid_fortran_namelist_literal string_to_character_literal
valid_literal s = rw (quoted_base (double_quotes s)) (matches_quoted s)

-- A string of any characters, written by `string_to_character_literal`, is a valid character literal
-- and is read back by `character_literal_to_string`.
pub character_literal-string :
    (s : Text)
    → (is_valid_fortran_namelist_literal character (string_to_character_literal s) ≡ true)
      × (character_literal_to_string (string_to_character_literal s) ≡ some s)
character_literal-string s = (valid_literal s, reads_back s)
