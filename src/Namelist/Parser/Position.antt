-- ===== src/Namelist/Parser/Position.antt =====
-- scripts/lib/CIME/namelist.py: the line and the column that `_advance` keeps.
use cime.Common.{
  ℕ, ◌+◌, Text, Bool, [], ◌∷◌, if◌then◌else◌, ◌==◌, nat_eq, contains, length, ltb, ◌≡◌, refl, sym,
  ◌∙◌, arith, Bool-cases, inl, inr,
}
use cime.Common.Lists.{take}
use cime.Namelist.Parser.Cursor.{Cursor, count_lines, last_col, consume, advance}

-- The position behind a text, one character at a time.
unfoldable pub walk : ℕ × ℕ → Text → ℕ × ℕ
walk at [] = at
walk at (a ∷ s) = walk (if a == b'\n' then (at.0 + 1, 0) else (at.0, at.1 + 1)) s

-- What `_advance` computes for a consumed text.
abbrev computed : ℕ × ℕ → Text → ℕ × ℕ
computed at s =
    (at.0 + count_lines s, if ltb 0 (count_lines s) then last_col s else at.1 + length s)

contains-count_lines : (s : Text) → contains s b'\n' ≡ ltb 0 (count_lines s)
unfolding count_lines
contains-count_lines [] = refl
contains-count_lines (a ∷ s) = elim (Bool-cases (a == b'\n')) [
  | inl on ↦ rw on (ground arith)
  | inr off ↦ rw off (contains-count_lines s)
]

pair_eq : {a b c d : ℕ} → a ≡ b → c ≡ d → Path (ℕ × ℕ) (a, c) (b, d)
pair_eq p q = rw (p, q) refl

computed-walk : (at : ℕ × ℕ) (s : Text) → computed at s ≡ walk at s
unfolding count_lines last_col walk
computed-walk at [] = pair_eq (omega arith) (omega arith)
computed-walk at (a ∷ s) = elim (Bool-cases (a == b'\n')) [
  | inl on ↦
      rw (on, contains-count_lines s)
        (pair_eq (omega arith) (ground arith) ∙ computed-walk (at.0 + 1, 0) s)
  | inr off ↦
      rw (off, contains-count_lines s)
        (pair_eq refl (ground arith) ∙ computed-walk (at.0, at.1 + 1) s)
]

-- _advance goes to the line and the column that a walk over its characters, one at a time, ends at.
pub advance-walk :
    (nchars : ℕ) (check_eof : Bool) (c : Cursor)
    → walk (c.line, c.col) (take nchars c.rest)
      ≡ ((advance nchars check_eof c).1.line, (advance nchars check_eof c).1.col)
unfolding advance consume
advance-walk nchars check_eof c = sym (computed-walk (c.line, c.col) (take nchars c.rest))
