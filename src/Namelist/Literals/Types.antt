-- ===== src/Namelist/Literals/Types.antt =====
-- scripts/lib/CIME/namelist.py: how the types of literals lie to each other.
use mathlib.Core.List.{append-nil}
use cime.Common.{Text, true, is_nil, ◌≡◌, refl, arith, Bool-cases, inl, inr}
use cime.Namelist.Regex.{Matches, m_blank, m_seq, m_left, m_right}
use cime.Namelist.Regex.Sound.{matches-Matches}
use cime.Namelist.Literals.{
  integer, real, int_re, float_re, fortran_namelist_base_value, is_valid_fortran_namelist_literal,
}

integer-real : {w : Text} → Matches int_re w → Matches float_re w
integer-real (m_seq {u} {v} sign digits same) = m_left (
    m_seq sign
      (m_seq (m_left (m_seq {w = v} digits (m_right m_blank) (append-nil v))) (m_right m_blank)
        (append-nil v))
      same)

-- A text that is a literal of type integer is a literal of type real as well.
pub is_valid_fortran_namelist_literal-real :
    (string : Text)
    → is_valid_fortran_namelist_literal integer string ≡ true
    → is_valid_fortran_namelist_literal real string ≡ true
unfolding is_valid_fortran_namelist_literal
is_valid_fortran_namelist_literal-real string valid =
    let base = fortran_namelist_base_value string in
    elim (Bool-cases (is_nil base)) [
      | inl empty ↦ rw empty refl
      | inr full ↦
          rw
            (
              full,
              (matches-Matches float_re base).1
                  (integer-real ((matches-Matches int_re base).0 (ground (arith, full, valid)))),
            )
            refl
    ]
