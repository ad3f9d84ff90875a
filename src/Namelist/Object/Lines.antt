-- ===== src/Namelist/Object/Lines.antt =====
-- scripts/lib/CIME/namelist.py: how long the lines are that `_write` writes for a variable.
use cime.Common.{
  ℕ, ◌+◌, ◌≤◌, Text, text, true, List, [], ◌∷◌, ◌++◌, length, length-append, leb, ◌≡◌, arith,
  Bool-cases, inl, inr,
}
use cime.Common.Lists.{All}
use cime.Namelist.Object.Write.{written, wrap_values}

-- A value and its separator fit in a line of their own.
abbrev pub IsShort : Text → Type 0
IsShort v = length (written v) ≤ 73

leb_le : {a b : ℕ} → leb a b ≡ true → a ≤ b
leb_le at_most = ground (arith, at_most)

-- When the first line has at most 79 characters and each value has at most 73 as it is written, no
-- line has more than 81 characters, its comma and its line end included.
pub wrap_values-length :
    (line : Text) (values : List Text)
    → length line ≤ 79
    → All IsShort values
    → All (λ l. length l ≤ 81) (wrap_values line values)
unfolding wrap_values
wrap_values-length line [] short all_short =
    (omega (arith, length-append line (text "\n"), short), tt)
wrap_values-length line (v ∷ values) short all_short =
    elim (Bool-cases (leb (length line + length (written v)) 77)) [
      | inl on ↦ rw on (
          wrap_values-length (line ++ (text ", " ++ written v)) values
            (omega (arith, length-append line (text ", " ++ written v), leb_le on)) all_short.1)
      | inr off ↦ rw off (
        omega (arith, length-append line (text ",\n"), short),
        wrap_values-length (text "      " ++ written v) values (omega (arith, all_short.0))
            all_short.1,
      )
    ]
