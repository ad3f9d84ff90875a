-- ===== src/Namelist/Parser/Scan.antt =====
-- scripts/lib/CIME/namelist.py: when the scan of a literal without delimiters ends, and its ValueError.
use cime.Common.{
  ℕ, zero, suc, ◌≤◌, Text, Bool, Option, some, [], ◌∷◌, if◌then◌else◌, ◌==◌, nat_eq, length, ◌≡◌,
  refl, arith, Bool-cases, inl, inr,
}
use cime.Namelist.Parser.Lexemes.{scan_literal, map_suc, stops, commas_after}

-- The number of opening parentheses.
unfoldable pub opens : Text → ℕ
opens [] = 0
opens (a ∷ s) = let later = opens s in if a == b'(' then suc later else later

map_suc-le :
    (scan : Option ℕ) (n : ℕ)
    → (size : ℕ) × (scan ≡ some size) × (size ≤ n)
    → (size : ℕ) × (map_suc scan ≡ some size) × (size ≤ suc n)
map_suc-le scan n (k, same, fits) = (suc k, rw same refl, omega (arith, fits))

-- What follows the character has no more opening parentheses than the separators have commas.
few_after :
    (commas a : ℕ) (s : Text)
    → opens (a ∷ s) ≤ commas
    → (rest : ℕ) × (commas_after commas a ≡ some rest) × (opens s ≤ rest)
unfolding opens
few_after zero a s few = elim (Bool-cases (a == b'(')) [
  | inl here ↦ absurd (ground (arith, here, few))
  | inr other ↦ (if a == b')' then 1 else 0, rw other refl, ground (arith, other, few))
]
few_after (suc fewer) a s few = elim (Bool-cases (a == b'(')) [
  | inl here ↦ (fewer, rw here refl, ground (arith, here, few))
  | inr other ↦
      (if a == b')' then suc (suc fewer) else suc fewer, rw other refl, ground (arith, other, few))
]

-- The scan of a literal without delimiters comes to an end within the text, and raises no ValueError,
-- when the text has no more opening parentheses than the separators have commas: one, at the start.
pub scan_literal-some :
    (allow_name : Bool) (commas : ℕ) (s : Text)
    → opens s ≤ commas
    → (size : ℕ) × (scan_literal allow_name commas s ≡ some size) × (size ≤ length s)
unfolding scan_literal
scan_literal-some allow_name commas [] few = (0, refl, omega arith)
scan_literal-some allow_name commas (a ∷ s) few = elim (Bool-cases (stops allow_name commas a)) [
  | inl on ↦ rw on (0, refl, omega arith)
  | inr off ↦
      let (rest, after, few_rest) = few_after commas a s few in
      rw (off, after)
        (map_suc-le (scan_literal allow_name rest s) (length s)
          (scan_literal-some allow_name rest s few_rest))
]
