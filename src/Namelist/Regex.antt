-- ===== src/Namelist/Regex.antt =====
-- Python's `re`, as far as scripts/lib/CIME/namelist.py uses it: whether a pattern with `^` and `$`
-- matches an ASCII text. A character class is a test; the matcher takes derivatives.
pub mod Complete
pub mod Sound
use cime.Common.{
  ℕ, zero, suc, Text, ◌≡◌, refl, sym, ap, Bool, true, false, ◌&&◌, ◌||◌, List, [], ◌∷◌, ◌++◌,
  if◌then◌else◌, arith, inl, inr, ◌⊎◌, Bool-cases,
}

pub data Regex : Type 0 where
  -- the pattern that matches nothing, and the one that matches the empty text
  never blank : Regex
  one : (ℕ → Bool) → Regex
  seq alt : Regex → Regex → Regex
  star : Regex → Regex

-- r?
abbrev pub opt : Regex → Regex
opt r = alt r blank

-- r+
abbrev pub plus : Regex → Regex
plus r = seq r (star r)

-- r{0,n}
unfoldable pub up_to : ℕ → Regex → Regex
up_to zero r = blank
up_to (suc n) r = opt (seq r (up_to n r))

unfoldable pub nullable : Regex → Bool
nullable never = false
nullable blank = true
nullable (one p) = false
nullable (seq r s) = nullable r && nullable s
nullable (alt r s) = nullable r || nullable s
nullable (star r) = true

-- `seq` and `alt` without the parts that matching nothing or the empty text makes idle.
unfoldable pub seq_lean : Regex → Regex → Regex
seq_lean never s = never
seq_lean blank s = s
seq_lean r s = seq r s

unfoldable pub is_never : Regex → Bool
is_never never = true
is_never r = false

unfoldable pub alt_lean : Regex → Regex → Regex
unfolding is_never
alt_lean r s = if is_never r then s else if is_never s then r else alt r s

-- What is left to match after the character.
unfoldable pub deriv : ℕ → Regex → Regex
unfolding nullable seq_lean alt_lean
deriv c never = never
deriv c blank = never
deriv c (one p) = if p c then blank else never
deriv c (seq r s) =
    let first = seq_lean (deriv c r) s in
    let both = alt_lean first (deriv c s) in if nullable r then both else first
deriv c (alt r s) = alt_lean (deriv c r) (deriv c s)
deriv c (star r) = seq_lean (deriv c r) (star r)

-- The text from its start to its end.
unfoldable pub matches : Regex → Text → Bool
unfolding nullable deriv
matches r [] = nullable r
matches r (c ∷ s) = matches (deriv c r) s

-- The texts of a pattern.
pub data Matches : Regex → Text → Type 0 where
  m_blank : Matches blank []
  m_one : {p : ℕ → Bool} (c : ℕ) → p c ≡ true → Matches (one p) (c ∷ [])
  m_seq :
      {r s : Regex} {u v w : Text} → Matches r u → Matches s v → u ++ v ≡ w → Matches (seq r s) w
  m_left : {r s : Regex} {w : Text} → Matches r w → Matches (alt r s) w
  m_right : {r s : Regex} {w : Text} → Matches s w → Matches (alt r s) w
  m_stop : {r : Regex} → Matches (star r) []
  m_more :
      {r : Regex} {u v w : Text}
      → Matches r u
      → Matches (star r) v
      → u ++ v ≡ w
      → Matches (star r) w
