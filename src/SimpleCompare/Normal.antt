-- ===== src/SimpleCompare/Normal.antt =====
-- scripts/lib/CIME/simple_compare.py: _normalize_string_value. A case's name is used as a regular
-- expression there; the only special character that it has is a full stop.
use cime.Common.{
  ℕ, zero, suc, ◌-◌, Text, text, ◌&&◌, ◌||◌, not, Option, none, some, [], ◌∷◌, ◌++◌, if◌then◌else◌,
  ◌==◌, nat_eq, contains, length,
}
use cime.Common.Parts.{has_part}
use cime.Common.Words.{is_space}
use cime.Namelist.Literals.{before_last}

-- What follows a part that matches the case's name.
unfoldable pub after_case : Text → Text → Option Text
after_case [] s = some s
after_case (p ∷ case) [] = none
after_case (p ∷ case) (c ∷ s) =
    let rest = after_case case s in if p == c || p == b'.' && not (c == b'\n') then rest else none

-- [^./\s]*
unfoldable pub after_id : Text → Text
unfolding is_space
after_id [] = []
after_id (c ∷ s) =
    let rest = after_id s in if c == b'.' || c == b'/' || is_space c then c ∷ s else rest

-- [.]([GC])[.]([^./\s]+)
unfoldable pub after_action : Text → Option Text
unfolding after_id
after_action (a ∷ b ∷ c ∷ s) =
    if a == b'.'
      && ((b == b'G' || b == b'C') && (c == b'.' && not (length (after_id s) == length s)))
    then some (after_id s)
    else none
after_action _ = none

-- The text that the pattern takes from the start, by its length: `action` is the part behind the case.
unfoldable pub taken : (Text → Option Text) → Text → Text → Option ℕ
unfolding after_case
taken action case s = elim (after_case case s) [
  | none ↦ none
  | some rest ↦ elim (action rest) [ none ↦ none | some end ↦ some (length s - length end) ]
]

-- What is written at a position, and how many of the characters behind it are passed over.
unfoldable pub written_at : (Text → Option Text) → Text → ℕ → Text → Text × ℕ
unfolding taken
written_at action case c s = elim (taken action case (c ∷ s)) [
  | none ↦ (c ∷ [], 0)
  | some n ↦ (case ++ text ".ACTION.TESTID", n - 1)
]

-- case_re.sub(case + ".ACTION.TESTID", value)
unfoldable pub sub_case : (Text → Option Text) → Text → ℕ → Text → Text
unfolding written_at
sub_case action case skip [] = []
sub_case action case (suc skip) (c ∷ s) = sub_case action case skip s
sub_case action case zero (c ∷ s) =
    let w = written_at action case c s in w.0 ++ sub_case action case w.1 s

-- os.path.basename(path)
unfoldable pub basename : Text → Text
basename [] = []
basename (c ∷ s) = let rest = basename s in if contains (c ∷ s) b'/' then rest else c ∷ s

unfoldable pub normalize_string_value : Option Text → Text → Text
unfolding sub_case after_action basename has_part before_last
normalize_string_value case value =
    let replaced = elim case as (λ _. Text) [
      | none ↦ value
      | some c ↦ sub_case after_action c 0 value
    ] in
    if contains replaced b'/'
    then basename replaced
    else if has_part (text "username") replaced
    then []
    else if has_part (text ".log.") replaced
    then basename (before_last b'.' replaced)
    else replaced
