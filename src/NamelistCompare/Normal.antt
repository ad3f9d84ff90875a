-- ===== src/NamelistCompare/Normal.antt =====
-- scripts/lib/CIME/compare_namelists.py: _normalize_string_value. A case's name is used as a regular
-- expression there; the only special character that it has is a full stop, and it has no colon.
use cime.Common.{
  ℕ, ◌-◌, Text, text, Bool, false, ◌&&◌, ◌||◌, not, Option, none, some, List, [], ◌∷◌, ◌++◌,
  if◌then◌else◌, ◌==◌, nat_eq, list_eq, is_nil, contains, length, leb,
}
use mathlib.Core.Option
use cime.Common.Lists.{take}
use cime.Common.Parts.{has_part}
use cime.Common.Words.{join}
use cime.Namelist.Literals.{after_first}
use cime.SimpleCompare.Normal.{after_id, sub_case, basename}

-- [GC]*
unfoldable pub after_letters : Text → Text
after_letters [] = []
after_letters (c ∷ s) = let rest = after_letters s in if c == b'G' || c == b'C' then rest else c ∷ s

-- [.]([^./\s]+)
unfoldable pub after_dot_id : Text → Option Text
unfolding after_id
after_dot_id [] = none
after_dot_id (c ∷ s) =
    if c == b'.' && not (length (after_id s) == length s) then some (after_id s) else none

-- [.]([GC]+)[.]([^./\s]+)
unfoldable pub after_actions : Text → Option Text
unfolding after_letters after_dot_id
after_actions [] = none
after_actions (c ∷ s) =
    if c == b'.' && not (length (after_letters s) == length s)
    then after_dot_id (after_letters s)
    else none

-- str.upper() of an ASCII text
unfoldable pub upper : Text → Text
upper [] = []
upper (c ∷ s) = (if leb b'a' c && leb c b'z' then c - 32 else c) ∷ upper s

-- text.split(a), of one character; `word` is the part that is read.
unfoldable pub split_at : ℕ → Text → Text → List Text
split_at a word [] = word ∷ []
split_at a word (c ∷ s) =
    let rest = split_at a (if c == a then [] else word ++ c ∷ []) s in
    if c == a then word ∷ rest else rest

-- The last group of (/[^/]+)*, behind its slash: `part` is the one in work.
unfoldable pub last_part_from : Option Text → Text → Text → Option Text
last_part_from last part [] = if is_nil part then last else some part
last_part_from last part (c ∷ s) =
    let rest =
      last_part_from (if c == b'/' then some part else last)
        (if c == b'/' then [] else part ++ c ∷ []) s in
    if c == b'/' && is_nil part then last else rest

unfoldable pub last_part : Text → Option Text
unfolding last_part_from
last_part [] = none
last_part (c ∷ s) = if c == b'/' then last_part_from none [] s else none

-- ^([^*]+\*) matches
unfoldable pub has_scale : Text → Bool
has_scale [] = false
has_scale (c ∷ s) = not (c == b'*') && contains s b'*'

-- A value with a slash. none is the TypeError of basename(None).
unfoldable pub normalize_path : Text → Text → Option Text
unfolding has_scale last_part after_first basename has_part
normalize_path name value =
    let path = after_first b'*' value in
    if has_scale value
    then Option.map (λ part. take (length value - length path) value ++ basename (b'/' ∷ part))
        (last_part path)
    else if not (has_part (text "mapname") name) && not (has_part (text "maptype") name)
    then some (basename value)
    else some value

unfoldable pub replace_case : Option Text → Text → Text
unfolding sub_case after_actions
replace_case none value = value
replace_case (some case) value = sub_case after_actions case 0 value

-- An item that has no colon.
unfoldable pub normalize_item : Text → Option Text → Text → Option Text
unfolding replace_case normalize_path
normalize_item name case item =
    let value = replace_case case item in
    if contains value b'/' then normalize_path name value else some value

unfoldable pub normalize_items : Text → Option Text → List Text → Option (List Text)
unfolding normalize_item
normalize_items name case [] = some []
normalize_items name case (item ∷ items) = elim (normalize_item name case item) [
  | none ↦ none
  | some value ↦ Option.map (λ values. value ∷ values) (normalize_items name case items)
]

abbrev unstable_names : List Text
unstable_names = text "runid" ∷ text "model_version" ∷ text "username" ∷ text "logfile" ∷ []

unfoldable pub normalize_string_value : Text → Text → Option Text → Option Text
unfolding upper replace_case split_at normalize_items normalize_path join
normalize_string_value name value case =
    let replaced = replace_case case value in
    if contains unstable_names name
    then some (upper name)
    else if contains replaced b':'
    then Option.map (join (text ":")) (normalize_items name case (split_at b':' [] replaced))
    else if contains replaced b'/'
    then normalize_path name replaced
    else some replaced
