-- ===== src/Namelist/Object/Write.antt =====
-- scripts/lib/CIME/namelist.py: `_write` and `_write_nuopc` of the class Namelist, as the text that they
-- write, and get_group_variables.
use cime.Common.{
  ◌+◌, Text, text, Bool, true, false, ◌&&◌, ◌||◌, Option, none, some, List, [], ◌∷◌, ◌++◌, map,
  if◌then◌else◌, Result, ok, err, ◌>>=◌, ltb, leb, ◌==◌, nat_eq, list_eq, contains, length,
}
use mathlib.Core.Option
use cime.Common.Parts.{has_part}
use cime.Common.Dict.{Dict, lookup, keys}
use cime.Namelist.Object.{Group, Groups, NamelistError, index_error, key_error}
use cime.Namelist.Parser.Lexemes.{cut_at}

-- a <= b of texts, by code points
unfoldable pub text_leb : Text → Text → Bool
text_leb [] b = true
text_leb (x ∷ a) [] = false
text_leb (x ∷ a) (y ∷ b) = ltb x y || x == y && text_leb a b

unfoldable pub insert_sorted : Text → List Text → List Text
unfolding text_leb
insert_sorted x [] = x ∷ []
insert_sorted x (y ∷ ys) =
    let later = insert_sorted x ys in if text_leb x y then x ∷ y ∷ ys else y ∷ later

-- sorted(names)
unfoldable pub sorted : List Text → List Text
unfolding insert_sorted
sorted [] = []
sorted (x ∷ xs) = insert_sorted x (sorted xs)

pub data Format : Type 0 where
  nml rc nmlcontents : Format

abbrev equals : Format → Text
equals nml = text " ="
equals rc = text ":"
equals nmlcontents = text " ="

-- A value as it is written: the Booleans of Python become those of Fortran.
unfoldable pub written : Text → Text
written value =
    if value == text "True"
    then text ".true."
    else if value == text "False"
    then text ".false."
    else value

-- The lines of the values, of which `line` is the one in work.
unfoldable pub wrap_values : Text → List Text → List Text
unfolding written
wrap_values line [] = (line ++ text "\n") ∷ []
wrap_values line (v ∷ values) =
    let value = written v in
    let fits = leb (length line + length value) 77 in
    let lines =
      wrap_values (if fits then line ++ (text ", " ++ value) else text "      " ++ value) values in
    if fits then lines else (line ++ text ",\n") ∷ lines

-- for line in lines: out_file.write(line)
unfoldable pub write_lines : List Text → Text
write_lines [] = []
write_lines (line ∷ lines) = line ++ write_lines lines

-- The lines of a variable. values[0] of an empty list is an IndexError.
unfoldable pub variable_lines : Text → Text → Text → List Text → Result NamelistError Text
unfolding cut_at wrap_values write_lines written
variable_lines indent separator name [] = err index_error
variable_lines indent separator name (first ∷ values) = ok (
    write_lines (
      wrap_values (indent ++ (cut_at b'@' name ++ (separator ++ (text " " ++ written first))))
        values))

unfoldable pub group_lines : Text → Text → Group → List Text → Result NamelistError Text
unfolding variable_lines lookup
group_lines indent separator group [] = ok []
group_lines indent separator group (name ∷ names) = do
  lines ← variable_lines indent separator name (Option.get_or (lookup name group) [])
  rest ← group_lines indent separator group names
  ok (lines ++ rest)

abbrev header : Format → Text → Text
header nml group_name = text "&" ++ (group_name ++ text "\n")
header rc group_name = []
header nmlcontents group_name = []

abbrev footer : Format → Text
footer nml = text "/\n"
footer rc = []
footer nmlcontents = text "\n"

-- The loop over the names of groups; a group that is not there is empty.
unfoldable pub write_groups : Format → Groups → List Text → Result NamelistError Text
unfolding group_lines sorted lookup
write_groups format_ groups [] = ok []
write_groups format_ groups (group_name ∷ names) = do
  let group = Option.get_or (lookup group_name groups) []
  lines ← group_lines (text "  ") (equals format_) group (sorted (keys group))
  rest ← write_groups format_ groups names
  ok (header format_ group_name ++ (lines ++ (footer format_ ++ rest)))

-- values[0] is replaced in the object as well.
unfoldable pub first_written : List Text → List Text
unfolding written
first_written [] = []
first_written (first ∷ values) = written first ∷ values

unfoldable pub groups_written : List Text → Groups → Groups
unfolding first_written
groups_written names groups =
    map (λ g. if contains names g.0 then (g.0, map (λ v. (v.0, first_written v.1)) g.1) else g)
      groups

-- `names` is the list of groups to write, none for all of them.
unfoldable pub write :
    Option (List Text) → Format → Bool → Groups → Result NamelistError (Text × Groups)
unfolding write_groups sorted groups_written
write names format_ sorted_groups groups = do
  let chosen = Option.get_or names (keys groups)
  output ← write_groups format_ groups (if sorted_groups then sorted chosen else chosen)
  ok (output, groups_written chosen groups)

-- line.replace('"', '')
unfoldable pub without_quotes : Text → Text
without_quotes [] = []
without_quotes (c ∷ s) = let rest = without_quotes s in if c == b'"' then rest else c ∷ rest

-- The text of one group of a nuopc file.
unfoldable pub nuopc_group : Text → Group → Result NamelistError Text
unfolding has_part group_lines sorted without_quotes
nuopc_group group_name group = do
  lines ←
      group_lines (if has_part (text "_attribute") group_name then text "     " else [])
        (if has_part (text "_var") group_name then text ":" else text " =") group
        (sorted (keys group))
  ok (
      (if has_part (text "_attributes") group_name then group_name ++ text "::\n" else [])
      ++ (without_quotes lines
          ++ (if has_part (text "_attribute") group_name then text "::\n\n" else [])))

-- The loop over the names of groups: the others are passed over, a missing one is a KeyError.
unfoldable pub nuopc_groups : Groups → List Text → Result NamelistError Text
unfolding nuopc_group lookup has_part
nuopc_groups groups [] = ok []
nuopc_groups groups (group_name ∷ names) = do
  lines ←
      if has_part (text "_attributes") group_name
        || has_part (text "nuopc_") group_name
        || has_part (text "_no_group") group_name
      then (elim (lookup group_name groups) [
        | none ↦ err key_error
        | some group ↦ nuopc_group group_name group
      ])
      else ok []
  rest ← nuopc_groups groups names
  ok (lines ++ rest)

unfoldable pub write_nuopc : Option (List Text) → Bool → Groups → Result NamelistError Text
unfolding nuopc_groups sorted
write_nuopc names sorted_groups groups =
    let chosen = Option.get_or names (keys groups) in
    nuopc_groups groups (if sorted_groups then sorted chosen else chosen)

-- The first value of each variable, in the order of the names.
unfoldable pub first_values : Group → List Text → Result NamelistError (Dict Text Text)
unfolding lookup
first_values group [] = ok []
first_values group (name ∷ names) = elim (Option.get_or (lookup name group) []) [
  | [] ↦ err index_error
  | value ∷ _ ↦ first_values group names >>= (λ rest. ok ((name, value) ∷ rest))
]

unfoldable pub get_group_variables : Text → Groups → Result NamelistError (Dict Text Text)
unfolding lookup first_values sorted
get_group_variables group_name groups = elim (lookup group_name groups) [
  | none ↦ err key_error
  | some group ↦ first_values group (sorted (keys group))
]
