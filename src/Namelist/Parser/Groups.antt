-- ===== src/Namelist/Parser/Groups.antt =====
-- scripts/lib/CIME/namelist.py: the methods of _NamelistParser that read groups and files, and `parse`.
use cime.Common.{
  ℕ, zero, suc, Text, text, Bool, true, false, ◌&&◌, not, Option, none, some, List, [], ◌∷◌, ◌++◌,
  if◌then◌else◌, ◌==◌, nat_eq, list_eq, is_nil, Result, ok, err,
}
use cime.Common.Dict.{Dict, lookup, insert, member}
use cime.Namelist.Literals.{merge_literal_lists}
use cime.Namelist.Parser.Cursor.{
  Exception, parse_error, failed_expect, name_error, value_error, index_error, Outcome, returned,
  eof, raised, stuck, Cursor, Parser, ◌>>=◌, ◌>>◌, return, raise, when◌then◌else◌, out_of_fuel,
  except_eof, here, fuelled, curr, advance, eat_whitespace,
}
use cime.Namelist.Parser.Lexemes.{parse_namelist_group_name}
use cime.Namelist.Parser.Values.{NameAndValues, parse_name_and_values}

abbrev pub Variables : Type 0
Variables = Dict Text (List Text)

-- self._settings: `groups` of a parser with groups, `flat` of one without them.
pub record Settings : Type 0 where
  pub groups : Dict Text Variables
  pub flat : Variables

unfoldable pub no_settings : Settings
no_settings = record { groups = []; flat = [] }

abbrev pub values_of : Text → Variables → List Text
values_of name group = elim (lookup name group) [ none ↦ [] | some values ↦ values ]

-- An assignment in a group.
unfoldable pub assign : NameAndValues → Variables → Variables
unfolding lookup insert merge_literal_lists
assign a group =
    let dsettings = values_of a.name group in
    insert a.name
      (if a.addto then dsettings ++ a.values else merge_literal_lists dsettings a.values) group

-- An assignment in a file without groups: the first values of a name are kept as they are.
unfoldable pub assign_groupless : NameAndValues → Variables → Variables
unfolding assign lookup insert
assign_groupless a flat = elim (lookup a.name flat) [
  | none ↦ insert a.name a.values flat
  | some _ ↦ assign a flat
]

-- The loop over the variables of a group.
unfoldable pub parse_variables : ℕ → Variables → Parser Variables
unfolding curr parse_name_and_values assign
parse_variables zero group = out_of_fuel
parse_variables (suc fuel) group = do
  c ← curr
  when c == b'/'
      then return group
      else parse_name_and_values false >>= (λ a. parse_variables fuel (assign a group))

-- The group is a new one, unless there are no groups.
unfoldable pub open_group : Bool → Text → Settings → Parser Variables
unfolding lookup
open_group groupless group_name settings =
    when groupless
    then return settings.flat
    else when member group_name settings.groups
    then raise parse_error
    else return []

unfoldable pub close_group : Bool → Text → Variables → Settings → Settings
unfolding insert
close_group groupless group_name group settings =
    if groupless
    then record settings { flat = group }
    else record settings { groups = insert group_name group settings.groups }

unfoldable pub parse_namelist_group : Bool → Settings → Parser Settings
unfolding parse_namelist_group_name open_group eat_whitespace parse_variables close_group
parse_namelist_group groupless settings = do
  group_name ← parse_namelist_group_name
  group ← open_group groupless group_name settings
  eat_whitespace false
  variables ← fuelled (λ n. parse_variables n group)
  return (close_group groupless group_name variables settings)

-- while self._pos < self._len, in a file without groups
unfoldable pub parse_groupless : ℕ → Variables → Parser Variables
unfolding parse_name_and_values assign_groupless
parse_groupless zero flat = out_of_fuel
parse_groupless (suc fuel) flat = do
  c ← here
  when is_nil c.rest
      then return flat
      else parse_name_and_values true >>= (λ a. parse_groupless fuel (assign_groupless a flat))

-- To the next group: false at the end of the file.
unfoldable pub next_group : Parser Bool
unfolding advance eat_whitespace
next_group = except_eof (advance 1 false >> (eat_whitespace true >> return true)) (return false)

unfoldable pub parse_groups : Bool → ℕ → Settings → Parser Settings
unfolding parse_namelist_group next_group
parse_groups groupless zero settings = out_of_fuel
parse_groups groupless (suc fuel) settings = do
  read ← parse_namelist_group groupless settings
  more ← next_group
  when more then parse_groups groupless fuel read else return read

-- Past the first whitespace and comments: false if that is all there is.
unfoldable pub first_group : Parser Bool
unfolding eat_whitespace
first_group = except_eof (eat_whitespace true >> return true) (return false)

-- What follows the first whitespace.
unfoldable pub parse_body : Bool → Parser Settings
unfolding curr parse_groupless parse_groups no_settings
parse_body groupless = do
  c ← curr
  when (groupless && not (c == b'&'))
      then fuelled (λ n. parse_groupless n [])
        >>= (λ flat. return (record no_settings { flat = flat }))
      else fuelled (λ n. parse_groups groupless n no_settings)

unfoldable pub parse_namelist : Bool → Parser Settings
unfolding no_settings first_group parse_body
parse_namelist groupless = do
  c ← here
  when is_nil c.rest
      then return no_settings
      else first_group >>= (λ more. when more then parse_body groupless else return no_settings)

-- _NamelistParser(text)
unfoldable pub parser_of : Text → Cursor
parser_of text = record { line = 1; col = 0; rest = text }

-- text.replace('\t', ' ')
unfoldable pub tabs_to_spaces : Text → Text
tabs_to_spaces [] = []
tabs_to_spaces (c ∷ s) = (if c == b'\t' then b' ' else c) ∷ tabs_to_spaces s

-- What `parse` raises: the CIMEError of an unexpected end or a parse error, or another exception
-- as it is. `stuck` is none.
unfoldable pub outcome_of : Outcome Settings → Option (Result Exception Settings)
outcome_of (returned settings) = some (ok settings)
outcome_of eof = some (err failed_expect)
outcome_of (raised parse_error) = some (err failed_expect)
outcome_of (raised failed_expect) = some (err failed_expect)
outcome_of (raised (name_error e)) = some (err (name_error e))
outcome_of (raised value_error) = some (err value_error)
outcome_of (raised index_error) = some (err index_error)
outcome_of stuck = none

-- parse(text=text, groupless=groupless), without the files
unfoldable pub parse : Text → Bool → Bool → Option (Result Exception Settings)
unfolding parse_namelist parser_of tabs_to_spaces outcome_of
parse text groupless convert_tab_to_space =
    outcome_of
      (parse_namelist groupless
        (parser_of (if convert_tab_to_space then tabs_to_spaces text else text))).0
