-- ===== src/NamelistCompare.antt =====
-- scripts/lib/CIME/compare_namelists.py: the comparison of two namelists that have been read.
pub mod Normal
pub mod Agreement
pub mod Namelists
pub mod Tests
use cime.Common.{
  ℕ, zero, suc, ◌+◌, ◌-◌, ◌/◌, ◌%◌, Text, text, Bool, true, false, ◌&&◌, ◌||◌, not, Option, none,
  some, List, [], ◌∷◌, ◌++◌, if◌then◌else◌, ◌==◌, nat_eq, list_eq, is_nil, contains, length, ltb,
}
use mathlib.Core.Option
use cime.Common.Lists.{is_some}
use cime.Common.Dict.{Dict, lookup, keys, member}
use cime.NamelistCompare.Normal.{normalize_string_value}

-- A value is a string, a list or an OrderedDict.
mutual
  pub data Value : Type 0 where
    scalar : Text → Value
    items : Values → Value
    entries : Entries → Value

  pub data Values : Type 0 where
    no_values : Values
    more : Value → Values → Values

  pub data Entries : Type 0 where
    no_entries : Entries
    entry : Text → Value → Entries → Entries

unfoldable pub find : Text → Entries → Option Value
find key no_entries = none
find key (entry k v d) = let later = find key d in if k == key then some v else later

-- Two comments, after one another. none is an exception.
unfoldable pub both : Option Text → Option Text → Option Text
both none later = none
both (some a) none = none
both (some a) (some b) = some (a ++ b)

-- '{:d}'.format(n)
unfoldable pub decimal : ℕ → ℕ → Text
decimal zero n = []
decimal (suc fuel) n =
    let high = decimal fuel (n / 10) in
    if ltb n 10 then (b'0' + n) ∷ [] else high ++ (b'0' + n % 10) ∷ []

-- "  {what} variable '{name}' {verb}{rest}\n"
unfoldable pub remark : Text → Text → Text → Text
remark kind name rest =
    text "  " ++ (kind ++ (text " variable '" ++ (name ++ (text "' " ++ (rest ++ text "\n")))))

unfoldable pub missing_key : Text → Text → Text
missing_key key shown = text "missing key " ++ (key ++ (text " with value " ++ shown))

unfoldable pub extra_key : Text → Text → Text
extra_key key shown = text "has extra key " ++ (key ++ (text " with value " ++ shown))

-- The two lines on a difference of strings.
unfoldable pub difference : Text → Text → Text → Text
difference name gold comp =
    text "  BASE: "
    ++ (name
        ++ (text " = "
            ++ (gold ++ (text "\n  COMP: " ++ (name ++ (text " = " ++ (comp ++ text "\n")))))))

-- Of the two normalized strings.
unfoldable pub compare_normalized : Text → Option Text → Option Text → Option Text
unfolding difference
compare_normalized name none norm_comp = none
compare_normalized name (some norm_gold) none = none
compare_normalized name (some norm_gold) (some norm_comp) =
    some (if norm_gold == norm_comp then [] else difference name norm_gold norm_comp)

unfoldable pub compare_strings : Option Text → Text → Text → Text → Option Text
unfolding normalize_string_value compare_normalized
compare_strings case name gold comp =
    compare_normalized name (normalize_string_value name gold case)
      (normalize_string_value name comp case)

unfoldable pub item_name : Text → ℕ → Text
unfolding decimal
item_name name idx = name ++ (text " list item " ++ decimal (suc idx) idx)

unfoldable pub key_name : Text → Text → Text
key_name name key = name ++ (text " dict item " ++ key)

-- different_namelists.setdefault(namelist, []).append(comment), unless there is none
unfoldable pub append_comment : Option Text → Option (List Text) → Option (List Text)
append_comment none later = none
append_comment (some comment) none = none
append_comment (some comment) (some comments) =
    some (if is_nil comment then comments else comment ∷ comments)

unfoldable pub extra_variables : Entries → Entries → List Text
unfolding find
extra_variables gold no_entries = []
extra_variables gold (entry k v comp) =
    let later = extra_variables gold comp in
    if is_some (find k gold)
    then later
    else (text "  found extra variable: '" ++ (k ++ text "'\n")) ∷ later

unfoldable pub joined : List Text → Text
joined [] = []
joined (comment ∷ comments) = comment ++ joined comments

unfoldable pub block : Text → List Text → Text
unfolding joined
block namelist [] = []
block namelist (comment ∷ []) = comment
block namelist (a ∷ b ∷ comments) =
    text "Differences in namelist '" ++ (namelist ++ (text "':\n" ++ joined (a ∷ b ∷ comments)))

unfoldable pub extra_namelists : Dict Text Entries → Dict Text Entries → Text
unfolding lookup
extra_namelists gold [] = []
extra_namelists gold ((namelist, names) ∷ comp) =
    (if is_some (lookup namelist gold)
      then []
      else text "Found extra namelist: " ++ (namelist ++ text "\n"))
    ++ extra_namelists gold comp

-- What is said of a key, by its value in the other dictionary.
abbrev pub at_key : Text → (Value → Option Text) → Option Value → Option Text
at_key missing compare none = some missing
at_key missing compare (some c) = compare c

-- `shown` is str(value), and `kind` is str(type(value)).
module _ (shown kind : Value → Text) where
  unfoldable pub wrong_type : Text → Value → Value → Text
  wrong_type name gold comp =
      text "  variable '"
      ++ (name
          ++ (text "' did not have expected type '"
              ++ (kind gold ++ (text "', instead is type '" ++ (kind comp ++ text "'\n")))))

  unfoldable pub extra_items : Text → Values → Text
  unfolding remark
  extra_items name no_values = []
  extra_items name (more v values) =
      remark (text "list") name (text "has extra value " ++ shown v) ++ extra_items name values

  unfoldable pub missing_items : Text → Values → Text
  unfolding remark
  missing_items name no_values = []
  missing_items name (more v values) =
      remark (text "list") name (text "missing value " ++ shown v) ++ missing_items name values

  -- for key in comp_value: if key not in gold_value
  unfoldable pub extra_keys : Text → Entries → Entries → Text
  unfolding find remark extra_key
  extra_keys name gold no_entries = []
  extra_keys name gold (entry k v comp) =
      (if is_some (find k gold) then [] else remark (text "dict") name (extra_key k (shown v)))
      ++ extra_keys name gold comp

  unfoldable mutual
    unfolding compare_strings extra_keys wrong_type item_name missing_items extra_items both find
        key_name remark missing_key

    pub compare_values : Option Text → Text → Value → Value → Option Text
    compare_values case name (scalar gold) (scalar comp) = compare_strings case name gold comp
    compare_values case name (items gold) (items comp) = compare_items case name 0 gold comp
    compare_values case name (entries gold) (entries comp) =
        both (compare_entries case name gold comp) (some (extra_keys name gold comp))
    compare_values case name gold comp = some (wrong_type name gold comp)

    pub compare_items : Option Text → Text → ℕ → Values → Values → Option Text
    compare_items case name idx no_values comp = some (extra_items name comp)
    compare_items case name idx (more g gold) no_values = some (missing_items name (more g gold))
    compare_items case name idx (more g gold) (more c comp) =
        both (compare_values case (item_name name idx) g c)
          (compare_items case name (suc idx) gold comp)

    -- The loop over the keys of the gold dictionary.
    pub compare_entries : Option Text → Text → Entries → Entries → Option Text
    compare_entries case name no_entries comp = some []
    compare_entries case name (entry k g gold) comp =
        both
          (at_key (remark (text "dict") name (missing_key k (shown g)))
            (λ c. compare_values case (key_name name k) g c) (find k comp))
          (compare_entries case name gold comp)

  -- The comments on a variable of a namelist, by its value in the other one.
  unfoldable pub compare_variable : Option Text → Text → Value → Option Value → Option Text
  unfolding compare_values
  compare_variable case name gold none = some (text "  missing variable: '" ++ (name ++ text "'\n"))
  compare_variable case name gold (some comp) = compare_values case name gold comp

  -- The comments on a namelist that both have: the loop over the gold names, then the extra ones.
  unfoldable pub compare_variables :
      Option Text → Entries → Entries → List Text → Option (List Text)
  unfolding compare_variable append_comment find
  compare_variables case no_entries comp extra = some extra
  compare_variables case (entry name g gold) comp extra =
      append_comment (compare_variable case name g (find name comp))
        (compare_variables case gold comp extra)

  unfoldable pub compare_namelist : Option Text → Text → Entries → Option Entries → Option Text
  unfolding compare_variables extra_variables block
  compare_namelist case namelist gold none =
      some (text "Missing namelist: " ++ (namelist ++ text "\n"))
  compare_namelist case namelist gold (some comp) =
      Option.map (block namelist) (compare_variables case gold comp (extra_variables gold comp))

  unfoldable pub compare_gold : Option Text → Dict Text Entries → Dict Text Entries → Option Text
  unfolding compare_namelist both lookup
  compare_gold case [] comp = some []
  compare_gold case ((namelist, names) ∷ gold) comp =
      both (compare_namelist case namelist names (lookup namelist comp))
        (compare_gold case gold comp)

  unfoldable pub compare_namelists :
      Dict Text Entries → Dict Text Entries → Option Text → Option Text
  unfolding compare_gold extra_namelists both
  compare_namelists gold comp case =
      both (compare_gold case gold comp) (some (extra_namelists gold comp))
