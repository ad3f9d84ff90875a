-- ===== src/NamelistCompare/Namelists.antt =====
-- scripts/lib/CIME/compare_namelists.py: files of namelists without a comment agree.
use cime.Common.{
  Text, true, false, Option, none, some, List, [], ◌∷◌, ◌==◌, nat_eq, list_eq, list_beq_iff, is_nil,
  ◌≡◌, refl, sym, ap, ◌∙◌, subst, arith, Bool-cases, Option-cases, inl, inr,
}
use cime.Common.Lists.{is_some, All}
use cime.Common.Dict.{Dict, lookup}
use cime.NamelistCompare.{
  Value, Entries, no_entries, entry, find, compare_variable, append_comment, extra_variables,
  compare_variables, block, compare_namelist, extra_namelists, compare_gold, compare_namelists,
}
use cime.NamelistCompare.Agreement.{
  AgreeAt, agree_none, agree_some, both_nil, find_here, find_later, no_key, Agree-value,
}

-- Both files have the namelist, with the same variables and values that agree, or neither has it.
pub data AgreeNamelist (case : Option Text) : Option Entries → Option Entries → Type 0 where
  agree_missing : AgreeNamelist case none none
  agree_names :
      {gold comp : Entries}
      → ((name : Text) → AgreeAt case name (find name gold) (find name comp))
      → AgreeNamelist case (some gold) (some comp)

abbrev IsSaid : Text → Type 0
IsSaid comment = is_nil comment ≡ false

append_comment-IsSaid :
    (comment : Option Text) (later : Option (List Text)) (comments : List Text)
    → append_comment comment later ≡ some comments
    → ((cs : List Text) → later ≡ some cs → All IsSaid cs)
    → All IsSaid comments
unfolding append_comment
append_comment-IsSaid none later comments same said = absurd cc
append_comment-IsSaid (some c) none comments same said = absurd cc
append_comment-IsSaid (some []) (some cs) comments same said = said comments same
append_comment-IsSaid (some (x ∷ c)) (some cs) comments same said =
    subst (All IsSaid) {x = (x ∷ c) ∷ cs} {y = comments} (ground (arith, same)) (refl, said cs refl)

append_comment_nil :
    (comment : Option Text) (later : Option (List Text))
    → append_comment comment later ≡ some []
    → (comment ≡ some []) × (later ≡ some [])
unfolding append_comment
append_comment_nil none later empty = absurd cc
append_comment_nil (some c) none empty = absurd cc
append_comment_nil (some []) (some cs) empty = (refl, empty)
append_comment_nil (some (x ∷ c)) (some cs) empty = absurd (ground (arith, empty))

block_nil :
    (namelist : Text) (comments : List Text)
    → All IsSaid comments
    → block namelist comments ≡ []
    → comments ≡ []
unfolding block
block_nil namelist [] said empty = refl
block_nil namelist (c ∷ []) said empty = absurd (ground (arith, ap is_nil empty, said.0))
block_nil namelist (a ∷ b ∷ comments) said empty = absurd (ground (arith, empty))

extra_variables-IsSaid : (gold comp : Entries) → All IsSaid (extra_variables gold comp)
unfolding extra_variables
extra_variables-IsSaid gold no_entries = tt
extra_variables-IsSaid gold (entry k v comp) = elim (Bool-cases (is_some (find k gold))) [
  | inl there ↦ rw there (extra_variables-IsSaid gold comp)
  | inr extra ↦ rw extra (refl, extra_variables-IsSaid gold comp)
]

extra_variables_lem :
    (gold comp : Entries) (key : Text)
    → extra_variables gold comp ≡ []
    → is_some (find key comp) ≡ true
    → is_some (find key gold) ≡ true
unfolding extra_variables
extra_variables_lem gold no_entries key empty there = absurd cc
extra_variables_lem gold (entry k v comp) key empty there =
    elim (Bool-cases (is_some (find k gold))) [
      | inr extra ↦ absurd (ground (arith, extra, empty))
      | inl known ↦ elim (Bool-cases (k == key)) [
        | inl same ↦ subst (λ t. is_some (find t gold) ≡ true) ((list_beq_iff k key).0 same) known
        | inr other ↦
            extra_variables_lem gold comp key (rw known at empty)
              (subst (λ o. is_some o ≡ true) (find_later k key v comp other) there)
      ]
    ]

module _ (shown kind : Value → Text) (case : Option Text) where
  compare_variable_lem :
      (name : Text) (g : Value) (there : Option Value)
      → compare_variable shown kind case name g there ≡ some []
      → AgreeAt case name (some g) there
  unfolding compare_variable
  compare_variable_lem name g none empty = absurd (ground (arith, empty))
  compare_variable_lem name g (some c) empty =
      agree_some (Agree-value shown kind case name g c empty)

  compare_variables-IsSaid :
      (gold comp : Entries) (extra comments : List Text)
      → All IsSaid extra
      → compare_variables shown kind case gold comp extra ≡ some comments
      → All IsSaid comments
  unfolding compare_variables
  compare_variables-IsSaid no_entries comp extra comments said same =
      subst (All IsSaid) (ground (arith, same)) said
  compare_variables-IsSaid (entry name g gold) comp extra comments said same =
      append_comment-IsSaid (compare_variable shown kind case name g (find name comp))
        (compare_variables shown kind case gold comp extra) comments same
        (λ cs later. compare_variables-IsSaid gold comp extra cs said later)

  compare_variables_lem :
      (gold comp : Entries) (extra : List Text)
      → compare_variables shown kind case gold comp extra ≡ some []
      → (extra ≡ [])
        × ((key : Text) (g : Value)
            → find key gold ≡ some g
            → AgreeAt case key (some g) (find key comp))
  unfolding compare_variables
  compare_variables_lem no_entries comp extra empty =
      (ground (arith, empty), λ key g found. absurd (no_key key g found))
  compare_variables_lem (entry k v gold) comp extra empty =
      let parts =
        append_comment_nil (compare_variable shown kind case k v (find k comp))
          (compare_variables shown kind case gold comp extra) empty in
      let later = compare_variables_lem gold comp extra parts.1 in
      (
        later.0,
        λ key g found. elim (Bool-cases (k == key)) [
          | inl same ↦
              subst (λ o. AgreeAt case key o (find key comp))
                (sym (find_here k key v gold same) ∙ found)
                (subst (λ t. AgreeAt case t (some v) (find t comp)) ((list_beq_iff k key).0 same)
                  (compare_variable_lem k v (find k comp) parts.0))
          | inr other ↦ later.1 key g (sym (find_later k key v gold other) ∙ found)
        ],
      )

  names_agree :
      (gold comp : Entries)
      → ((key : Text) (g : Value)
          → find key gold ≡ some g
          → AgreeAt case key (some g) (find key comp))
      → extra_variables gold comp ≡ []
      → (name : Text) → AgreeAt case name (find name gold) (find name comp)
  names_agree gold comp agree empty name = elim (Option-cases (find name gold)) [
    | inr (g, found) ↦ rw found (agree name g found)
    | inl gone ↦ elim (Option-cases (find name comp)) [
      | inl gone_too ↦ rw (gone, gone_too) agree_none
      | inr (c, extra) ↦
          absurd (ground (arith, gone, extra_variables_lem gold comp name empty (ap is_some extra)))
    ]
  ]

  compare_namelist_lem :
      (namelist : Text) (names : Entries) (there : Option Entries)
      → compare_namelist shown kind case namelist names there ≡ some []
      → AgreeNamelist case (some names) there
  unfolding compare_namelist
  compare_namelist_lem namelist names none empty = absurd (ground (arith, empty))
  compare_namelist_lem namelist names (some comp) empty =
      elim (Option-cases
        (compare_variables shown kind case names comp (extra_variables names comp))) [
          | inl raised ↦ absurd (ground (arith, raised, (rw raised at empty)))
          | inr (comments, done) ↦
              let said =
                compare_variables-IsSaid names comp (extra_variables names comp) comments
                  (extra_variables-IsSaid names comp) done in
              let silent = block_nil namelist comments said (ground (arith, (rw done at empty))) in
              let agreed =
                compare_variables_lem names comp (extra_variables names comp)
                  (done ∙ ap some silent) in
              agree_names (names_agree names comp agreed.1 agreed.0)
        ]

  extra_namelists_lem :
      (gold comp : Dict Text Entries) (key : Text)
      → extra_namelists gold comp ≡ []
      → is_some (lookup key comp) ≡ true
      → is_some (lookup key gold) ≡ true
  unfolding extra_namelists lookup
  extra_namelists_lem gold [] key empty there = absurd cc
  extra_namelists_lem gold ((k, names) ∷ comp) key empty there =
      elim (Bool-cases (is_some (lookup k gold))) [
        | inr extra ↦ absurd (ground (arith, extra, empty))
        | inl known ↦ elim (Bool-cases (k == key)) [
          | inl same ↦
              subst (λ t. is_some (lookup t gold) ≡ true) ((list_beq_iff k key).0 same) known
          | inr other ↦ extra_namelists_lem gold comp key (rw known at empty) (rw other at there)
        ]
      ]

  compare_gold_lem :
      (gold comp : Dict Text Entries)
      → compare_gold shown kind case gold comp ≡ some []
      → (key : Text) (names : Entries) → lookup key gold ≡ some names
      → AgreeNamelist case (some names) (lookup key comp)
  unfolding compare_gold lookup
  compare_gold_lem [] comp empty key names found = absurd cc
  compare_gold_lem ((k, v) ∷ gold) comp empty key names found =
      let parts =
        both_nil (compare_namelist shown kind case k v (lookup k comp))
          (compare_gold shown kind case gold comp) empty in
      elim (Bool-cases (k == key)) [
        | inl same ↦
            subst (λ o. AgreeNamelist case o (lookup key comp)) (rw same at found)
              (subst (λ t. AgreeNamelist case (some v) (lookup t comp))
                ((list_beq_iff k key).0 same) (compare_namelist_lem k v (lookup k comp) parts.0))
        | inr other ↦ compare_gold_lem gold comp parts.1 key names (rw other at found)
      ]

  -- When the comparison of two files of namelists has no comment, and raises nothing, then for every name
  -- both files have the namelist or neither has it, and in a namelist that both have, for every name both
  -- have the variable, with values that agree, or neither has it. Strings agree when they are the same
  -- once they are normalized, lists when they agree item by item, and dictionaries key by key.
  pub compare_namelists-agree :
      (gold comp : Dict Text Entries)
      → compare_namelists shown kind gold comp case ≡ some []
      → (namelist : Text) → AgreeNamelist case (lookup namelist gold) (lookup namelist comp)
  unfolding compare_namelists
  compare_namelists-agree gold comp empty namelist =
      let parts =
        both_nil (compare_gold shown kind case gold comp) (some (extra_namelists gold comp))
          empty in
      elim (Option-cases (lookup namelist gold)) [
        | inr (names, found) ↦ rw found (compare_gold_lem gold comp parts.0 namelist names found)
        | inl gone ↦ elim (Option-cases (lookup namelist comp)) [
          | inl gone_too ↦ rw (gone, gone_too) agree_missing
          | inr (c, extra) ↦ absurd (
              ground (
                arith,
                gone,
                extra_namelists_lem gold comp namelist (ground (arith, parts.1)) (ap is_some extra),
              ))
        ]
      ]
