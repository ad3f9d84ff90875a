-- ===== src/NamelistCompare/Agreement.antt =====
-- scripts/lib/CIME/compare_namelists.py: namelists without a comment agree.
use cime.Common.{
  ℕ, suc, Text, text, true, false, Option, none, some, [], ◌∷◌, ◌++◌, if◌then◌else◌, ◌==◌, nat_eq,
  list_eq, list_beq_iff, is_nil, ◌≡◌, ◌≢◌, refl, sym, ap, ◌∙◌, subst, arith, Bool-cases,
  Option-cases, inl, inr,
}
use cime.Common.Lists.{is_some}
use cime.NamelistCompare.{
  Value, scalar, items, entries, Values, no_values, more, Entries, no_entries, entry, find, both,
  remark, missing_key, extra_key, difference, compare_normalized, compare_strings, item_name,
  key_name, at_key, wrong_type, extra_items, missing_items, extra_keys, compare_values,
  compare_items, compare_entries,
}
use cime.NamelistCompare.Normal.{normalize_string_value}

-- Two values agree under the name that the comments give them.
mutual
  pub data Agree (case : Option Text) : Text → Value → Value → Type 0 where
    agree_scalar :
        {name gold comp : Text}
        → normalize_string_value name gold case ≡ normalize_string_value name comp case
        → Agree case name (scalar gold) (scalar comp)
    agree_items :
        {name : Text} {gold comp : Values}
        → AgreeItems case name 0 gold comp
        → Agree case name (items gold) (items comp)
    agree_entries :
        {name : Text} {gold comp : Entries}
        → ((key : Text) → AgreeAt case (key_name name key) (find key gold) (find key comp))
        → Agree case name (entries gold) (entries comp)

  pub data AgreeItems (case : Option Text) : Text → ℕ → Values → Values → Type 0 where
    agree_end : {name : Text} {idx : ℕ} → AgreeItems case name idx no_values no_values
    agree_more :
        {name : Text} {idx : ℕ} {g c : Value} {gold comp : Values}
        → Agree case (item_name name idx) g c
        → AgreeItems case name (suc idx) gold comp
        → AgreeItems case name idx (more g gold) (more c comp)

  -- Both dictionaries have the key, or neither does.
  pub data AgreeAt (case : Option Text) : Text → Option Value → Option Value → Type 0 where
    agree_none : {name : Text} → AgreeAt case name none none
    agree_some :
        {name : Text} {g c : Value} → Agree case name g c → AgreeAt case name (some g) (some c)

pub both_nil : (a b : Option Text) → both a b ≡ some [] → (a ≡ some []) × (b ≡ some [])
unfolding both
both_nil none b empty = absurd cc
both_nil (some a) none empty = absurd cc
both_nil (some []) (some b) empty = (refl, empty)
both_nil (some (x ∷ a)) (some b) empty = absurd (ground (arith, empty))

pub append_nil : (a b : Text) → a ++ b ≡ [] → (a ≡ []) × (b ≡ [])
append_nil [] b empty = (refl, empty)
append_nil (x ∷ a) b empty = absurd (ground (arith, empty))

compare_normalized_lem :
    (name : Text) (gold comp : Option Text)
    → compare_normalized name gold comp ≡ some []
    → gold ≡ comp
unfolding compare_normalized difference
compare_normalized_lem name none comp empty = absurd cc
compare_normalized_lem name (some g) none empty = absurd cc
compare_normalized_lem name (some g) (some c) empty = elim (Bool-cases (g == c)) [
  | inl same ↦ ap some ((list_beq_iff g c).0 same)
  | inr other ↦ absurd (ground (arith, empty, other))
]

-- A key that is found is the key of its entry.
pub find_here :
    (k key : Text) (v : Value) (d : Entries) → (k == key) ≡ true → find key (entry k v d) ≡ some v
unfolding find
find_here k key v d same = rw same refl

pub find_later :
    (k key : Text) (v : Value) (d : Entries)
    → (k == key) ≡ false
    → find key (entry k v d) ≡ find key d
unfolding find
find_later k key v d other = rw other refl

at_key_lem :
    (case : Option Text) (name missing : Text) (compare : Value → Option Text) (g : Value)
    (there : Option Value)
    → is_nil missing ≡ false
    → ((c : Value) → compare c ≡ some [] → Agree case name g c)
    → at_key missing compare there ≡ some []
    → AgreeAt case name (some g) there
at_key_lem case name [] compare g none full agree empty = absurd cc
at_key_lem case name (x ∷ missing) compare g none full agree empty = absurd (ground (arith, empty))
at_key_lem case name missing compare g (some c) full agree empty = agree_some (agree c empty)

pub no_key : (key : Text) (g : Value) → find key no_entries ≢ some g
unfolding find
no_key key g found = cc

module _ (shown kind : Value → Text) (case : Option Text) where
  extra_nil :
      (name key : Text) (v : Value) (gold : Entries)
      → (if is_some (find key gold)
          then []
          else remark (text "dict") name (extra_key key (shown v)))
        ≡ []
      → is_some (find key gold) ≡ true
  unfolding remark
  extra_nil name key v gold empty = elim (Bool-cases (is_some (find key gold))) [
    | inl there ↦ there
    | inr gone ↦ absurd (ground (arith, empty, gone))
  ]

  extra_keys_lem :
      (name : Text) (gold comp : Entries) (key : Text)
      → extra_keys shown kind name gold comp ≡ []
      → is_some (find key comp) ≡ true
      → is_some (find key gold) ≡ true
  unfolding extra_keys
  extra_keys_lem name gold no_entries key empty there = absurd cc
  extra_keys_lem name gold (entry k v comp) key empty there =
      let parts =
        append_nil
          (if is_some (find k gold) then [] else remark (text "dict") name (extra_key k (shown v)))
          (extra_keys shown kind name gold comp) empty in
      elim (Bool-cases (k == key)) [
        | inl same ↦
            subst (λ t. is_some (find t gold) ≡ true) ((list_beq_iff k key).0 same)
              (extra_nil name k v gold parts.0)
        | inr other ↦
            extra_keys_lem name gold comp key parts.1
              (subst (λ o. is_some o ≡ true) (find_later k key v comp other) there)
      ]

  entries_agree :
      (name : Text) (gold comp : Entries)
      → ((key : Text) (g : Value)
          → find key gold ≡ some g
          → AgreeAt case (key_name name key) (some g) (find key comp))
      → extra_keys shown kind name gold comp ≡ []
      → (key : Text) → AgreeAt case (key_name name key) (find key gold) (find key comp)
  entries_agree name gold comp agree empty key = elim (Option-cases (find key gold)) [
    | inr (g, found) ↦ rw found (agree key g found)
    | inl gone ↦ elim (Option-cases (find key comp)) [
      | inl gone_too ↦ rw (gone, gone_too) agree_none
      | inr (c, extra) ↦
          absurd (ground (arith, gone, extra_keys_lem name gold comp key empty (ap is_some extra)))
    ]
  ]

  mutual
    unfolding compare_values compare_strings wrong_type remark missing_items extra_items

    pub Agree-value :
        (name : Text) (gold comp : Value)
        → compare_values shown kind case name gold comp ≡ some []
        → Agree case name gold comp
    Agree-value name (scalar gold) (scalar comp) empty = agree_scalar (
        compare_normalized_lem name (normalize_string_value name gold case)
          (normalize_string_value name comp case) empty)
    Agree-value name (items gold) (items comp) empty =
        agree_items (agree_all name 0 gold comp empty)
    Agree-value name (entries gold) (entries comp) empty =
        let parts =
          both_nil (compare_entries shown kind case name gold comp)
            (some (extra_keys shown kind name gold comp)) empty in
        agree_entries (
          entries_agree name gold comp (agree_key name gold comp parts.0) (ground (arith, parts.1)))
    Agree-value name (scalar gold) (items comp) empty = absurd (ground (arith, empty))
    Agree-value name (scalar gold) (entries comp) empty = absurd (ground (arith, empty))
    Agree-value name (items gold) (scalar comp) empty = absurd (ground (arith, empty))
    Agree-value name (items gold) (entries comp) empty = absurd (ground (arith, empty))
    Agree-value name (entries gold) (scalar comp) empty = absurd (ground (arith, empty))
    Agree-value name (entries gold) (items comp) empty = absurd (ground (arith, empty))

    agree_all :
        (name : Text) (idx : ℕ) (gold comp : Values)
        → compare_items shown kind case name idx gold comp ≡ some []
        → AgreeItems case name idx gold comp
    agree_all name idx no_values no_values empty = agree_end
    agree_all name idx no_values (more c comp) empty = absurd (ground (arith, empty))
    agree_all name idx (more g gold) no_values empty = absurd (ground (arith, empty))
    agree_all name idx (more g gold) (more c comp) empty =
        let parts =
          both_nil (compare_values shown kind case (item_name name idx) g c)
            (compare_items shown kind case name (suc idx) gold comp) empty in
        agree_more (Agree-value (item_name name idx) g c parts.0)
          (agree_all name (suc idx) gold comp parts.1)

    agree_key :
        (name : Text) (gold comp : Entries)
        → compare_entries shown kind case name gold comp ≡ some []
        → (key : Text) (g : Value) → find key gold ≡ some g
        → AgreeAt case (key_name name key) (some g) (find key comp)
    agree_key name no_entries comp empty key g found = absurd (no_key key g found)
    agree_key name (entry k v gold) comp empty key g found =
        let missing = remark (text "dict") name (missing_key k (shown v)) in
        let parts =
          both_nil
            (at_key missing (λ c. compare_values shown kind case (key_name name k) v c)
              (find k comp))
            (compare_entries shown kind case name gold comp) empty in
        elim (Bool-cases (k == key)) [
          | inl same ↦
              subst (λ o. AgreeAt case (key_name name key) o (find key comp))
                (sym (find_here k key v gold same) ∙ found)
                (subst (λ t. AgreeAt case (key_name name t) (some v) (find t comp))
                  ((list_beq_iff k key).0 same)
                  (at_key_lem case (key_name name k) missing
                    (λ c. compare_values shown kind case (key_name name k) v c) v (find k comp) refl
                    (λ c. Agree-value (key_name name k) v c) parts.0))
          | inr other ↦
              agree_key name gold comp parts.1 key g (sym (find_later k key v gold other) ∙ found)
        ]
