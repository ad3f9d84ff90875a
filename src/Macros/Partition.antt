-- ===== src/Macros/Partition.antt =====
-- The partition of the settings by their value for a condition, and the sizes of its parts.
use cime.Common.{
  Text, ◌≤◌, ◌<◌, true, false, if◌then◌else◌, Option, List, [], ◌∷◌, ◌++◌, ◌≡◌, refl, sym, length,
  ◌==◌, nat_eq, list_eq, arith, Bool-cases, inl, inr, ◌∙◌, All,
}
use mathlib.Core.List.{append_assoc, append-nil}
use cime.Common.Dict.{lookup, member, insert, remove, lookup-insert}
use cime.Common.Dict.Distinct.{distinct, distinct-insert}
use cime.Macros.Setting.{option_beq_iff, option_eq, Conditions, Setting}
use cime.Macros.Tree.{Partition, get, partition_from, pop, size_all, any_has}

-- The settings with one value for the condition, which they lose.
unfoldable pub select : Text → Option Text → List Setting → List Setting
select condition cond_val [] = []
select condition cond_val (setting ∷ settings) =
    let rest = select condition cond_val settings in
    if lookup condition setting.conditions == cond_val then pop condition setting ∷ rest else rest

pub get-cons :
    (here at : Option Text) (settings : List Setting) (partition : Partition)
    → get at ((here, settings) ∷ partition) ≡ (if here == at then settings else get at partition)
unfolding get lookup
get-cons here at settings partition = ground arith

pub get_absent :
    (at : Option Text) (partition : Partition) → member at partition ≡ false → get at partition ≡ []
unfolding get member
get_absent at partition absent = ground arith

get-insert :
    (here at : Option Text) (settings : List Setting) (partition : Partition)
    → get at (insert here settings partition) ≡ (if here == at then settings else get at partition)
unfolding get
get-insert here at settings partition = ground (arith, lookup-insert here at settings partition)

get-partition_from :
    (condition : Text) (at : Option Text) (partition : Partition) (settings : List Setting)
    → get at (partition_from condition partition settings)
      ≡ get at partition ++ select condition at settings
unfolding partition_from select
get-partition_from condition at partition [] = sym (append-nil _)
get-partition_from condition at partition (setting ∷ settings) =
    let here = lookup condition setting.conditions in
    let grown = get here partition ++ pop condition setting ∷ [] in
    get-partition_from condition at (insert here grown partition) settings
    ∙ elim (Bool-cases (here == at)) [
      | inl same ↦
          rw (get-insert here at grown partition, same, (option_beq_iff here at).0 same)
            (append_assoc (get at partition) (pop condition setting ∷ [])
              (select condition at settings))
      | inr other ↦ rw (get-insert here at grown partition, other) refl
    ]

distinct-partition_from :
    (condition : Text) (partition : Partition) (settings : List Setting)
    → distinct partition ≡ true
    → distinct (partition_from condition partition settings) ≡ true
unfolding partition_from
distinct-partition_from condition partition [] once = once
distinct-partition_from condition partition (setting ∷ settings) once =
    let here = lookup condition setting.conditions in
    let grown = get here partition ++ pop condition setting ∷ [] in
    distinct-partition_from condition (insert here grown partition) settings
      (distinct-insert here grown partition once)

-- The entries of the partition are the selections.
pub get-partition :
    (condition : Text) (at : Option Text) (settings : List Setting)
    → get at (partition_from condition [] settings) ≡ select condition at settings
unfolding get lookup
get-partition condition at settings = get-partition_from condition at [] settings

pub distinct-partition :
    (condition : Text) (settings : List Setting)
    → distinct (partition_from condition [] settings) ≡ true
unfolding distinct
distinct-partition condition settings = distinct-partition_from condition [] settings refl

length-remove-le : (name : Text) (mine : Conditions) → length (remove name mine) ≤ length mine
unfolding remove
length-remove-le name [] = omega arith
length-remove-le name ((k, v) ∷ mine) = ground (arith, length-remove-le name mine)

length-remove-lt :
    (name : Text) (mine : Conditions)
    → member name mine ≡ true
    → length (remove name mine) < length mine
unfolding remove member lookup
length-remove-lt name [] found = cc
length-remove-lt name ((k, v) ∷ mine) found =
    ground (arith, length-remove-le name mine, length-remove-lt name mine)

size_all-select-le :
    (condition : Text) (at : Option Text) (settings : List Setting)
    → size_all (select condition at settings) ≤ size_all settings
unfolding size_all select pop
size_all-select-le condition at [] = omega arith
size_all-select-le condition at (setting ∷ settings) =
    ground (
      arith,
      length-remove-le condition setting.conditions,
      size_all-select-le condition at settings,
    )

length-pos_of_member : (name : Text) (mine : Conditions) → member name mine ≡ true → 0 < length mine
unfolding member lookup
length-pos_of_member name [] found = cc
length-pos_of_member name (entry ∷ mine) found = omega arith

-- Where some setting has the condition, every part has fewer conditions.
pub size_all-select-lt :
    (condition : Text) (at : Option Text) (settings : List Setting)
    → any_has condition settings ≡ true
    → size_all (select condition at settings) < size_all settings
unfolding size_all select pop any_has
size_all-select-lt condition at [] some_has = cc
size_all-select-lt condition at (setting ∷ settings) some_has = ground (
  arith,
  some_has,
  length-remove-le condition setting.conditions,
  length-remove-lt condition setting.conditions,
  length-pos_of_member condition setting.conditions,
  size_all-select-le condition at settings,
  size_all-select-lt condition at settings,
)

-- What holds of the settings, whatever their conditions, holds of a part.
pub select-All {ℓ} :
    (P : Setting → Type ℓ) (condition : Text) (at : Option Text) (settings : List Setting)
    → ((setting : Setting) → P setting → P (pop condition setting))
    → All P settings
    → All P (select condition at settings)
unfolding select
select-All P condition at [] popped each = tt
select-All P condition at (setting ∷ settings) popped (first, each) =
    elim (Bool-cases (lookup condition setting.conditions == at)) [
      | inl here ↦ rw here (popped setting first, select-All P condition at settings popped each)
      | inr gone ↦ rw gone (select-All P condition at settings popped each)
    ]
