-- ===== src/Macros/Tests.antt =====
-- The doctests of scripts/lib/CIME/BuildTools/valuesetting.py and possiblevalues.py, and the theorems at inputs.
use cime.Common.{
  Text, text, ℕ, ◌+◌, true, false, none, some, [], ◌∷◌, ◌≡◌, ◌↔◌, refl, ok, err, IsOk,
}
use cime.Common.Dict.{lookup, member, insert, remove}
use cime.Macros.Setting.{
  Setting, Build, Conditions, all, is_ambiguous_with, is_consistent, is_proper_subset, is_subset,
  has_special_case, holds,
}
use cime.Macros.Tree.{
  Tree, leaf, node, empty, branch, init, init_from, size_all, choose, any_has, all_conditions,
  first_sorted, least_name, text_less, partition_from, get, pop, branches_of, leaf_of, all_append,
  all_set_up, all_tear_down,
}
use cime.Macros.Writer.{
  Call, set_variable, start_ifeq, end_ifeq, run_file, write_out, write_leaf, assignment_call,
}
use cime.Macros.Ambiguity.{has_special_case_iff}
use cime.Macros.Applied.{write_out-applied}
use cime.Macros.Weigh.{weigh, applied}
use cime.Macros.Specific.{Decided, last_set}
use cime.Macros.Selected.{init-Decided}
use cime.Macros.Merge.{
  merge, merge_from, size, in_order, merge_step, merge_at, find_branch, set_branch,
}
use cime.Macros.Joined.{IsMade, made, merge-effects}
use cime.Macros.Values.{
  PossibleValues, possible_values, override, add_setting, is_clear, are_clear, to_cond_trees,
  ambiguity,
}
use cime.Macros.Checked.{to_cond_trees-cases}
use cime.Macros.Relevant.{IsBuilt, initial, added, IsRelevant, IsBuilt-IsRelevant}

abbrev sets : Conditions → Setting
sets conditions = record {
  value = text "foo";
  do_append = false;
  conditions = conditions;
  set_up = [];
  tear_down = [];
}

abbrev debug : Conditions
debug = (text "DEBUG", text "TRUE") ∷ []

abbrev release : Conditions
release = (text "DEBUG", text "FALSE") ∷ []

abbrev debug_mpi : Conditions
debug_mpi = (text "DEBUG", text "TRUE") ∷ (text "MPILIB", text "mpich2") ∷ []

abbrev mpi : Conditions
mpi = (text "MPILIB", text "mpich2") ∷ []

-- The doctests of is_ambiguous_with.
is_ambiguous_with_doctest :
    (is_ambiguous_with (sets debug) (sets release) ≡ false)
    × (is_ambiguous_with (sets debug) (sets debug_mpi) ≡ false)
    × (is_ambiguous_with (sets debug_mpi) (sets debug) ≡ false)
    × (is_ambiguous_with (sets []) (sets []) ≡ true)
    × (is_ambiguous_with (sets debug) (sets mpi) ≡ true)
unfolding is_ambiguous_with is_consistent is_proper_subset is_subset all member lookup
is_ambiguous_with_doctest = (refl, refl, refl, refl, refl)

-- The doctests of has_special_case.
has_special_case_doctest :
    (has_special_case (sets debug) (sets debug_mpi) ≡ true)
    × (has_special_case (sets debug_mpi) (sets debug) ≡ false)
    × (has_special_case (sets debug) (sets debug) ≡ true)
    × (has_special_case (sets release) (sets debug) ≡ false)
unfolding has_special_case all member lookup
has_special_case_doctest = (refl, refl, refl, refl)

abbrev fast : Setting
fast = record {
  value = text "fast";
  do_append = false;
  conditions = [];
  set_up = [];
  tear_down = [];
}

abbrev flags : Text
flags = text "FFLAGS"

abbrev flags_tree : Tree
flags_tree = node (text "DEBUG") (
    branch none (leaf false ((flags, text "fast") ∷ []) [] [])
      (branch (some (text "TRUE")) (leaf false ((flags, text "foo") ∷ []) [] []) empty))

init_test : init flags (fast ∷ sets debug ∷ []) ≡ ok flags_tree
unfolding init init_from size_all choose any_has all_conditions first_sorted least_name text_less
    partition_from get pop branches_of leaf_of all_append all_set_up all_tear_down all lookup insert
    remove member
init_test = refl

write_out_test :
    write_out flags_tree
    ≡ set_variable flags (text "fast")
      ∷ start_ifeq (text "DEBUG") (text "TRUE")
      ∷ set_variable flags (text "foo")
      ∷ end_ifeq
      ∷ []
unfolding write_out write_leaf assignment_call
write_out_test = refl

abbrev debugging : Build
debugging = λ name. some (text "TRUE")

abbrev once : Call → ℕ
once = λ call. 1

has_special_case_iff_example :
    (has_special_case (sets debug) (sets debug_mpi) ≡ true)
    ↔ ((build : Build) → holds build debug_mpi ≡ true → holds build debug ≡ true)
has_special_case_iff_example = has_special_case_iff (sets debug) (sets debug_mpi)

write_out-applied_example :
    weigh once (run_file debugging 0 (write_out flags_tree))
    ≡ weigh once (applied debugging flags (fast ∷ sets debug ∷ []))
write_out-applied_example =
    write_out-applied once debugging flags (fast ∷ sets debug ∷ []) flags_tree init_test

not_ambiguous : is_ambiguous_with fast (sets debug) ≡ false
unfolding is_ambiguous_with is_consistent is_proper_subset is_subset all member lookup
not_ambiguous = refl

init-Decided_example :
    (tree : Tree) × (init flags (fast ∷ sets debug ∷ []) ≡ ok tree)
    × ((build : Build)
        → Decided build (fast ∷ sets debug ∷ []) (last_set (run_file build 0 (write_out tree))))
init-Decided_example =
    init-Decided flags (fast ∷ sets debug ∷ []) (refl, (not_ambiguous, tt), (refl, tt, tt))

abbrev two_values : PossibleValues
two_values = record {
  name = flags;
  entries =
      record { setting = fast; specificity = 0; depends = [] }
      ∷ record { setting = sets debug; specificity = 0; depends = [] }
      ∷ [];
  append_settings = [];
  append_depends = [];
}

two_values_made : add_setting (sets debug) 0 [] (possible_values flags fast 0 []) ≡ two_values
unfolding add_setting possible_values override
two_values_made = refl

abbrev two_built : IsBuilt (add_setting (sets debug) 0 [] (possible_values flags fast 0 []))
two_built = added (sets debug) 0 [] (initial flags fast 0 [])

IsBuilt-IsRelevant_example :
    IsRelevant (add_setting (sets debug) 0 [] (possible_values flags fast 0 [])).entries
IsBuilt-IsRelevant_example = IsBuilt-IsRelevant two_built

to_cond_trees-cases_example :
    (are_clear (add_setting (sets debug) 0 [] (possible_values flags fast 0 [])).entries ≡ true
      → IsOk (to_cond_trees (add_setting (sets debug) 0 [] (possible_values flags fast 0 []))))
    × (are_clear (add_setting (sets debug) 0 [] (possible_values flags fast 0 [])).entries ≡ false
        → to_cond_trees (add_setting (sets debug) 0 [] (possible_values flags fast 0 []))
          ≡ err ambiguity)
to_cond_trees-cases_example = to_cond_trees-cases two_built

two_values_clear : are_clear two_values.entries ≡ true
unfolding are_clear is_clear is_ambiguous_with is_consistent is_proper_subset is_subset all member
    lookup
two_values_clear = refl

flags-IsMade : IsMade false flags_tree
flags-IsMade = made flags (fast ∷ sets debug ∷ []) flags_tree (refl, (refl, (refl, tt))) init_test

merge-effects_example :
    (merged : Tree) × (merge flags_tree flags_tree ≡ ok merged)
    × ((f : Call → ℕ) (build : Build)
        → weigh f (run_file build 0 (write_out merged))
          ≡ weigh f (run_file build 0 (write_out flags_tree))
            + weigh f (run_file build 0 (write_out flags_tree)))
merge-effects_example = merge-effects flags-IsMade flags-IsMade

abbrev level : Text
level = text "LEVEL"

-- A tree without conditions goes to the branch for None.
merge_test :
    merge (leaf false ((level, text "2") ∷ []) [] []) flags_tree
    ≡ ok (
        node (text "DEBUG") (
          branch none
            (leaf false ((flags, text "fast") ∷ (level, text "2") ∷ []) [] [])
            (branch (some (text "TRUE")) (leaf false ((flags, text "foo") ∷ []) [] []) empty)))
unfolding merge merge_from size in_order merge_step merge_at find_branch set_branch
merge_test = refl
