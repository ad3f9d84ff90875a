-- ===== src/Macros/Writer.antt =====
-- write_out of scripts/lib/CIME/BuildTools/macroconditiontree.py, and what a make program does with what is written.
use cime.Common.{
  Text, ℕ, zero, suc, Bool, if◌then◌else◌, none, some, List, [], ◌∷◌, ◌++◌, map, ◌==◌, nat_eq,
  list_eq,
}
use cime.Macros.Setting.{Build, option_eq}
use cime.Macros.Tree.{Tree, leaf, node, Branches, empty, branch}

-- The calls of the methods of a writer. The test of `start_ifeq` names the variable: its reference
-- in the language of the file is the writer's matter.
pub data Call : Type 0 where
  write_line : Text → Call
  set_variable : Text → Text → Call
  append_variable : Text → Text → Call
  start_ifeq : Text → Text → Call
  end_ifeq : Call

-- The call for an assignment of a leaf.
unfoldable pub assignment_call : Bool → Text × Text → Call
assignment_call do_append (name, value) =
    if do_append then append_variable name value else set_variable name value

unfoldable pub write_leaf : Bool → List (Text × Text) → List Text → List Text → List Call
unfolding assignment_call
write_leaf do_append assignments set_up tear_down =
    map write_line set_up
    ++ (map (assignment_call do_append) assignments ++ map write_line tear_down)

unfoldable mutual
  unfolding write_leaf

  pub write_out : Tree → List Call
  write_out (leaf do_append assignments set_up tear_down) =
      write_leaf do_append assignments set_up tear_down
  write_out (node condition branches) = write_none branches ++ write_ifs condition branches

  -- The settings that do not use the condition.
  pub write_none : Branches → List Call
  write_none empty = []
  write_none (branch none tree branches) = write_out tree
  write_none (branch (some cond_val) tree branches) = write_none branches

  -- All the if statements.
  pub write_ifs : Text → Branches → List Call
  write_ifs condition empty = []
  write_ifs condition (branch none tree branches) = write_ifs condition branches
  write_ifs condition (branch (some cond_val) tree branches) =
      start_ifeq condition cond_val ∷ (write_out tree ++ end_ifeq ∷ write_ifs condition branches)

-- The calls that take effect when the file is read in a build. The number counts the conditionals
-- that are open since the first one that is false.
unfoldable pub run_file : Build → ℕ → List Call → List Call
run_file build zero [] = []
run_file build (suc depth) [] = []
run_file build zero (write_line line ∷ calls) = write_line line ∷ run_file build zero calls
run_file build zero (set_variable name value ∷ calls) =
    set_variable name value ∷ run_file build zero calls
run_file build zero (append_variable name value ∷ calls) =
    append_variable name value ∷ run_file build zero calls
run_file build zero (start_ifeq condition cond_val ∷ calls) =
    run_file build (if build condition == some cond_val then 0 else 1) calls
run_file build zero (end_ifeq ∷ calls) = run_file build zero calls
run_file build (suc depth) (write_line line ∷ calls) = run_file build (suc depth) calls
run_file build (suc depth) (set_variable name value ∷ calls) = run_file build (suc depth) calls
run_file build (suc depth) (append_variable name value ∷ calls) = run_file build (suc depth) calls
run_file build (suc depth) (start_ifeq condition cond_val ∷ calls) =
    run_file build (suc (suc depth)) calls
run_file build (suc depth) (end_ifeq ∷ calls) = run_file build depth calls
