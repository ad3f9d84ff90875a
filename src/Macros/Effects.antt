-- ===== src/Macros/Effects.antt =====
-- What takes effect of a written tree, by recursion on the tree.
use cime.Common.{
  Text, ℕ, suc, Bool, true, false, if◌then◌else◌, none, some, List, [], ◌∷◌, ◌++◌, ◌≡◌, refl, sym,
  ◌==◌, nat_eq, list_eq, ◌∙◌, ap, map,
}
use mathlib.Core.List.{append_assoc, append-nil}
use cime.Macros.Setting.{option_eq, Build}
use cime.Macros.Tree.{Tree, leaf, node, Branches, empty, branch}
use cime.Macros.Writer.{
  Call, write_line, set_variable, append_variable, start_ifeq, end_ifeq, assignment_call,
  write_leaf, write_out, write_none, write_ifs, run_file,
}

module _ (build : Build) where
  unfoldable mutual
    pub effects : Tree → List Call
    effects (leaf do_append assignments set_up tear_down) =
        write_leaf do_append assignments set_up tear_down
    effects (node condition branches) = effects_none branches ++ effects_ifs condition branches

    pub effects_none : Branches → List Call
    effects_none empty = []
    effects_none (branch none tree branches) = effects tree
    effects_none (branch (some cond_val) tree branches) = effects_none branches

    pub effects_ifs : Text → Branches → List Call
    effects_ifs condition empty = []
    effects_ifs condition (branch none tree branches) = effects_ifs condition branches
    effects_ifs condition (branch (some cond_val) tree branches) =
        (if build condition == some cond_val then effects tree else [])
        ++ effects_ifs condition branches

  run_file-lines :
      (lines : List Text) (rest : List Call)
      → run_file build 0 (map write_line lines ++ rest)
        ≡ map write_line lines ++ run_file build 0 rest
  unfolding run_file
  run_file-lines [] rest = refl
  run_file-lines (line ∷ lines) rest =
      ap (λ calls. write_line line ∷ calls) (run_file-lines lines rest)

  run_file-assignments :
      (do_append : Bool) (assignments : List (Text × Text)) (rest : List Call)
      → run_file build 0 (map (assignment_call do_append) assignments ++ rest)
        ≡ map (assignment_call do_append) assignments ++ run_file build 0 rest
  unfolding run_file assignment_call
  run_file-assignments do_append [] rest = refl
  run_file-assignments true ((name, value) ∷ assignments) rest =
      ap (λ calls. append_variable name value ∷ calls) (run_file-assignments true assignments rest)
  run_file-assignments false ((name, value) ∷ assignments) rest =
      ap (λ calls. set_variable name value ∷ calls) (run_file-assignments false assignments rest)

  skip-lines :
      (depth : ℕ) (lines : List Text) (rest : List Call)
      → run_file build (suc depth) (map write_line lines ++ rest) ≡ run_file build (suc depth) rest
  unfolding run_file
  skip-lines depth [] rest = refl
  skip-lines depth (line ∷ lines) rest = skip-lines depth lines rest

  skip-assignments :
      (depth : ℕ) (do_append : Bool) (assignments : List (Text × Text)) (rest : List Call)
      → run_file build (suc depth) (map (assignment_call do_append) assignments ++ rest)
        ≡ run_file build (suc depth) rest
  unfolding run_file assignment_call
  skip-assignments depth do_append [] rest = refl
  skip-assignments depth true ((name, value) ∷ assignments) rest =
      skip-assignments depth true assignments rest
  skip-assignments depth false ((name, value) ∷ assignments) rest =
      skip-assignments depth false assignments rest

  run_file-leaf :
      (do_append : Bool) (assignments : List (Text × Text)) (set_up tear_down : List Text)
      (rest : List Call)
      → run_file build 0 (write_leaf do_append assignments set_up tear_down ++ rest)
        ≡ write_leaf do_append assignments set_up tear_down ++ run_file build 0 rest
  unfolding write_leaf
  run_file-leaf do_append assignments set_up tear_down rest =
      simp (append_assoc, run_file-lines, run_file-assignments)

  skip-leaf :
      (depth : ℕ) (do_append : Bool) (assignments : List (Text × Text))
      (set_up tear_down : List Text) (rest : List Call)
      → run_file build (suc depth) (write_leaf do_append assignments set_up tear_down ++ rest)
        ≡ run_file build (suc depth) rest
  unfolding write_leaf
  skip-leaf depth do_append assignments set_up tear_down rest =
      simp (append_assoc, skip-lines, skip-assignments)

  run_file-skipped :
      (depth : ℕ) (condition cond_val : Text) (calls rest : List Call)
      → run_file build (suc (suc depth)) calls ≡ run_file build (suc (suc depth)) (end_ifeq ∷ rest)
      → run_file build (suc depth) (start_ifeq condition cond_val ∷ calls)
        ≡ run_file build (suc depth) rest
  unfolding run_file
  run_file-skipped depth condition cond_val calls rest skipped = skipped

  -- An if statement, from what its body and what is behind it do.
  module _ (body after calls behind rest : List Call) where
    run_file-test :
        (test : Bool)
        → run_file build 0 calls ≡ body ++ run_file build 0 (end_ifeq ∷ behind)
        → run_file build 1 calls ≡ run_file build 1 (end_ifeq ∷ behind)
        → run_file build 0 behind ≡ after ++ run_file build 0 rest
        → run_file build (if test then 0 else 1) calls
          ≡ ((if test then body else []) ++ after) ++ run_file build 0 rest
    unfolding run_file
    run_file-test true taken skipped next =
        taken
        ∙ ap (λ more. body ++ more) next
        ∙ sym (append_assoc body after (run_file build 0 rest))
    run_file-test false taken skipped next = skipped ∙ next

    run_file-ifeq :
        (condition cond_val : Text)
        → run_file build 0 calls ≡ body ++ run_file build 0 (end_ifeq ∷ behind)
        → run_file build 1 calls ≡ run_file build 1 (end_ifeq ∷ behind)
        → run_file build 0 behind ≡ after ++ run_file build 0 rest
        → run_file build 0 (start_ifeq condition cond_val ∷ calls)
          ≡ ((if build condition == some cond_val then body else []) ++ after)
            ++ run_file build 0 rest
    unfolding run_file
    run_file-ifeq condition cond_val taken skipped next =
        run_file-test (build condition == some cond_val) taken skipped next

  mutual
    unfolding write_out

    skip-write_out :
        (depth : ℕ) (tree : Tree) (rest : List Call)
        → run_file build (suc depth) (write_out tree ++ rest) ≡ run_file build (suc depth) rest
    skip-write_out depth (leaf do_append assignments set_up tear_down) rest =
        skip-leaf depth do_append assignments set_up tear_down rest
    skip-write_out depth (node condition branches) rest =
        ap (run_file build (suc depth))
          (append_assoc (write_none branches) (write_ifs condition branches) rest)
        ∙ skip-write_none depth branches (write_ifs condition branches ++ rest)
        ∙ skip-write_ifs depth condition branches rest

    skip-write_none :
        (depth : ℕ) (branches : Branches) (rest : List Call)
        → run_file build (suc depth) (write_none branches ++ rest) ≡ run_file build (suc depth) rest
    skip-write_none depth empty rest = refl
    skip-write_none depth (branch none tree branches) rest = skip-write_out depth tree rest
    skip-write_none depth (branch (some cond_val) tree branches) rest =
        skip-write_none depth branches rest

    skip-write_ifs :
        (depth : ℕ) (condition : Text) (branches : Branches) (rest : List Call)
        → run_file build (suc depth) (write_ifs condition branches ++ rest)
          ≡ run_file build (suc depth) rest
    skip-write_ifs depth condition empty rest = refl
    skip-write_ifs depth condition (branch none tree branches) rest =
        skip-write_ifs depth condition branches rest
    skip-write_ifs depth condition (branch (some cond_val) tree branches) rest =
        let behind = write_ifs condition branches ++ rest in
        run_file-skipped depth condition cond_val
          ((write_out tree ++ end_ifeq ∷ write_ifs condition branches) ++ rest) behind
          (ap (run_file build (suc (suc depth)))
              (append_assoc (write_out tree) (end_ifeq ∷ write_ifs condition branches) rest)
            ∙ skip-write_out (suc depth) tree (end_ifeq ∷ behind))
        ∙ skip-write_ifs depth condition branches rest

  mutual
    unfolding write_out effects

    run_file-write_out :
        (tree : Tree) (rest : List Call)
        → run_file build 0 (write_out tree ++ rest) ≡ effects tree ++ run_file build 0 rest
    run_file-write_out (leaf do_append assignments set_up tear_down) rest =
        run_file-leaf do_append assignments set_up tear_down rest
    run_file-write_out (node condition branches) rest =
        ap (run_file build 0)
          (append_assoc (write_none branches) (write_ifs condition branches) rest)
        ∙ run_file-write_none branches (write_ifs condition branches ++ rest)
        ∙ ap (λ calls. effects_none branches ++ calls) (run_file-write_ifs condition branches rest)
        ∙ sym (
            append_assoc (effects_none branches) (effects_ifs condition branches)
              (run_file build 0 rest))

    run_file-write_none :
        (branches : Branches) (rest : List Call)
        → run_file build 0 (write_none branches ++ rest)
          ≡ effects_none branches ++ run_file build 0 rest
    run_file-write_none empty rest = refl
    run_file-write_none (branch none tree branches) rest = run_file-write_out tree rest
    run_file-write_none (branch (some cond_val) tree branches) rest =
        run_file-write_none branches rest

    run_file-write_ifs :
        (condition : Text) (branches : Branches) (rest : List Call)
        → run_file build 0 (write_ifs condition branches ++ rest)
          ≡ effects_ifs condition branches ++ run_file build 0 rest
    run_file-write_ifs condition empty rest = refl
    run_file-write_ifs condition (branch none tree branches) rest =
        run_file-write_ifs condition branches rest
    run_file-write_ifs condition (branch (some cond_val) tree branches) rest =
        let behind = write_ifs condition branches ++ rest in
        let regroup =
          append_assoc (write_out tree) (end_ifeq ∷ write_ifs condition branches) rest in
        run_file-ifeq (effects tree) (effects_ifs condition branches)
          ((write_out tree ++ end_ifeq ∷ write_ifs condition branches) ++ rest) behind rest
          condition cond_val
          (ap (run_file build 0) regroup ∙ run_file-write_out tree (end_ifeq ∷ behind))
          (ap (run_file build 1) regroup ∙ skip-write_out 0 tree (end_ifeq ∷ behind))
          (run_file-write_ifs condition branches rest)

  -- A tree is written so that its effects take place.
  pub run_file-effects : (tree : Tree) → run_file build 0 (write_out tree) ≡ effects tree
  unfolding run_file
  run_file-effects tree =
      ap (run_file build 0) (sym (append-nil (write_out tree)))
      ∙ run_file-write_out tree []
      ∙ append-nil (effects tree)
