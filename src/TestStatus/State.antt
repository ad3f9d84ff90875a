-- ===== src/TestStatus/State.antt =====
-- scripts/lib/CIME/test_status.py: the state of a TestStatus object and the methods that read and
-- change it. A method that raises returns an error; every `expect` stands before the first change.
use cime.Common.{
  ℕ, ◌+◌, Text, Bool, true, false, ◌&&◌, not, Option, none, some, List, [], ◌∷◌, Result, ok, expect,
  ◌>>◌, if◌then◌else◌,
}
use cime.Common.Dict.{Dict, lookup, insert, remove, remove_if}
use cime.TestStatus.Phase.{
  Status, Phase, pend, is_phase, is_status, is_core, is_compare, is_pass, is_pend, previous_core,
  next_core, phases_after, phase_eq,
}

-- A phase's status and its comments.
abbrev pub Entry : Type 0
Entry = Status × Text

abbrev pub Phases : Type 0
Phases = Dict Phase Entry

pub record TestStatus : Type 0 where
  pub phase_statuses : Phases
  pub test_name : Option Text
  pub ok_to_modify : Bool
  pub no_io : Bool

pub data Error : Type 0 where
  -- "Must provide test_name if TestStatus file doesn't exist"
  no_test_name : Error
  -- "TestStatus not in a modifiable state, use 'with' syntax"
  not_modifiable : Error
  invalid_phase : Phase → Error
  invalid_status : Status → Error
  -- "Cannot move past core phase '{}', it didn't pass: "
  cannot_move_past : Phase → Error
  inconsistent_name : Text → Text → Error
  repeated_phase : Phase → Error

-- __enter__
unfoldable pub enter : TestStatus → TestStatus
enter ts = record ts { ok_to_modify = true }

-- __exit__, less the `flush` that follows
unfoldable pub leave : TestStatus → TestStatus
leave ts = record ts { ok_to_modify = false }

unfoldable pub get_status : Phases → Phase → Option Status
get_status d phase = elim (lookup phase d) [ none ↦ none | some e ↦ some e.0 ]

unfoldable pub get_comment : Phases → Phase → Option Text
get_comment d phase = elim (lookup phase d) [ none ↦ none | some e ↦ some e.1 ]

-- An absent status holds nothing back.
unfoldable pub passed_or_absent : Option Status → Bool
unfolding is_pass
passed_or_absent none = true
passed_or_absent (some s) = is_pass s

-- The core phase before `phase`, if it has a status, has passed.
unfoldable pub may_move_to : Phases → Phase → Bool
unfolding get_status passed_or_absent previous_core
may_move_to d phase = elim (previous_core phase) [
  | none ↦ true
  | some p ↦ passed_or_absent (get_status d p)
]

unfoldable pub present_not_pend : Option Status → Bool
unfolding is_pend
present_not_pend none = false
present_not_pend (some s) = not (is_pend s)

unfoldable pub reran_phase : Phases → Phase → Bool
unfolding present_not_pend get_status is_core
reran_phase d phase = present_not_pend (get_status d phase) && is_core phase

-- The body of the loop over the subsequent phases.
unfoldable pub drop_phase : Phase → Phases → Phases
unfolding remove is_compare remove_if
drop_phase subsequent d =
    let rest = remove subsequent d in
    if is_compare subsequent then remove_if is_compare rest else rest

unfoldable pub drop_phases : List Phase → Phases → Phases
unfolding drop_phase
drop_phases [] d = d
drop_phases (p ∷ ps) d = drop_phases ps (drop_phase p d)

-- "All subsequent phases are invalidated"
unfoldable pub invalidate : Phase → Phases → Phases
unfolding drop_phases reran_phase phases_after
invalidate phase d = if reran_phase d phase then drop_phases (phases_after phase) d else d

-- A core phase that passes sets the next one to PEND.
unfoldable pub pend_next : Phase → Status → Phases → Phases
unfolding next_core is_pass insert
pend_next phase status d = elim (next_core phase) [
  | none ↦ d
  | some q ↦ if is_pass status then insert q (pend, []) d else d
]

unfoldable pub set_status : TestStatus → Phase → Status → Text → Result Error TestStatus
set_status ts phase status comments = do
  expect ts.ok_to_modify not_modifiable
  expect (is_phase phase) (invalid_phase phase)
  expect (is_status status) (invalid_status status)
  expect (may_move_to ts.phase_statuses phase) (cannot_move_past phase)
  let kept = invalidate phase ts.phase_statuses
  ok (record ts { phase_statuses = pend_next phase status (insert phase (status, comments) kept) })

-- The count of one phase of `non_pass_counts`, after this test.
unfoldable pub count_after : Phases → Phase → ℕ → ℕ
unfolding get_status is_pass
count_after d phase n = elim (get_status d phase) [
  | none ↦ n
  | some s ↦ if is_pass s then n else n + 1
]

-- increment_non_pass_counts: the keys of `non_pass_counts` stay.
unfoldable pub increment_non_pass_counts : Phases → Dict Phase ℕ → Dict Phase ℕ
unfolding count_after
increment_non_pass_counts d [] = []
increment_non_pass_counts d ((phase, n) ∷ counts) =
    (phase, count_after d phase n) ∷ increment_non_pass_counts d counts
