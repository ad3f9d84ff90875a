-- ===== src/TestStatus/Overall.antt =====
-- scripts/lib/CIME/test_status.py: the overall status of a test, `get_overall_test_status` and the
-- loop that it makes twice, `_get_overall_status_based_on_phases`.
use cime.Common.{
  Bool, true, false, ◌&&◌, not, Option, none, some, List, [], ◌∷◌, ◌++◌, if◌then◌else◌,
}
use cime.Common.Dict.{lookup, keys}
use cime.TestStatus.Phase.{
  Status, Phase, run, submit, namelist, throughput, memcomp, memleak, baseline, core_phases,
  is_core, is_pend, is_fail, phase_eq,
}
use cime.TestStatus.State.{Phases}

-- The results: the texts of the three statuses, "DIFF" and "NLFAIL".
pub data Overall : Type 0 where
  pass pend fail diff nlfail : Overall

-- The keyword arguments.
pub record Flags : Type 0 where
  pub wait_for_run : Bool
  pub check_throughput : Bool
  pub check_memory : Bool
  pub ignore_namelists : Bool
  pub ignore_memleak : Bool
  pub no_run : Bool

-- The variables of the loop.
pub record Progress : Type 0 where
  pub rv : Overall
  pub run_phase_found : Bool
  pub responsible : Option Phase

abbrev pub start : Progress
start = record { rv = pass; run_phase_found = false; responsible = none }

-- How a round ends: with the next one, by `break`, or by `return TEST_FAIL_STATUS, phase`.
pub data Round : Type 0 where
  next stop : Progress → Round
  failed : Phase → Round

-- rv in [TEST_PASS_STATUS, NAMELIST_FAIL_STATUS]
abbrev pub undecided : Overall → Bool
undecided pass = true
undecided nlfail = true
undecided _ = false

abbrev pub is_pass : Overall → Bool
is_pass pass = true
is_pass _ = false

-- A failure of the phase does not count.
unfoldable pub ignored : Flags → Phase → Bool
ignored o throughput = not o.check_throughput
ignored o memcomp = not o.check_memory
ignored o namelist = o.ignore_namelists
ignored o memleak = o.ignore_memleak
ignored o _ = false

-- The branch for a failure that counts.
unfoldable pub count_failure : Phase → Progress → Round
count_failure namelist st = next (if is_pass st.rv then record st { rv = nlfail } else st)
count_failure baseline st =
    next (if undecided st.rv then record st { rv = diff; responsible = some baseline } else st)
count_failure phase st =
    if is_core phase then failed phase else next (record st { rv = fail; responsible = some phase })

unfoldable pub blame : Phase → Status → Progress → Progress
blame phase status st =
    if is_core phase && undecided st.rv && not (is_pend status)
    then record st { responsible = some phase }
    else st

unfoldable pub see_run : Phase → Progress → Progress
see_run run st = record st { run_phase_found = true }
see_run _ st = st

-- phase in [SUBMIT_PHASE, RUN_PHASE]
unfoldable pub is_run_or_submit : Phase → Bool
is_run_or_submit submit = true
is_run_or_submit run = true
is_run_or_submit _ = false

-- The tests on the status.
unfoldable pub judge : Flags → Phase → Status → Progress → Round
judge o phase status st =
    if is_pend status && undecided st.rv
    then (if o.no_run then next st else stop (record st { rv = pend; responsible = some phase }))
    else if is_fail status
    then (if ignored o phase then next st else count_failure phase st)
    else next st

-- One round of the loop for a phase that has an entry.
unfoldable pub visit : Flags → Phase → Status → Progress → Round
unfolding judge see_run blame
visit o phase status st =
    let seen = see_run phase (blame phase status st) in
    if is_run_or_submit phase && o.no_run then stop seen else judge o phase status seen

abbrev pub Verdict : Type 0
Verdict = Overall × Option Phase

-- What follows the loop.
unfoldable pub finish : Flags → Progress → Verdict
finish o st =
    if undecided st.rv && not st.run_phase_found && o.wait_for_run
    then (pend, some run)
    else (st.rv, st.responsible)

unfoldable pub after_round : Flags → (Progress → Verdict) → Round → Verdict
unfolding finish
after_round o rest (next st) = rest st
after_round o rest (stop st) = finish o st
after_round o rest (failed phase) = (fail, some phase)

unfoldable pub status_from : Flags → Phases → List Phase → Progress → Verdict
unfolding after_round visit finish
status_from o d [] st = finish o st
status_from o d (phase ∷ phases) st = elim (lookup phase d) [
  | none ↦ status_from o d phases st
  | some e ↦ after_round o (λ st'. status_from o d phases st') (visit o phase e.0 st)
]

-- [item for item in self._phase_statuses if item not in CORE_PHASES]
unfoldable pub other_keys : List Phase → List Phase
other_keys [] = []
other_keys (p ∷ ps) = let rest = other_keys ps in if is_core p then rest else p ∷ rest

-- "Core phases take priority"
unfoldable pub overall_status : Flags → Phases → Verdict
unfolding status_from other_keys
overall_status o d =
    let core = status_from o d core_phases start in
    if is_pass core.0 then status_from o d (core_phases ++ other_keys (keys d)) start else core
