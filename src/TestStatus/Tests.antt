-- ===== src/TestStatus/Tests.antt =====
-- Runs of the TestStatus model, most of them the doctests of scripts/lib/CIME/test_status.py, and the
-- theorems at concrete inputs.
use cime.Common.{
  Text, text, ◌≡◌, refl, true, false, none, some, [], ◌∷◌, Result, ok, err, ◌>>=◌, ◌↔◌,
}
use cime.Common.Dict.{lookup, insert, remove, remove_if, member}
use cime.Common.Dict.Distinct.{distinct}
use cime.Common.Words.{is_space, is_line_end, split, strip, join, splitlines}
use cime.Common.Words.Laws.{is_word, is_word-IsWord}
use cime.TestStatus.Phase.{
  Status, Phase, pend, pass, fail, create_newcase, xml, setup, namelist, sharedlib_build,
  model_build, run, baseline, compare, is_phase, is_status, is_core, is_compare, is_pass, is_pend,
  is_fail, previous_core, next_core, phases_after, phase_beq, phase_eq,
}
use cime.TestStatus.State.{
  Entry, TestStatus, Error, cannot_move_past, enter, leave, get_status, may_move_to, reran_phase,
  invalidate, drop_phases, drop_phase, pend_next, set_status,
}
use cime.TestStatus.Effect.{entry_due, lookup-set_status}
use cime.TestStatus.Progress.{Run, Earlier, IsInProgress, Run-IsInProgress, Run-Earlier}
use cime.TestStatus.Overall
use cime.TestStatus.Overall.{
  Flags, overall_status, status_from, visit, judge, count_failure, ignored, blame, see_run,
  is_run_or_submit, finish, after_round, other_keys,
}
use cime.TestStatus.Verdict.{is_fine, status_from-fail_stays, overall_status-pass_iff}
use cime.TestStatus.Frontier.{Run-core_decides}
use cime.TestStatus.File.{
  phase_name, status_name, status_of_name, phase_of_name, parse_test_status, parse_lines,
  parse_line, parse_words, parse_entry, same_name, flush, init, blank,
}
use cime.TestStatus.RoundTrip.{IsKept, IsDurable, init-flush}
use cime.TestStatus.Kept.{set_status-IsDurable}

-- All that a test computes with.
program : Unit {0}
unfolding lookup insert remove remove_if member distinct is_space is_line_end split strip join
    splitlines is_phase is_status is_core is_compare is_pass is_pend is_fail previous_core next_core
    phases_after phase_beq enter leave get_status may_move_to reran_phase invalidate drop_phases
    drop_phase pend_next set_status overall_status status_from visit judge count_failure ignored
    blame see_run is_run_or_submit finish after_round other_keys phase_name status_name
    status_of_name phase_of_name parse_test_status parse_lines parse_line parse_words parse_entry
    same_name flush init
program = tt

abbrev test_name : Text
test_name = text "ERS.foo.A"

abbrev opened : TestStatus
opened = record {
  phase_statuses = [];
  test_name = some test_name;
  ok_to_modify = true;
  no_io = false;
}

abbrev base_rest : Phase
base_rest = compare (text "_base_rest")

-- The calls of the second doctest of `set_status`.
calls : Result Error TestStatus
calls = do
  a ← set_status opened create_newcase pass []
  b ← set_status a xml pass []
  c ← set_status b setup fail []
  d ← set_status c setup pass []
  e ← set_status d baseline pass []
  f ← set_status e base_rest fail []
  g ← set_status f sharedlib_build pass (text "Time=42")
  set_status g setup pass []

calls_doctest :
    calls
    ≡ ok (record opened {
      phase_statuses =
          (create_newcase, (pass, []))
          ∷ (xml, (pass, []))
          ∷ (setup, (pass, []))
          ∷ (sharedlib_build, (pend, []))
          ∷ [];
    })
unfolding program calls
calls_doctest = refl

abbrev defaults : Flags
defaults = record {
  wait_for_run = false;
  check_throughput = false;
  check_memory = false;
  ignore_namelists = false;
  ignore_memleak = false;
  no_run = false;
}

abbrev entry : Phase → Status → Phase × Entry
entry p s = (p, (s, []))

-- The doctests of `get_overall_test_status`, on the phases that the files hold.
overall_doctests :
    (overall_status defaults (entry sharedlib_build pass ∷ entry run pend ∷ [])
      ≡ (Overall.pend, some run))
    × (overall_status defaults (entry run pend ∷ entry model_build fail ∷ [])
        ≡ (Overall.fail, some model_build))
    × (overall_status defaults (entry run pass ∷ entry namelist fail ∷ [])
        ≡ (Overall.nlfail, some run))
    × (overall_status defaults
          (entry baseline fail ∷ entry namelist fail ∷ entry base_rest pass ∷ entry run pass ∷ [])
        ≡ (Overall.diff, some baseline))
    × (overall_status defaults (entry baseline fail ∷ entry base_rest fail ∷ entry run pass ∷ [])
        ≡ (Overall.fail, some base_rest))
    × (overall_status (record defaults { wait_for_run = true }) (entry model_build pass ∷ [])
        ≡ (Overall.pend, some run))
    × (overall_status
          (record defaults { no_run = true })
          (entry model_build pass ∷ entry run pend ∷ [])
        ≡ (Overall.pass, some model_build))
unfolding program
overall_doctests = (refl, refl, refl, refl, refl, refl, refl)

-- Two phases that are not core, one failed and one pending: the order of the file decides.
order_matters :
    (overall_status defaults (entry run pass ∷ entry base_rest fail ∷ entry (compare []) pend ∷ [])
      ≡ (Overall.fail, some base_rest))
    × (overall_status defaults
          (entry run pass ∷ entry (compare []) pend ∷ entry base_rest fail ∷ [])
        ≡ (Overall.pend, some (compare [])))
unfolding program
order_matters = (refl, refl)

-- _test_helper1
parse_doctest :
    parse_test_status (blank false (some test_name)) (
      10
      ∷ join (10 ∷ []) (
          text "PASS ERS.foo.A CREATE_NEWCASE"
          ∷ text "FAIL ERS.foo.A SETUP"
          ∷ text "PASS ERS.foo.A COMPARE_base_rest"
          ∷ text "PASS ERS.foo.A SHAREDLIB_BUILD Time=42"
          ∷ []))
    ≡ ok (record (blank false (some test_name)) {
      phase_statuses =
          entry create_newcase pass
          ∷ entry setup fail
          ∷ entry base_rest pass
          ∷ (sharedlib_build, (pass, text "Time=42"))
          ∷ [];
    })
unfolding program
parse_doctest = refl

abbrev one_done : TestStatus
one_done = record opened { phase_statuses = entry create_newcase pass ∷ entry xml pend ∷ [] }

first_call : set_status opened create_newcase pass [] ≡ ok one_done
unfolding program
first_call = refl

set_status-raises : set_status one_done setup pass [] ≡ err (cannot_move_past setup)
unfolding program
set_status-raises = refl

-- A test that is set up again after it has been built.
abbrev built : TestStatus
built = record opened {
  phase_statuses =
      entry create_newcase pass
      ∷ entry xml pass
      ∷ entry setup pass
      ∷ entry baseline pass
      ∷ entry base_rest fail
      ∷ (sharedlib_build, (pass, text "Time=42"))
      ∷ entry model_build pend
      ∷ [];
}

abbrev set_up_again : TestStatus
set_up_again = record opened {
  phase_statuses =
      entry create_newcase pass
      ∷ entry xml pass
      ∷ entry setup pass
      ∷ entry sharedlib_build pend
      ∷ [];
}

set_up_call : set_status built setup pass [] ≡ ok set_up_again
unfolding program
set_up_call = refl

lookup-set_status_example :
    (lookup base_rest set_up_again.phase_statuses
      ≡ entry_due built.phase_statuses setup pass [] base_rest)
    × (set_up_again.test_name ≡ built.test_name)
    × (set_up_again.ok_to_modify ≡ built.ok_to_modify)
    × (set_up_again.no_io ≡ built.no_io)
lookup-set_status_example = lookup-set_status built set_up_again setup pass [] base_rest set_up_call

first_run : Run one_done
unfolding previous_core
first_run = Run.calls (Run.fresh opened refl) create_newcase pass [] (λ p e. cc) first_call

Run-IsInProgress_example : IsInProgress one_done.phase_statuses
Run-IsInProgress_example = Run-IsInProgress first_run

create_newcase-Earlier : Earlier create_newcase xml
unfolding previous_core
create_newcase-Earlier = Earlier.just refl

Run-Earlier_example : get_status one_done.phase_statuses create_newcase ≡ some pass
unfolding member lookup phase_beq
Run-Earlier_example = Run-Earlier first_run create_newcase-Earlier refl

Run-core_decides_example :
    (pend ≡ fail → overall_status defaults one_done.phase_statuses ≡ (Overall.fail, some xml))
    × (pend ≡ pend → overall_status defaults one_done.phase_statuses ≡ (Overall.pend, some xml))
unfolding get_status lookup phase_beq is_core
Run-core_decides_example = Run-core_decides defaults one_done xml pend refl first_run refl refl

overall_status-pass_iff_example :
    ((overall_status defaults (entry run pass ∷ [])).0 ≡ Overall.pass) ↔ (
      ((p : Phase) (s : Status)
        → get_status (entry run pass ∷ []) p ≡ some s
        → is_fine defaults p s ≡ true)
      × (defaults.wait_for_run ≡ true → member run (entry run pass ∷ []) ≡ true))
overall_status-pass_iff_example = overall_status-pass_iff defaults refl (entry run pass ∷ [])

test_name-IsWord : is_word test_name ≡ true
unfolding is_word is_space
test_name-IsWord = refl

xml_word : is_word (phase_name xml) ≡ true
unfolding is_word is_space phase_name
xml_word = refl

create_newcase_word : is_word (phase_name create_newcase) ≡ true
unfolding is_word is_space phase_name
create_newcase_word = refl

nil-IsDurable : IsDurable []
unfolding distinct
nil-IsDurable = record { storable = tt; once = refl }

set_status-IsDurable_example : IsDurable one_done.phase_statuses
unfolding join split
set_status-IsDurable_example =
    set_status-IsDurable opened one_done create_newcase pass []
      (is_word-IsWord (phase_name create_newcase) create_newcase_word) refl nil-IsDurable first_call

one_done-IsDurable : IsDurable one_done.phase_statuses
unfolding distinct join split member lookup phase_beq is_phase is_status
one_done-IsDurable = record {
  storable = (
    record {
      phase_known = refl;
      status_known = refl;
      one_word = is_word-IsWord (phase_name create_newcase) create_newcase_word;
      comment = refl;
    },
    (
      record {
        phase_known = refl;
        status_known = refl;
        one_word = is_word-IsWord (phase_name xml) xml_word;
        comment = refl;
      },
      tt,
    ),
  );
  once = refl;
}

one_done-IsKept : IsKept one_done test_name
one_done-IsKept = record {
  named = refl;
  name_word = is_word-IsWord test_name test_name-IsWord;
  some_phase = refl;
  durable = one_done-IsDurable;
}

init-flush_example :
    init (flush one_done none) true false none ≡ ok (record one_done { ok_to_modify = false })
unfolding same_name
init-flush_example = init-flush one_done test_name none none one_done-IsKept refl refl

status_from-fail_stays_example :
    (status_from defaults
      (entry base_rest pend ∷ [])
      (base_rest ∷ [])
      (record { rv = Overall.fail; run_phase_found = true; responsible = some baseline })).0
    ≡ Overall.fail
status_from-fail_stays_example =
    status_from-fail_stays defaults (entry base_rest pend ∷ []) (base_rest ∷ [])
      (record { rv = Overall.fail; run_phase_found = true; responsible = some baseline }) refl
