-- ===== src/TestStatus/Progress.antt =====
-- The order of the core phases: while no core phase is skipped, a core phase has an entry exactly
-- when the one before it has passed.
use cime.Common.{Text, ◌≡◌, refl, true, Option, none, some, [], ok, arith, subst}
use cime.Common.Dict.{lookup, member}
use cime.TestStatus.Phase.{
  Status, Phase, pass, create_newcase, xml, setup, sharedlib_build, model_build, submit, run,
  previous_core, phase_eq,
}
use cime.TestStatus.State.{Phases, TestStatus, get_status, may_move_to, set_status, enter, leave}
use cime.TestStatus.Entries.{
  next_phases, accepts-set_status, accepts-may_move_to, lookup-next_phases, entry_after,
}

-- The core phase before `q`, if there is one, is `p`.
abbrev pub Precedes : Phase → Phase → Type 0
Precedes p q = previous_core q ≡ some p

-- What the TODO of `set_status` would check: the core phase before `phase` has an entry.
abbrev pub NoSkip : Phases → Phase → Type 0
NoSkip d phase = (p : Phase) → Precedes p phase → member p d ≡ true

pub record IsInProgress (d : Phases) : Type 0 where
  -- A core phase with an entry comes after one that passed.
  pub chained : (p q : Phase) → Precedes p q → member q d ≡ true → get_status d p ≡ some pass
  -- A core phase that passed is followed by one with an entry.
  pub pended : (p q : Phase) → Precedes p q → get_status d p ≡ some pass → member q d ≡ true

abbrev LinkedBy : Phases → Phase → Option Phase → Type 0
LinkedBy d q none = Unit
LinkedBy d q (some p) =
    (member q d ≡ true → get_status d p ≡ some pass)
    × (get_status d p ≡ some pass → member q d ≡ true)

-- `IsInProgress` at one phase and the one before it.
abbrev Linked : Phases → Phase → Type 0
Linked d q = LinkedBy d q (previous_core q)

Linked-IsInProgress : {d : Phases} → ((q : Phase) → Linked d q) → IsInProgress d
Linked-IsInProgress {d} h = record {
  chained = λ p q e. (subst (LinkedBy d q) e (h q)).0;
  pended = λ p q e. (subst (LinkedBy d q) e (h q)).1;
}

Linked-previous :
    {d : Phases} (q : Phase) (o : Option Phase)
    → previous_core q ≡ o
    → IsInProgress d
    → LinkedBy d q o
Linked-previous q none e h = tt
Linked-previous q (some p) e h = (h.chained p q e, h.pended p q e)

module _ (d : Phases) (s : Status) (c : Text) where
  look : (x q : Phase) → lookup q (next_phases d x s c) ≡ entry_after d x s c q
  look x q = lookup-next_phases d x s c q

  -- Only the entries of `x`, of the core phase after it and of the phases that a rerun drops change,
  -- so the link at `q` rests on the links at `q` and before it.
  Linked-step :
      (x q : Phase)
      → NoSkip d x
      → may_move_to d x ≡ true
      → ((r : Phase) → Linked d r)
      → Linked (next_phases d x s c) q
  unfolding member get_status may_move_to entry_after previous_core
  Linked-step create_newcase xml skip move h = ground (
    arith,
    look create_newcase create_newcase,
    look create_newcase xml,
    skip create_newcase,
    h xml,
  )
  Linked-step x xml skip move h =
      ground (arith, look x create_newcase, look x xml, skip create_newcase, h xml)
  Linked-step create_newcase setup skip move h =
      ground (arith, look create_newcase xml, look create_newcase setup, skip xml, h setup, h xml)
  Linked-step x setup skip move h =
      ground (arith, look x xml, look x setup, skip xml, h setup, h xml)
  Linked-step create_newcase sharedlib_build skip move h = ground (
    arith,
    look create_newcase setup,
    look create_newcase sharedlib_build,
    skip setup,
    h sharedlib_build,
    h setup,
  )
  Linked-step x sharedlib_build skip move h =
      ground (arith, look x setup, look x sharedlib_build, skip setup, h sharedlib_build, h setup)
  Linked-step create_newcase model_build skip move h = ground (
    arith,
    look create_newcase sharedlib_build,
    look create_newcase model_build,
    skip sharedlib_build,
    h model_build,
    h sharedlib_build,
  )
  Linked-step x model_build skip move h = ground (
    arith,
    look x sharedlib_build,
    look x model_build,
    skip sharedlib_build,
    h model_build,
    h sharedlib_build,
  )
  Linked-step create_newcase submit skip move h = ground (
    arith,
    look create_newcase model_build,
    look create_newcase submit,
    skip model_build,
    h submit,
    h model_build,
  )
  Linked-step x submit skip move h =
      ground (arith, look x model_build, look x submit, skip model_build, h submit, h model_build)
  Linked-step create_newcase run skip move h =
      ground
        (arith, look create_newcase submit, look create_newcase run, skip submit, h run, h submit)
  Linked-step x run skip move h =
      ground (arith, look x submit, look x run, skip submit, h run, h submit)
  Linked-step x _ skip move h = tt

  pub next_phases-IsInProgress :
      (x : Phase)
      → NoSkip d x
      → may_move_to d x ≡ true
      → IsInProgress d
      → IsInProgress (next_phases d x s c)
  next_phases-IsInProgress x skip move h =
      Linked-IsInProgress
        (λ q. Linked-step x q skip move (λ r. Linked-previous r (previous_core r) refl h))

-- What a program does with a TestStatus object whose core phases it takes in order: it opens the
-- object with `with`, and each call finds an entry for the core phase before.
pub data Run : TestStatus → Type 0 where
  fresh : (ts : TestStatus) → ts.phase_statuses ≡ [] → Run ts
  enters : {ts : TestStatus} → Run ts → Run (enter ts)
  leaves : {ts : TestStatus} → Run ts → Run (leave ts)
  calls :
      {ts ts' : TestStatus}
      → Run ts
      → (phase : Phase) (status : Status) (comments : Text) → NoSkip ts.phase_statuses phase
      → set_status ts phase status comments ≡ ok ts'
      → Run ts'

IsInProgress-nil : IsInProgress []
unfolding member lookup get_status
IsInProgress-nil = record { chained = λ p q e m. cc; pended = λ p q e m. cc }

-- Where no core phase is skipped, a core phase has an entry exactly when the core phase before it
-- has passed.
pub Run-IsInProgress : {ts : TestStatus} → Run ts → IsInProgress ts.phase_statuses
unfolding enter leave
Run-IsInProgress (fresh ts e) = rw e IsInProgress-nil
Run-IsInProgress (enters r) = Run-IsInProgress r
Run-IsInProgress (leaves r) = Run-IsInProgress r
Run-IsInProgress (calls {ts} {ts'} r phase status comments skip e) =
    let (fits, e') = accepts-set_status ts ts' phase status comments e in
    rw e' (
      next_phases-IsInProgress _ status comments phase skip
        (accepts-may_move_to ts phase status fits) (Run-IsInProgress r))

-- `p` stands before `q` in CORE_PHASES.
pub data Earlier (p : Phase) : Phase → Type 0 where
  just : {q : Phase} → Precedes p q → Earlier p q
  after : {q r : Phase} → Earlier p q → Precedes q r → Earlier p r

pub member_of_status :
    (d : Phases) (p : Phase) (s : Status) → get_status d p ≡ some s → member p d ≡ true
unfolding member get_status
member_of_status d p s h = ground arith

pub IsInProgress-Earlier :
    {d : Phases} {p q : Phase}
    → IsInProgress d
    → Earlier p q
    → member q d ≡ true
    → get_status d p ≡ some pass
IsInProgress-Earlier {p = p} {q = q} h (just e) m = h.chained p q e m
IsInProgress-Earlier {d} h (after {q = mid} {r = last} earlier e) m =
    IsInProgress-Earlier h earlier (member_of_status d mid pass (h.chained mid last e m))

-- Where no core phase is skipped, every core phase before one that has an entry has passed.
pub Run-Earlier :
    {ts : TestStatus} {p q : Phase}
    → Run ts
    → Earlier p q
    → member q ts.phase_statuses ≡ true
    → get_status ts.phase_statuses p ≡ some pass
Run-Earlier r earlier m = IsInProgress-Earlier (Run-IsInProgress r) earlier m
