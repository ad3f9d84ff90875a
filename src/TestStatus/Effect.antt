-- ===== src/TestStatus/Effect.antt =====
-- What `set_status` is to do, stated by tables of the phases and not by the lists of
-- scripts/lib/CIME/test_status.py, their indices and their slices; and that the method does it.
use cime.Common.{
  ℕ, Text, ◌≡◌, refl, Bool, true, false, ◌&&◌, Option, none, some, [], ok, ◌==◌, nat_eq,
  if◌then◌else◌, ltb, arith, Bool-cases, inl, inr, ◌∙◌,
}
use cime.Common.Dict.{lookup}
use cime.TestStatus.Phase.{
  Status, Phase, pend, pass, create_newcase, xml, setup, namelist, sharedlib_build, model_build,
  submit, run, throughput, memcomp, memleak, starchive, baseline, generate, compare, other, is_core,
  is_compare, is_pass, is_pend, next_core, phases_after, phase_beq, phase_eq,
}
use cime.TestStatus.State.{
  Entry, Phases, TestStatus, get_status, present_not_pend, reran_phase, set_status,
}
use cime.TestStatus.Entries.{
  drops, any_drops, pends, entry_after, accepts-set_status, lookup-next_phases,
}

-- How far a test has come with a phase; every COMPARE phase has the same place.
stage : Phase → ℕ
stage create_newcase = 1
stage xml = 2
stage setup = 3
stage namelist = 4
stage sharedlib_build = 5
stage model_build = 6
stage submit = 7
stage run = 8
stage (compare s) = 9
stage baseline = 10
stage throughput = 11
stage memcomp = 12
stage memleak = 13
stage starchive = 14
stage generate = 15
stage (other s) = 0

-- The phases that every test goes through.
in_core : Phase → Bool
in_core create_newcase = true
in_core xml = true
in_core setup = true
in_core sharedlib_build = true
in_core model_build = true
in_core submit = true
in_core run = true
in_core _ = false

-- The second phase is the one that a test goes through right after the first.
follows : Phase → Phase → Bool
follows create_newcase xml = true
follows xml setup = true
follows setup sharedlib_build = true
follows sharedlib_build model_build = true
follows model_build submit = true
follows submit run = true
follows _ _ = false

passes : Status → Bool
passes pass = true
passes _ = false

-- The entry of a phase that has been carried out, with success or not.
has_run : Option Entry → Bool
has_run none = false
has_run (some (pend, c)) = false
has_run (some (_, c)) = true

-- What `set_status` is to leave for `q`. A core phase that passes makes the next one pending; the
-- phase itself gets what is set; a core phase that is carried out again takes with it all that
-- comes later in the test; anything else stays.
unfoldable pub entry_due : Phases → Phase → Status → Text → Phase → Option Entry
unfolding passes follows in_core stage has_run
entry_due d phase status comments q =
    if passes status && follows phase q
    then some (pend, [])
    else if phase == q
    then some (status, comments)
    else if in_core phase && has_run (lookup phase d) && ltb (stage phase) (stage q)
    then none
    else lookup q d

core_lem : (p : Phase) → is_core p ≡ in_core p
unfolding is_core in_core phase_beq
core_lem create_newcase = refl
core_lem _ = refl

passes_lem : (s : Status) → is_pass s ≡ passes s
unfolding is_pass passes
passes_lem pass = refl
passes_lem _ = refl

has_run_lem :
    (e : Option Entry) → present_not_pend (elim e [ none ↦ none | some x ↦ some x.0 ]) ≡ has_run e
unfolding present_not_pend has_run is_pend
has_run_lem none = refl
has_run_lem (some (pend, c)) = refl
has_run_lem (some (_, c)) = refl

reran_phase_lem : (d : Phases) (p : Phase) → reran_phase d p ≡ (in_core p && has_run (lookup p d))
unfolding reran_phase get_status
reran_phase_lem d p = ground (arith, core_lem p, has_run_lem (lookup p d))

follows_lem : (p q : Phase) (s : Status) → pends p s q ≡ (passes s && follows p q)
unfolding pends next_core follows phase_beq
follows_lem create_newcase xml s = ground (arith, passes_lem s)
follows_lem xml setup s = ground (arith, passes_lem s)
follows_lem setup sharedlib_build s = ground (arith, passes_lem s)
follows_lem sharedlib_build model_build s = ground (arith, passes_lem s)
follows_lem model_build submit s = ground (arith, passes_lem s)
follows_lem submit run s = ground (arith, passes_lem s)
follows_lem run create_newcase s = ground (arith, passes_lem s)
follows_lem _ _ s = ground (arith, passes_lem s)

stage_lem :
    (p q : Phase) → in_core p ≡ true → any_drops (phases_after p) q ≡ ltb (stage p) (stage q)
unfolding in_core any_drops drops phases_after phase_beq is_compare stage
stage_lem create_newcase xml h = refl
stage_lem xml setup h = refl
stage_lem setup sharedlib_build h = refl
stage_lem sharedlib_build model_build h = refl
stage_lem model_build submit h = refl
stage_lem submit run h = refl
stage_lem run create_newcase h = refl
stage_lem _ _ h = ground arith

entry_after-due :
    (d : Phases) (phase : Phase) (status : Status) (comments : Text) (q : Phase)
    → entry_after d phase status comments q ≡ entry_due d phase status comments q
unfolding entry_after entry_due
entry_after-due d phase status comments q = elim (Bool-cases (in_core phase)) [
  | inl c ↦ ground (arith, follows_lem phase q status, reran_phase_lem d phase, stage_lem phase q c)
  | inr c ↦ ground (arith, follows_lem phase q status, reran_phase_lem d phase)
]

-- After a call of `set_status` that succeeds, every phase `q` has the entry that is due to it: PEND
-- without comments if the call sets PASS for a core phase and `q` is the core phase after it; else,
-- for the phase of the call, the status and comments given; else none, if the phase of the call is a
-- core phase whose entry was not PEND (so that it is carried out again) and `q` comes later in the
-- order of the phases, in which every COMPARE phase has the same place; else its entry from before
-- the call. The test's name and the two flags of the object have not changed.
pub lookup-set_status :
    (ts ts' : TestStatus) (phase : Phase) (status : Status) (comments : Text) (q : Phase)
    → set_status ts phase status comments ≡ ok ts'
    → (lookup q ts'.phase_statuses ≡ entry_due ts.phase_statuses phase status comments q)
      × (ts'.test_name ≡ ts.test_name)
      × (ts'.ok_to_modify ≡ ts.ok_to_modify)
      × (ts'.no_io ≡ ts.no_io)
lookup-set_status ts ts' phase status comments q h =
    let (fits, e) = accepts-set_status ts ts' phase status comments h in
    rw e (
      lookup-next_phases ts.phase_statuses phase status comments q
          ∙ entry_after-due ts.phase_statuses phase status comments q,
      refl,
      refl,
      refl,
    )
