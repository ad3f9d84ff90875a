-- ===== src/Scheduler/Setup.antt =====
-- scripts/lib/CIME/test_scheduler.py, the constructor of TestScheduler: what it derives from its
-- arguments and from the machine. `shared_groups` is what get_build_groups returns for a test suite.
use cime.Common.{
  ℕ, ◌+◌, ◌*◌, ◌/◌, ◌≡◌, refl, Text, Bool, false, ◌||◌, not, Option, none, some, List,
  if◌then◌else◌, ltb,
}
use cime.Scheduler.State.{Env, steps_for}
use cime.Scheduler.Pending.{IsBuilt}
use cime.Scheduler.NoRaise.{IsGrouped}
use cime.Scheduler.Groups.{single_groups, single_groups-IsGrouped}

-- The arguments of the constructor.
pub record Options : Type 0 where
  pub no_setup : Bool
  pub no_build : Bool
  pub namelists_only : Bool
  pub no_run : Bool
  pub no_batch : Bool
  pub parallel_jobs : Option ℕ
  pub proc_pool : Option ℕ

-- What the constructor asks the machine and the model for.
pub record Machine : Type 0 where
  pub is_e3sm : Bool
  pub has_batch_system : Bool
  pub gmake_j : ℕ
  pub max_tasks_per_node : ℕ
  pub ntest_parallel_jobs : Option ℕ
  pub max_mpitasks_per_node : ℕ
  pub total_pes : Text → ℕ
  pub shared_groups : List Text → List (List Text)

smaller : ℕ → ℕ → ℕ
smaller a b = if ltb b a then b else a

unfoldable pub skips_build : Options → Bool
skips_build options = options.no_build || options.no_setup || options.namelists_only

unfoldable pub skips_run : Options → Bool
unfolding skips_build
skips_run options = options.no_run || skips_build options

-- self._model_build_cost
unfoldable pub build_cost : Machine → ℕ
unfolding smaller
build_cost machine = if machine.is_e3sm then smaller 16 (machine.gmake_j * 2 / 3 + 1) else 4

-- self._parallel_jobs
unfoldable pub jobs_for : Options → Machine → ℕ → ℕ
unfolding smaller
jobs_for options machine tests = elim options.parallel_jobs [
  | none ↦ elim machine.ntest_parallel_jobs [
    | none ↦ smaller tests machine.max_mpitasks_per_node
    | some jobs ↦ smaller tests jobs
  ]
  | some jobs ↦ jobs
]

-- self._proc_pool: int(pes * 1.25)
unfoldable pub pool_for : Options → Machine → ℕ
pool_for options machine = elim options.proc_pool [
  | none ↦ machine.max_tasks_per_node * 5 / 4
  | some pool ↦ pool
]

-- self._build_groups, without `single_exe`
unfoldable pub groups_for : Machine → List Text → List (List Text)
groups_for machine names =
    if machine.is_e3sm then machine.shared_groups names else single_groups names

-- `tests` is the number of test names, `names` are the keys of self._tests.
unfoldable pub make_env : Options → Machine → ℕ → List Text → Env
make_env options machine tests names = record {
  steps = steps_for options.no_setup (skips_build options) (skips_run options);
  no_run = skips_run options;
  no_batch = options.no_batch || not machine.has_batch_system;
  is_e3sm = machine.is_e3sm;
  proc_pool = pool_for options machine;
  parallel_jobs = jobs_for options machine tests;
  build_groups = groups_for machine names;
  total_pes = machine.total_pes;
}

pub make_env-IsBuilt :
    (options : Options) (machine : Machine) (tests : ℕ) (names : List Text)
    → IsBuilt (make_env options machine tests names)
unfolding make_env
make_env-IsBuilt options machine tests names = record {
  no_setup = options.no_setup;
  no_build = skips_build options;
  steps = refl;
}

pub make_env-IsGrouped :
    (options : Options) (machine : Machine) (tests : ℕ) (names : List Text)
    → machine.is_e3sm ≡ false
    → IsGrouped (make_env options machine tests names) names
unfolding make_env groups_for
make_env-IsGrouped options machine tests names alone =
    single_groups-IsGrouped (make_env options machine tests names) names (rw alone refl)
