-- ===== src/Scheduler/Groups.antt =====
-- scripts/lib/CIME/test_scheduler.py: the build groups of the constructor where no executable is
-- shared: each test is a group.
use cime.Common.{
  Text, ◌≡◌, true, some, List, [], ◌∷◌, list_eq, nat_eq, list_beq_iff, contains, arith,
}
use cime.Scheduler.State.{Env}
use cime.Scheduler.Threads.{find_group}
use cime.Scheduler.NoRaise.{IsGrouped}

-- [(item,) for item in self._tests]
unfoldable pub single_groups : List Text → List (List Text)
single_groups [] = []
single_groups (name ∷ names) = (name ∷ []) ∷ single_groups names

find_group-single_groups :
    (names : List Text) (test : Text)
    → contains names test ≡ true
    → find_group (single_groups names) test ≡ some test
unfolding find_group single_groups
find_group-single_groups [] test h = cc
find_group-single_groups (name ∷ names) test h =
    ground (arith, list_beq_iff name test, find_group-single_groups names test)

pub single_groups-IsGrouped :
    (env : Env) (names : List Text) → env.build_groups ≡ single_groups names → IsGrouped env names
single_groups-IsGrouped env names groups test listed =
    (test, rw groups (find_group-single_groups names test listed), listed)
