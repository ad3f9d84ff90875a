-- ===== src/Aprun/Tests.antt =====
-- The doctests of scripts/lib/CIME/aprun.py, and the theorem at the first of them.
use cime.Common.{ℕ, ◌≡◌, refl, false, List, [], ◌∷◌, ok, err}
use cime.Aprun.{
  Component, zero_division, Layout, Limits, larger, lesser, total_tasks, add_pio, zeros, raise_at,
  raise_tasks, raise_all, at_least_one, tasks_on_node, nodes_for, add_section, lay_out, lay_out_all,
  aprun,
}

program : Unit {0}
unfolding larger lesser total_tasks add_pio zeros raise_at raise_tasks raise_all at_least_one
    tasks_on_node nodes_for add_section lay_out lay_out_all aprun
program = tt

abbrev titan : Limits
titan = record { max_tasks_per_node = 16; max_mpitasks_per_node = 16 }

abbrev component : ℕ → ℕ → ℕ → Component
component ntask nthrd rootpe = record { ntask = ntask; nthrd = nthrd; rootpe = rootpe; pstrid = 1 }

-- The second doctest, with 8 tasks where it has 64.
abbrev small_case : List Component
small_case = component 8 1 0 ∷ component 8 1 0 ∷ component 1 1 0 ∷ []

-- Two layouts side by side, as in the first doctest.
abbrev mixed_case : List Component
mixed_case = component 4 2 0 ∷ component 3 2 2 ∷ component 2 4 5 ∷ component 1 1 0 ∷ []

abbrev mixed_layout : Layout
mixed_layout = record {
  sections =
      record { task_count = 5; tasks_per_node = 5; thread_count = 2 }
      ∷ record { task_count = 2; tasks_per_node = 2; thread_count = 4 }
      ∷ [];
  total_node_count = 2;
  total_task_count = 7;
  min_tasks_per_node = 2;
  max_thread_count = 4;
}

small_run :
    aprun titan false 0 small_case
    ≡ ok (record {
      sections = record { task_count = 8; tasks_per_node = 8; thread_count = 1 } ∷ [];
      total_node_count = 1;
      total_task_count = 8;
      min_tasks_per_node = 8;
      max_thread_count = 1;
    })
unfolding program
small_run = refl

-- More threads for a task than a node has room for.
too_many_threads : aprun titan false 0 (component 1 32 0 ∷ []) ≡ err zero_division
unfolding program
too_many_threads = refl
