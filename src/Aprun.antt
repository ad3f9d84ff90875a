-- ===== src/Aprun.antt =====
-- scripts/lib/CIME/aprun.py: _get_aprun_cmd_for_case_impl, which lays the tasks of the components of a
-- model out on nodes. A section is one part of the command: `-n task_count -N tasks_per_node
-- -d thread_count`; the text of the command is not modelled.
pub mod Sections
mod Threads
mod Command
mod Tests
use cime.Common.{
  ℕ, zero, suc, ◌+◌, ◌*◌, ◌-◌, ◌/◌, Bool, true, false, List, [], ◌∷◌, ◌++◌, map, Result, ok, err,
  expect, ◌>>=◌, ◌>>◌, if◌then◌else◌, ltb, leb, ◌==◌, nat_eq, Option, none, some,
}

-- An entry of each of `ntasks`, `nthreads`, `rootpes` and `pstrids`.
pub record Component : Type 0 where
  pub ntask : ℕ
  pub nthrd : ℕ
  pub rootpe : ℕ
  pub pstrid : ℕ

pub data Error : Type 0 where
  -- IndexError of maxt, ZeroDivisionError of the node count
  index_error zero_division : Error

unfoldable pub larger : ℕ → ℕ → ℕ
larger a b = if ltb a b then b else a

unfoldable pub lesser : ℕ → ℕ → ℕ
lesser a b = if ltb b a then b else a

-- `total_tasks`. For a component without tasks `tt` may be negative; `max` with a total that is not
-- gives the same as the subtraction that stops at 0.
unfoldable pub total_tasks : ℕ → List Component → ℕ
unfolding larger
total_tasks total [] = total
total_tasks total (c ∷ cs) =
    total_tasks (larger (c.rootpe + c.ntask * c.pstrid + 1 - c.pstrid) total) cs

-- `pio_numtasks` is 0 where the source has a number that is not positive.
unfoldable pub add_pio : Bool → ℕ → ℕ → ℕ → ℕ
add_pio pio_async_interface pio_numtasks max_mpitasks_per_node total =
    if pio_async_interface
    then total + (if ltb 0 pio_numtasks then pio_numtasks else max_mpitasks_per_node)
    else total

-- [0] * total_tasks
unfoldable pub zeros : ℕ → List ℕ
zeros zero = []
zeros (suc n) = 0 ∷ zeros n

-- if nthrd > maxt[s]: maxt[s] = nthrd
unfoldable pub raise_at : ℕ → ℕ → List ℕ → Result Error (List ℕ)
unfolding larger
raise_at s nthrd [] = err index_error
raise_at zero nthrd (t ∷ ts) = ok (larger t nthrd ∷ ts)
raise_at (suc s) nthrd (t ∷ ts) = do rest ← raise_at s nthrd ts; ok (t ∷ rest)

-- The `while` loop of a component: the first argument is how many rounds are left.
unfoldable pub raise_tasks : ℕ → ℕ → Component → List ℕ → Result Error (List ℕ)
raise_tasks zero c2 c maxt = ok maxt
raise_tasks (suc left) c2 c maxt = do
  raised ← raise_at (c.rootpe + c2 * c.pstrid) c.nthrd maxt
  raise_tasks left (suc c2) c raised

unfoldable pub raise_all : List Component → List ℕ → Result Error (List ℕ)
raise_all [] maxt = ok maxt
raise_all (c ∷ cs) maxt = do raised ← raise_tasks c.ntask 0 c maxt; raise_all cs raised

-- "make sure all maxt values at least 1"
unfoldable pub at_least_one : List ℕ → List ℕ
at_least_one [] = []
at_least_one (t ∷ ts) = (if ltb t 1 then 1 else t) ∷ at_least_one ts

pub record Section : Type 0 where
  pub task_count : ℕ
  pub tasks_per_node : ℕ
  pub thread_count : ℕ

pub record Layout : Type 0 where
  -- what is in `aprun_args`
  pub sections : List Section
  pub total_node_count : ℕ
  pub total_task_count : ℕ
  pub min_tasks_per_node : ℕ
  pub max_thread_count : ℕ

pub record Limits : Type 0 where
  pub max_tasks_per_node : ℕ
  pub max_mpitasks_per_node : ℕ

unfoldable pub tasks_on_node : Limits → ℕ → ℕ → ℕ
unfolding lesser
tasks_on_node limits task_count thread_count =
    lesser task_count
      (lesser limits.max_mpitasks_per_node (limits.max_tasks_per_node / thread_count))

-- int(math.ceil(float(task_count) / tasks_per_node))
unfoldable pub nodes_for : ℕ → ℕ → ℕ
nodes_for task_count tasks_per_node = (task_count + tasks_per_node - 1) / tasks_per_node

-- The branch of the loop that emits a section.
unfoldable pub add_section : Limits → ℕ → ℕ → Layout → Result Error Layout
unfolding lesser
add_section limits task_count thread_count l = do
  let per_node = tasks_on_node limits task_count thread_count
  expect (ltb 0 per_node) zero_division
  ok (record {
    sections =
        l.sections
        ++ record {
          task_count = task_count;
          tasks_per_node = per_node;
          thread_count = thread_count;
        }
          ∷ [];
    total_node_count = l.total_node_count + nodes_for task_count per_node;
    total_task_count = l.total_task_count + task_count;
    min_tasks_per_node =
        if ltb per_node l.min_tasks_per_node then per_node else l.min_tasks_per_node;
    max_thread_count = l.max_thread_count;
  })

-- The loop over `c1list`: the rest of maxt, then None.
unfoldable pub lay_out : Limits → ℕ → ℕ → Layout → List ℕ → Result Error Layout
unfolding larger
lay_out limits task_count thread_count l [] = add_section limits task_count thread_count l
lay_out limits task_count thread_count l (t ∷ ts) =
    let longer = lay_out limits (suc task_count) thread_count l ts in
    if t == thread_count
    then longer
    else (add_section limits task_count thread_count l >>= (λ l'.
        lay_out limits 1 t (record l' { max_thread_count = larger l'.max_thread_count t }) ts))

unfoldable pub lay_out_all : Limits → List ℕ → Result Error Layout
lay_out_all limits [] = err index_error
lay_out_all limits (t ∷ ts) =
    lay_out limits 1 t
      (record {
        sections = [];
        total_node_count = 0;
        total_task_count = 0;
        min_tasks_per_node = limits.max_mpitasks_per_node;
        max_thread_count = t;
      })
      ts

-- _get_aprun_cmd_for_case_impl
unfoldable pub aprun : Limits → Bool → ℕ → List Component → Result Error Layout
aprun limits pio_async_interface pio_numtasks components = do
  let nodes =
      (let n : Limits = record limits {
        max_tasks_per_node =
            if ltb limits.max_tasks_per_node 1 then 1 else limits.max_tasks_per_node;
      } in
        n)
  let total =
      add_pio pio_async_interface pio_numtasks limits.max_mpitasks_per_node
        (total_tasks 0 components)
  maxt ← raise_all components (zeros total)
  lay_out_all nodes (at_least_one maxt)
