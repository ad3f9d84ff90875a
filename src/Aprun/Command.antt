-- ===== src/Aprun/Command.antt =====
-- scripts/lib/CIME/aprun.py: what the whole command gives to the components.
use cime.Common.{ℕ, Bool, List, nat_eq}
use cime.Aprun.{Component, Limits, total_tasks, add_pio}

abbrev tasks_of : Limits → Bool → ℕ → List Component → ℕ
tasks_of limits io pio cs = add_pio io pio limits.max_mpitasks_per_node (total_tasks 0 cs)
