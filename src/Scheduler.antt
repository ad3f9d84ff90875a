-- ===== src/Scheduler.antt =====
-- scripts/lib/CIME/test_scheduler.py: the class TestScheduler, which takes the tests through their
-- phases in threads.
pub mod State
pub mod Threads
pub mod Procs
mod Transition
pub mod Launch
pub mod Steps
pub mod Balance
pub mod Entries
pub mod Flight
pub mod Pending
mod Order
mod Reached
mod NoRaise
mod Producer
mod Consumer
mod Manned
mod Advance
mod Groups
mod Setup
mod Abort
mod Rounds
mod Potential
mod Bound
mod Exit
mod Leave
mod Tests
