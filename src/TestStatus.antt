-- ===== src/TestStatus.antt =====
-- scripts/lib/CIME/test_status.py: the phases of a test and the class TestStatus.
pub mod Phase
pub mod State
pub mod Entries
pub mod Effect
pub mod Progress
pub mod Overall
pub mod Verdict
pub mod Frontier
pub mod File
pub mod RoundTrip
pub mod Kept
mod Tests
