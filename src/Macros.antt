-- ===== src/Macros.antt =====
-- scripts/lib/CIME/BuildTools: the settings of a macro, their conditions, and the tree that is written.
pub mod Setting
pub mod Tree
mod Writer
mod Conditions
mod Partition
mod Effects
mod Meaning
mod Choice
mod Sound
mod Weigh
mod Applied
mod Ambiguity
mod Unambiguous
mod Specific
mod Selected
pub mod Values
mod Relevant
mod Checked
pub mod Merge
mod Weight
mod Merged
mod Tidy
mod Joined
mod Tests
