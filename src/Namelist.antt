-- ===== src/Namelist.antt =====
-- scripts/lib/CIME/namelist.py: Fortran namelists.
pub mod Regex
pub mod Literals
pub mod Names
pub mod Parser
pub mod Object
pub mod Tests
