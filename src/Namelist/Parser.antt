-- ===== src/Namelist/Parser.antt =====
-- scripts/lib/CIME/namelist.py: the class _NamelistParser.
pub mod Cursor
pub mod Lexemes
pub mod Position
pub mod Leads
pub mod Skips
pub mod Reads
pub mod Bounded
pub mod Total
pub mod Scan
pub mod Values
pub mod Groups
pub mod Tests
