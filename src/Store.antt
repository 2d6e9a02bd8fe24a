-- ===== src/Store.antt =====
-- crates/hitch-store/src/lib.rs: the tables of projects, worktrees and sessions. SQLite itself is
-- not the repository's: the model executes the statements that the file spells out, on tables of
-- rows, with the constraints of the schema; other failures of SQLite are left out.
pub mod Rows
pub mod Tables
pub mod Consistent
pub mod RoundTrip
pub mod Layout
pub mod Migration
