-- ===== src/Store/Migration.antt =====
-- `migrate` and `schema_version` of crates/hitch-store/src/lib.rs. A database is empty, has the
-- tables of version 1, whose worktrees lack the last column, has those of version 2, or is of a newer
-- version, which the program cannot read.
pub mod Upgrades
use hitch.Prelude.{ℕ, ◌+◌, [], ◌∷◌, ltb, ◌==◌, if◌then◌else◌, Result, ok, err}
use Prim.Native.String.{String}
use hitch.Prelude.Assoc.{Assoc}
use hitch.Core.Domain.{ProjectId}
use hitch.Store.Rows.{ProjectRow, WorktreeRow, SessionRow, StoreError, unsupported_schema_version}
use hitch.Store.Tables.{Store, empty}

abbrev pub supported_version : ℕ
supported_version = 2

pub record OldWorktreeRow : Type 0 where
  pub project_id : ProjectId
  pub path : String
  pub branch : String
  pub is_main : ℕ

pub data Database : Type 0 where
  blank : Database
  version_one : Assoc ProjectRow → Assoc OldWorktreeRow → Assoc SessionRow → Database
  version_two : Store → Database
  newer : ℕ → Database

-- `PRAGMA user_version`; a newer one is this much above the supported one.
abbrev pub schema_version : Database → ℕ
schema_version blank = 0
schema_version (version_one projects worktrees sessions) = 1
schema_version (version_two s) = 2
schema_version (newer n) = 3 + n

abbrev with_column : OldWorktreeRow → WorktreeRow
with_column row = record {
  project_id = row.project_id;
  path = row.path;
  branch = row.branch;
  is_main = row.is_main;
  is_hitch_managed = 0;
}

-- `ADD COLUMN is_hitch_managed … DEFAULT 0`
unfoldable pub add_column : Assoc OldWorktreeRow → Assoc WorktreeRow
add_column [] = []
add_column ((id, row) ∷ m) = (id, with_column row) ∷ add_column m

-- `SET is_hitch_managed = 1 WHERE is_main = 0`
unfoldable pub set_managed : Assoc WorktreeRow → Assoc WorktreeRow
set_managed [] = []
set_managed ((id, row) ∷ m) =
    let rest = set_managed m in
    if row.is_main == 0 then (id, record row { is_hitch_managed = 1 }) ∷ rest else (id, row) ∷ rest

-- The statements for a version below 1, and those for version 1.
abbrev pub create_tables : Database → Database
create_tables blank = version_two empty
create_tables (version_one projects worktrees sessions) = version_one projects worktrees sessions
create_tables (version_two s) = version_two s
create_tables (newer n) = newer n

unfoldable pub alter_tables : Database → Database
alter_tables blank = blank
alter_tables (version_one projects worktrees sessions) = version_two (record {
  projects = projects;
  worktrees = set_managed (add_column worktrees);
  sessions = sessions;
})
alter_tables (version_two s) = version_two s
alter_tables (newer n) = newer n

unfoldable pub migrate : Database → Database × Result StoreError Unit
unfolding alter_tables
migrate db =
    let version = schema_version db in
    if ltb supported_version version
    then (db, err (unsupported_schema_version version supported_version))
    else let created = if ltb version 1 then create_tables db else db in
      (if version == 1 then alter_tables created else created, ok tt)
