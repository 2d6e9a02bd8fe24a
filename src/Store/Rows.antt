-- ===== src/Store/Rows.antt =====
-- The rows of the three tables and their conversions: `map_project` to `path_to_string` of
-- crates/hitch-store/src/lib.rs. An id column holds the UUID's value, and a table is keyed by it;
-- the text form that `id_to_string` and `parse_uuid` go through is the `uuid` crate's.
use Prim.Native.String.{String}
use hitch.Prelude.{ℕ, Bool, true, false, not, Bytes, ◌==◌, if◌then◌else◌, Result, ok, err, ◌>>=◌}
use hitch.Prelude.Text.{Text, codes, text_eq}
use hitch.Core.Domain.{
  Project, ProjectId, ProjectKind, git_backed, plain, Worktree, WorktreeId, Session, SessionId,
  SessionParent, worktree, project, PathBuf, utf8, other,
}

pub data EntityKind : Type 0 where
  a_project a_worktree a_session : EntityKind

-- `sqlite` is a violated constraint; the other cases are the source's, less the UUID's.
pub data StoreError : Type 0 where
  sqlite : StoreError
  unsupported_schema_version : ℕ → ℕ → StoreError
  not_found : EntityKind → StoreError
  invalid_project_kind : Text → StoreError
  invalid_session_parent_kind : Text → StoreError
  invalid_session_parent : SessionParent → StoreError
  invalid_path_encoding : PathBuf → StoreError

-- `EntityKind::as_str`.
abbrev pub as_str : EntityKind → String
as_str a_project = "project"
as_str a_worktree = "worktree"
as_str a_session = "session"

abbrev pub project_kind_git_backed : Text
project_kind_git_backed = codes "git-backed"

abbrev pub project_kind_plain : Text
project_kind_plain = codes "plain"

abbrev pub session_parent_worktree : Text
session_parent_worktree = codes "worktree"

abbrev pub session_parent_project : Text
session_parent_project = codes "project"

pub record ProjectRow : Type 0 where
  pub name : String
  pub root : String
  pub kind : Text

pub record WorktreeRow : Type 0 where
  pub project_id : ProjectId
  pub path : String
  pub branch : String
  pub is_main : ℕ
  pub is_hitch_managed : ℕ

pub record SessionRow : Type 0 where
  pub name : String
  pub parent_kind : Text
  pub parent_id : ℕ
  pub cwd : String
  pub scrollback : Bytes

abbrev pub bool_to_i64 : Bool → ℕ
bool_to_i64 true = 1
bool_to_i64 false = 0

abbrev pub path_to_string : PathBuf → Result StoreError String
path_to_string (utf8 s) = ok s
path_to_string (other bytes) = err (invalid_path_encoding (other bytes))

abbrev pub project_kind_to_db : ProjectKind → Text
project_kind_to_db git_backed = project_kind_git_backed
project_kind_to_db plain = project_kind_plain

unfoldable pub project_kind_from_db : Text → Result StoreError ProjectKind
project_kind_from_db kind =
    if text_eq kind project_kind_git_backed
    then ok git_backed
    else if text_eq kind project_kind_plain
    then ok plain
    else err (invalid_project_kind kind)

abbrev pub session_parent_to_db : SessionParent → Text × ℕ
session_parent_to_db (worktree id) = (session_parent_worktree, id)
session_parent_to_db (project id) = (session_parent_project, id)

unfoldable pub session_parent_from_db : Text → ℕ → Result StoreError SessionParent
session_parent_from_db kind id =
    if text_eq kind session_parent_worktree
    then ok (worktree id)
    else if text_eq kind session_parent_project
    then ok (project id)
    else err (invalid_session_parent_kind kind)

unfoldable pub map_project : ProjectId → ProjectRow → Result StoreError Project
map_project id row = do
  kind ← project_kind_from_db row.kind
  ok (record { id = id; name = row.name; root = utf8 row.root; kind = kind })

unfoldable pub map_worktree : WorktreeId → WorktreeRow → Worktree
map_worktree id row = record {
  id = id;
  project_id = row.project_id;
  path = utf8 row.path;
  branch = row.branch;
  is_main = not (row.is_main == 0);
  is_hitch_managed = not (row.is_hitch_managed == 0);
}

unfoldable pub map_session : SessionId → SessionRow → Result StoreError Session
map_session id row = do
  parent ← session_parent_from_db row.parent_kind row.parent_id
  ok (record { id = id; name = row.name; parent = parent; cwd = utf8 row.cwd })
