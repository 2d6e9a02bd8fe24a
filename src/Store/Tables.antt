-- ===== src/Store/Tables.antt =====
-- `Store` of crates/hitch-store/src/lib.rs: its statements and its operations. An operation is given
-- the store and returns it with its result; `rows` of an UPDATE or a DELETE is whether the id was
-- found, as an id is a primary key.
use hitch.Prelude.{
  ℕ, Bool, not, ◌&&◌, Option, none, some, List, [], ◌∷◌, Bytes, ◌==◌, if◌then◌else◌, is_some,
  Result, map_ok, ok, err, ◌>>=◌, ◌>>◌,
}
use hitch.Prelude.Text.{Text, text_eq}
use mathlib.Core.Option
use hitch.Prelude.Assoc.{Assoc, get, insert, remove, retain, contains_key}
use hitch.Core.Domain.{
  Project, ProjectId, Worktree, WorktreeId, Session, SessionId, SessionParent, worktree, project,
}
use hitch.Store.Rows.{
  EntityKind, StoreError, session_parent_worktree, session_parent_project, ProjectRow, WorktreeRow,
  SessionRow, bool_to_i64, path_to_string, project_kind_to_db, session_parent_to_db, map_project,
  map_worktree, map_session, a_project, a_worktree, a_session, sqlite, not_found,
  invalid_session_parent,
}

pub record Store : Type 0 where
  pub projects : Assoc ProjectRow
  pub worktrees : Assoc WorktreeRow
  pub sessions : Assoc SessionRow

abbrev pub empty : Store
empty = record { projects = []; worktrees = []; sessions = [] }

abbrev pub Outcome : Type 0
Outcome = Store × Result StoreError Unit

abbrev pub ensure_changed : Bool → EntityKind → Result StoreError Unit
ensure_changed changed kind = if changed then ok tt else err (not_found kind)

-- What a statement that fails before it starts leaves: the store as it was.
abbrev pub commit : Store → Result StoreError Outcome → Outcome
commit s (ok outcome) = outcome
commit s (err e) = (s, err e)

unfoldable pub project_row : Project → Result StoreError ProjectRow
project_row p = do
  root ← path_to_string p.root
  ok (record { name = p.name; root = root; kind = project_kind_to_db p.kind })

-- A primary key that is taken violates its constraint.
unfoldable pub insert_project : Project → Store → Outcome
insert_project p s = commit s (do
  row ← project_row p
  if contains_key p.id s.projects then err sqlite else ok tt
  ok (record s { projects = insert p.id row s.projects }, ok tt))

unfoldable pub update_project : Project → Store → Outcome
update_project p s = commit s (do
  row ← project_row p
  let found = contains_key p.id s.projects
  let projects = if found then insert p.id row s.projects else s.projects
  ok (record s { projects = projects }, ensure_changed found a_project))

-- `WHERE parent_kind = ?1 AND parent_id = ?2`.
unfoldable pub is_child : Text → ℕ → SessionRow → Bool
is_child kind id row = text_eq row.parent_kind kind && row.parent_id == id

-- `DELETE FROM sessions WHERE parent_kind = ?1 AND parent_id = ?2`.
unfoldable pub delete_children : Text → ℕ → Assoc SessionRow → Assoc SessionRow
unfolding is_child
delete_children kind id sessions = retain (λ row. not (is_child kind id row)) sessions

-- `SELECT id FROM worktrees WHERE project_id = ?1`.
unfoldable pub worktree_ids : ProjectId → Assoc WorktreeRow → List WorktreeId
worktree_ids id [] = []
worktree_ids id ((key, row) ∷ m) =
    let rest = worktree_ids id m in if row.project_id == id then key ∷ rest else rest

-- The loop of `delete_project` over the project's worktrees.
unfoldable pub delete_all_children : List WorktreeId → Assoc SessionRow → Assoc SessionRow
delete_all_children [] sessions = sessions
delete_all_children (id ∷ ids) sessions =
    delete_all_children ids (delete_children session_parent_worktree id sessions)

-- The last statement cascades to the project's worktrees.
unfoldable pub delete_project : ProjectId → Store → Outcome
delete_project id s =
    let ids = worktree_ids id s.worktrees in
    let sessions = delete_all_children ids (delete_children session_parent_project id s.sessions) in
    if contains_key id s.projects
    then (
      record {
        projects = remove id s.projects;
        worktrees = retain (λ row. not (row.project_id == id)) s.worktrees;
        sessions = sessions;
      },
      ok tt,
    )
    else (record s { sessions = sessions }, err (not_found a_project))

abbrev pub optional : {A : Type 0} → Option (Result StoreError A) → Result StoreError (Option A)
optional none = ok none
optional (some r) = map_ok some r

unfoldable pub get_project : ProjectId → Store → Result StoreError (Option Project)
get_project id s = optional (Option.map (map_project id) (get id s.projects))

unfoldable pub worktree_row : Worktree → Result StoreError WorktreeRow
worktree_row w = do
  path ← path_to_string w.path
  ok (record {
    project_id = w.project_id;
    path = path;
    branch = w.branch;
    is_main = bool_to_i64 w.is_main;
    is_hitch_managed = bool_to_i64 w.is_hitch_managed;
  })

-- A key that is taken and a project that does not exist violate their constraints.
unfoldable pub insert_worktree : Worktree → Store → Outcome
insert_worktree w s = commit s (do
  row ← worktree_row w
  if contains_key w.id s.worktrees then err sqlite else ok tt
  if contains_key w.project_id s.projects then ok tt else err sqlite
  ok (record s { worktrees = insert w.id row s.worktrees }, ok tt))

unfoldable pub update_worktree : Worktree → Store → Outcome
update_worktree w s = commit s (do
  row ← worktree_row w
  if contains_key w.id s.worktrees then ok tt else err (not_found a_worktree)
  if contains_key w.project_id s.projects then ok tt else err sqlite
  ok (record s { worktrees = insert w.id row s.worktrees }, ok tt))

unfoldable pub delete_worktree : WorktreeId → Store → Outcome
delete_worktree id s = (
  record s {
    worktrees = remove id s.worktrees;
    sessions = delete_children session_parent_worktree id s.sessions;
  },
  ensure_changed (contains_key id s.worktrees) a_worktree,
)

unfoldable pub get_worktree : WorktreeId → Store → Result StoreError (Option Worktree)
get_worktree id s = ok (Option.map (map_worktree id) (get id s.worktrees))

abbrev pub parent_exists : SessionParent → Store → Bool
parent_exists (worktree id) s = contains_key id s.worktrees
parent_exists (project id) s = contains_key id s.projects

unfoldable pub ensure_session_parent_exists : SessionParent → Store → Result StoreError Unit
ensure_session_parent_exists parent s =
    if parent_exists parent s then ok tt else err (invalid_session_parent parent)

-- The row with the scrollback that it is to have.
unfoldable pub session_row : Session → Bytes → Result StoreError SessionRow
session_row x scrollback = do
  cwd ← path_to_string x.cwd
  let (parent_kind, parent_id) = session_parent_to_db x.parent
  ok (record {
    name = x.name;
    parent_kind = parent_kind;
    parent_id = parent_id;
    cwd = cwd;
    scrollback = scrollback;
  })

unfoldable pub insert_session : Session → Store → Outcome
insert_session x s = commit s (do
  ensure_session_parent_exists x.parent s
  row ← session_row x []
  if contains_key x.id s.sessions then err sqlite else ok tt
  ok (record s { sessions = insert x.id row s.sessions }, ok tt))

abbrev pub scrollback_of : Option SessionRow → Bytes
scrollback_of none = []
scrollback_of (some row) = row.scrollback

unfoldable pub update_session : Session → Store → Outcome
update_session x s = commit s (do
  ensure_session_parent_exists x.parent s
  row ← session_row x (scrollback_of (get x.id s.sessions))
  let found = contains_key x.id s.sessions
  let sessions = if found then insert x.id row s.sessions else s.sessions
  ok (record s { sessions = sessions }, ensure_changed found a_session))

unfoldable pub delete_session : SessionId → Store → Outcome
delete_session id s = (
  record s { sessions = remove id s.sessions },
  ensure_changed (contains_key id s.sessions) a_session,
)

unfoldable pub get_session : SessionId → Store → Result StoreError (Option Session)
get_session id s = optional (Option.map (map_session id) (get id s.sessions))

abbrev pub set_scrollback :
    SessionId → Bytes → Assoc SessionRow → Option SessionRow → Assoc SessionRow
set_scrollback id bytes sessions none = sessions
set_scrollback id bytes sessions (some row) = insert id (record row { scrollback = bytes }) sessions

unfoldable pub save_scrollback : SessionId → Bytes → Store → Outcome
save_scrollback id bytes s =
    let found = get id s.sessions in
    (
      record s { sessions = set_scrollback id bytes s.sessions found },
      ensure_changed (is_some found) a_session,
    )

unfoldable pub load_scrollback : SessionId → Store → Result StoreError (Option Bytes)
load_scrollback id s = ok (Option.map (λ row. row.scrollback) (get id s.sessions))
