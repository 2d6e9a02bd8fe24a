-- ===== src/Store/Consistent.antt =====
-- The references between the tables of the store, which its schema and its operations keep.
pub mod Preserved
pub mod Deletes
pub mod Runs
use hitch.Prelude.{◌≡◌, ◌⊎◌, true, List, [], ◌∷◌, Bytes, All}
use hitch.Prelude.Assoc.{Assoc, insert, remove, retain, contains_key}
use hitch.Core.Domain.{Project, ProjectId, Worktree, WorktreeId, Session, SessionId}
use hitch.Store.Rows.{
  ProjectRow, project_kind_git_backed, project_kind_plain, SessionRow, session_parent_worktree,
  session_parent_project,
}
use hitch.Store.Tables.{Store, Outcome}
use hitch.Store.Tables

-- An operation that changes the store.
pub data StoreOp : Type 0 where
  insert_project update_project : Project → StoreOp
  delete_project : ProjectId → StoreOp
  insert_worktree update_worktree : Worktree → StoreOp
  delete_worktree : WorktreeId → StoreOp
  insert_session update_session : Session → StoreOp
  delete_session : SessionId → StoreOp
  save_scrollback : SessionId → Bytes → StoreOp

abbrev pub apply : StoreOp → Store → Outcome
apply (insert_project p) s = Tables.insert_project p s
apply (update_project p) s = Tables.update_project p s
apply (delete_project id) s = Tables.delete_project id s
apply (insert_worktree w) s = Tables.insert_worktree w s
apply (update_worktree w) s = Tables.update_worktree w s
apply (delete_worktree id) s = Tables.delete_worktree id s
apply (insert_session x) s = Tables.insert_session x s
apply (update_session x) s = Tables.update_session x s
apply (delete_session id) s = Tables.delete_session id s
apply (save_scrollback id bytes) s = Tables.save_scrollback id bytes s

abbrev pub run : List StoreOp → Store → Store
run [] s = s
run (op ∷ ops) s = run ops (apply op s).0

-- The row's parent is a row of the table that the row names.
unfoldable pub HasParent : Store → SessionRow → Type 0
HasParent s row =
    ((row.parent_kind ≡ session_parent_worktree) × (contains_key row.parent_id s.worktrees ≡ true))
    ⊎ ((row.parent_kind ≡ session_parent_project) × (contains_key row.parent_id s.projects ≡ true))

-- The schema's check on the kind of a project.
unfoldable pub HasKind : ProjectRow → Type 0
HasKind row = (row.kind ≡ project_kind_git_backed) ⊎ (row.kind ≡ project_kind_plain)

pub record IsConsistent (s : Store) : Type 0 where
  pub kinds : All (λ entry. HasKind entry.1) s.projects
  pub worktrees : All (λ entry. contains_key entry.1.project_id s.projects ≡ true) s.worktrees
  pub sessions : All (λ entry. HasParent s entry.1) s.sessions
