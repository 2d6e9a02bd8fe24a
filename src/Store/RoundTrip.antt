-- ===== src/Store/RoundTrip.antt =====
-- What is put into the store is read back as it was.
use Prim.Native.String.{String}
use hitch.Prelude.{
  ℕ, ◌≡◌, refl, sym, ap, inl, inr, Bool, true, false, not, some, arith, Bytes, ◌==◌, Bool-cases,
  Option-cases, ok-ne-err, ok-injective, Result-cases, ok,
}
use hitch.Prelude.Text.{text_eq}
use hitch.Prelude.Assoc.{Assoc, get, insert, contains_key, get-insert}
use hitch.Core.Domain.{
  Project, ProjectKind, git_backed, plain, Worktree, Session, SessionParent, worktree, project,
  PathBuf, utf8, other,
}
use hitch.Store.Rows.{
  ProjectRow, WorktreeRow, SessionRow, path_to_string, project_kind_to_db, project_kind_from_db,
  session_parent_to_db, session_parent_from_db, bool_to_i64, map_project, map_worktree, map_session,
}
use hitch.Store.Tables.{
  Store, project_row, worktree_row, session_row, parent_exists, ensure_session_parent_exists,
  scrollback_of,
}
use hitch.Store.Tables

from_db-to_db : (kind : ProjectKind) → project_kind_from_db (project_kind_to_db kind) ≡ ok kind
unfolding project_kind_from_db text_eq
from_db-to_db git_backed = refl
from_db-to_db plain = refl

parent_from_db-to_db :
    (parent : SessionParent)
    → session_parent_from_db (session_parent_to_db parent).0 (session_parent_to_db parent).1
      ≡ ok parent
unfolding session_parent_from_db text_eq
parent_from_db-to_db (worktree id) = refl
parent_from_db-to_db (project id) = refl

bool_from_i64 : (b : Bool) → not (bool_to_i64 b == 0) ≡ b
bool_from_i64 true = refl
bool_from_i64 false = refl

path_back : (path : PathBuf) (s : String) → path_to_string path ≡ ok s → utf8 s ≡ path
path_back (utf8 r) s e = ap utf8 (sym (ok-injective e))
path_back (other bytes) s e = absurd (ok-ne-err (sym e))

map_project-project_row :
    (p : Project) (row : ProjectRow) → project_row p ≡ ok row → map_project p.id row ≡ ok p
unfolding project_row map_project
map_project-project_row p row e = elim (Result-cases (path_to_string p.root)) [
  | inr (bad, failed) ↦ absurd (ok-ne-err (sym (rw failed at e)))
  | inl (root, good) ↦
      rw (← ok-injective (rw good at e), from_db-to_db p.kind, path_back p.root root good) refl
]

map_worktree-worktree_row :
    (w : Worktree) (row : WorktreeRow) → worktree_row w ≡ ok row → map_worktree w.id row ≡ w
unfolding worktree_row map_worktree
map_worktree-worktree_row w row e = elim (Result-cases (path_to_string w.path)) [
  | inr (bad, failed) ↦ absurd (ok-ne-err (sym (rw failed at e)))
  | inl (path, good) ↦
      rw
        (
          ← ok-injective (rw good at e),
          bool_from_i64 w.is_main,
          bool_from_i64 w.is_hitch_managed,
          path_back w.path path good,
        )
        refl
]

map_session-session_row :
    (x : Session) (scrollback : Bytes) (row : SessionRow)
    → session_row x scrollback ≡ ok row
    → map_session x.id row ≡ ok x
unfolding session_row map_session
map_session-session_row x scrollback row e = elim (Result-cases (path_to_string x.cwd)) [
  | inr (bad, failed) ↦ absurd (ok-ne-err (sym (rw failed at e)))
  | inl (cwd, good) ↦
      rw (← ok-injective (rw good at e), parent_from_db-to_db x.parent, path_back x.cwd cwd good)
        refl
]

get_inserted : {V : Type 0} (k : ℕ) (v : V) (m : Assoc V) → get k (insert k v m) ≡ some v
get_inserted k v m = ground (arith, get-insert k k v m)

-- A project that `insert_project` accepts is read back by `get_project` with every field as it was
-- given.
pub get_project-insert_project :
    (p : Project) (s : Store)
    → (Tables.insert_project p s).1 ≡ ok tt
    → Tables.get_project p.id (Tables.insert_project p s).0 ≡ ok (some p)
unfolding Tables.insert_project Tables.get_project
get_project-insert_project p s h = elim (Result-cases (project_row p)) [
  | inr (e, bad) ↦ absurd (ok-ne-err (sym (rw bad at h)))
  | inl (row, good) ↦ elim (Bool-cases (contains_key p.id s.projects)) [
    | inl taken ↦ absurd (ok-ne-err (sym (rw (good, taken) at h)))
    | inr free ↦
        rw (good, free, get_inserted p.id row s.projects, map_project-project_row p row good) refl
  ]
]

-- A worktree that `update_worktree` accepts is read back by `get_worktree` with every field as it
-- was given.
pub get_worktree-update_worktree :
    (w : Worktree) (s : Store)
    → (Tables.update_worktree w s).1 ≡ ok tt
    → Tables.get_worktree w.id (Tables.update_worktree w s).0 ≡ ok (some w)
unfolding Tables.update_worktree Tables.get_worktree
get_worktree-update_worktree w s h = elim (Result-cases (worktree_row w)) [
  | inr (e, bad) ↦ absurd (ok-ne-err (sym (rw bad at h)))
  | inl (row, good) ↦ elim (Bool-cases (contains_key w.id s.worktrees)) [
    | inr missing ↦ absurd (ok-ne-err (sym (rw (good, missing) at h)))
    | inl found ↦ elim (Bool-cases (contains_key w.project_id s.projects)) [
      | inr orphan ↦ absurd (ok-ne-err (sym (rw (good, found, orphan) at h)))
      | inl there ↦
          rw
            (
              good,
              found,
              there,
              get_inserted w.id row s.worktrees,
              map_worktree-worktree_row w row good,
            )
            refl
    ]
  ]
]

session_row-scrollback :
    (x : Session) (scrollback : Bytes) (row : SessionRow)
    → session_row x scrollback ≡ ok row
    → row.scrollback ≡ scrollback
unfolding session_row
session_row-scrollback x scrollback row e = elim (Result-cases (path_to_string x.cwd)) [
  | inr (bad, failed) ↦ absurd (ok-ne-err (sym (rw failed at e)))
  | inl (cwd, good) ↦ ap (λ r. r.scrollback) (sym (ok-injective (rw good at e)))
]

-- A session that `update_session` accepts is read back by `get_session` with every field as it was
-- given, and its scrollback snapshot is the one from before.
pub get_session-update_session :
    (x : Session) (s : Store)
    → (Tables.update_session x s).1 ≡ ok tt
    → (Tables.get_session x.id (Tables.update_session x s).0 ≡ ok (some x))
      × (Tables.load_scrollback x.id (Tables.update_session x s).0 ≡ Tables.load_scrollback x.id s)
unfolding Tables.update_session Tables.get_session Tables.load_scrollback
    ensure_session_parent_exists
get_session-update_session x s h = elim (Bool-cases (parent_exists x.parent s)) [
  | inr orphan ↦ absurd (ok-ne-err (sym (rw orphan at h)))
  | inl there ↦ elim (Result-cases (session_row x (scrollback_of (get x.id s.sessions)))) [
    | inr (e, bad) ↦ absurd (ok-ne-err (sym (rw (there, bad) at h)))
    | inl (row, good) ↦ elim (Option-cases (get x.id s.sessions)) [
      | inl missing ↦ absurd (ok-ne-err (sym (rw (there, good, missing) at h)))
      | inr (old, found) ↦
          let put = get_inserted x.id row s.sessions in
          let kept = session_row-scrollback x _ row good in
          (
            rw (there, good, found, put, map_session-session_row x _ row good) refl,
            rw (there, good, found, put, kept, found) refl,
          )
    ]
  ]
]
