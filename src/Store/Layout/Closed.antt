-- ===== src/Store/Layout/Closed.antt =====
-- The layout that a restarted daemon loads is whole.
use hitch.Prelude.{
  ℕ, ◌≡◌, refl, sym, ap, ◌∙◌, inl, inr, Bool, true, List, ◌==◌, All, All-map, ok-ne-err,
  ok-injective, Result-cases, ok,
}
use hitch.Prelude.Text.{text_eq}
use hitch.Prelude.Assoc.{contains_key}
use hitch.Core.Domain.{
  Project, git_backed, plain, Worktree, Session, SessionParent, worktree, project, utf8,
}
use hitch.Store.Rows.{
  ProjectRow, WorktreeRow, SessionRow, map_project, map_worktree, map_session, project_kind_from_db,
  session_parent_from_db,
}
use hitch.Store.Tables.{Store, parent_exists}
use hitch.Store.Consistent.{IsConsistent, HasParent, HasKind}
use hitch.Store.Layout.{
  StoredLayout, order_by, project_before, any_worktree_before, any_session_before, read_project,
  read_worktree, read_session, list_projects, list_all_worktrees, list_sessions, load_layout,
}
use hitch.Store.Layout.Sorting.{
  order_by-All, order_by-any, any, contains_key-any, collect-Collected, collect-any,
}

abbrev pub has_project : ℕ → List Project → Bool
has_project k = any (λ p. p.id == k)

abbrev pub has_worktree : ℕ → List Worktree → Bool
has_worktree k = any (λ w. w.id == k)

-- The parent is an element of the layout.
abbrev pub has_parent : StoredLayout → SessionParent → Bool
has_parent layout (worktree id) = has_worktree id layout.worktrees
has_parent layout (project id) = has_project id layout.projects

read_project-HasKind :
    (entry : ℕ × ProjectRow)
    → HasKind entry.1
    → (p : Project) × (read_project entry ≡ ok p) × Unit {0}
unfolding read_project map_project project_kind_from_db text_eq HasKind
read_project-HasKind (id, row) (inl kind) =
    (record { id = id; name = row.name; root = utf8 row.root; kind = git_backed }, rw kind refl, tt)
read_project-HasKind (id, row) (inr kind) =
    (record { id = id; name = row.name; root = utf8 row.root; kind = plain }, rw kind refl, tt)

read_session-HasParent :
    (s : Store) (entry : ℕ × SessionRow)
    → HasParent s entry.1
    → (x : Session) × (read_session entry ≡ ok x) × (parent_exists x.parent s ≡ true)
unfolding read_session map_session session_parent_from_db text_eq HasParent
read_session-HasParent s (id, row) (inl (kind, there)) = (
  record { id = id; name = row.name; parent = worktree row.parent_id; cwd = utf8 row.cwd },
  rw kind refl,
  there,
)
read_session-HasParent s (id, row) (inr (kind, there)) = (
  record { id = id; name = row.name; parent = project row.parent_id; cwd = utf8 row.cwd },
  rw kind refl,
  there,
)

read_project-id :
    (k : ℕ) (entry : ℕ × ProjectRow) (p : Project)
    → read_project entry ≡ ok p
    → (entry.0 == k) ≡ (p.id == k)
unfolding read_project map_project
read_project-id k (id, row) p e = elim (Result-cases (project_kind_from_db row.kind)) [
  | inr (bad, failed) ↦ absurd (ok-ne-err (sym (rw failed at e)))
  | inl (kind, good) ↦ ap (λ q. q.id == k) (ok-injective (rw good at e))
]

read_worktree-id :
    (k : ℕ) (entry : ℕ × WorktreeRow) (w : Worktree)
    → read_worktree entry ≡ ok w
    → (entry.0 == k) ≡ (w.id == k)
unfolding read_worktree map_worktree
read_worktree-id k (id, row) w e = ap (λ v. v.id == k) (ok-injective e)

parent_there :
    (s : Store) (layout : StoredLayout)
    → ((k : ℕ) → contains_key k s.projects ≡ has_project k layout.projects)
    → ((k : ℕ) → contains_key k s.worktrees ≡ has_worktree k layout.worktrees)
    → (parent : SessionParent) → parent_exists parent s ≡ has_parent layout parent
parent_there s layout p w (worktree id) = w id
parent_there s layout p w (project id) = p id

-- `load_layout` succeeds on a consistent store, and the layout is closed: the project of each of its
-- worktrees and the parent of each of its sessions are in the layout.
pub load_layout-closed :
    (s : Store)
    → IsConsistent s
    → (layout : StoredLayout) × (load_layout s ≡ ok layout)
      × All (λ w. has_project w.project_id layout.projects ≡ true) layout.worktrees
      × All (λ x. has_parent layout x.parent ≡ true) layout.sessions
unfolding load_layout list_projects list_all_worktrees list_sessions
load_layout-closed s c =
    let projects_read =
      collect-Collected read_project (λ _. Unit {0}) (order_by project_before s.projects)
        (order_by-All project_before _ s.projects
          (All-map _ _ read_project-HasKind s.projects c.kinds)) in
    let worktrees_read =
      collect-Collected read_worktree (λ w. contains_key w.project_id s.projects ≡ true)
        (order_by any_worktree_before s.worktrees)
        (order_by-All any_worktree_before _ s.worktrees (
          All-map _ _
            (λ entry there. (
              map_worktree entry.0 entry.1,
              unfold read_worktree in refl,
              unfold map_worktree in there,
            ))
            s.worktrees c.worktrees)) in
    let sessions_read =
      collect-Collected read_session (λ x. parent_exists x.parent s ≡ true)
        (order_by any_session_before s.sessions)
        (order_by-All any_session_before _ s.sessions
          (All-map _ _ (read_session-HasParent s) s.sessions c.sessions)) in
    let layout : StoredLayout = record {
      projects = projects_read.items;
      worktrees = worktrees_read.items;
      sessions = sessions_read.items;
    } in
    let project_there : (k : ℕ) → contains_key k s.projects ≡ has_project k projects_read.items =
      λ k.
        contains_key-any k s.projects
        ∙ sym (order_by-any project_before (λ entry. entry.0 == k) s.projects)
        ∙ collect-any read_project (λ entry. entry.0 == k) (λ p. p.id == k) (read_project-id k)
            (order_by project_before s.projects) projects_read.items projects_read.read in
    let worktree_there : (k : ℕ)
        → contains_key k s.worktrees ≡ has_worktree k worktrees_read.items =
      λ k.
        contains_key-any k s.worktrees
        ∙ sym (order_by-any any_worktree_before (λ entry. entry.0 == k) s.worktrees)
        ∙ collect-any read_worktree (λ entry. entry.0 == k) (λ w. w.id == k) (read_worktree-id k)
            (order_by any_worktree_before s.worktrees) worktrees_read.items worktrees_read.read in
    (
      layout,
      rw (projects_read.read, worktrees_read.read, sessions_read.read) refl,
      All-map _ _ (λ w there. sym (project_there w.project_id) ∙ there) worktrees_read.items
          worktrees_read.each,
      All-map _ _
          (λ x there. sym (parent_there s layout project_there worktree_there x.parent) ∙ there)
          sessions_read.items sessions_read.each,
    )
