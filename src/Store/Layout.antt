-- ===== src/Store/Layout.antt =====
-- The reads of crates/hitch-store/src/lib.rs that list rows: `list_projects`, `list_worktrees`,
-- `list_all_worktrees`, `list_sessions` and `load_layout`. A text column is ordered by its code
-- points, as its UTF-8 bytes are, and an id column by the value, as the text of a UUID is.
pub mod Sorting
pub mod Closed
use Prim.Native.String.{String}
use hitch.Prelude.{
  ℕ, Bool, true, false, Option, none, some, List, [], ◌∷◌, ltb, ◌==◌, if◌then◌else◌, Result, ok,
  ◌>>=◌, ◌>>◌,
}
use hitch.Prelude.Text.{Text, codes, text_eq}
use hitch.Prelude.Assoc.{Assoc}
use hitch.Core.Domain.{Project, ProjectId, Worktree, Session, SessionParent}
use hitch.Store.Rows.{
  ProjectRow, WorktreeRow, SessionRow, StoreError, map_project, map_worktree, map_session,
  session_parent_to_db,
}
use hitch.Store.Tables.{Store, is_child}

pub record StoredLayout : Type 0 where
  pub projects : List Project
  pub worktrees : List Worktree
  pub sessions : List Session

-- One column before the next: less, or equal and then `later`.
unfoldable pub text_before : Text → Text → Bool → Bool
text_before [] [] later = later
text_before [] (d ∷ ds) later = true
text_before (c ∷ cs) [] later = false
text_before (c ∷ cs) (d ∷ ds) later =
    let rest = text_before cs ds later in if c == d then rest else ltb c d

abbrev pub number_before : ℕ → ℕ → Bool → Bool
number_before a b later = if a == b then later else ltb a b

-- `ORDER BY`, with the rows of equal keys as they stand.
unfoldable pub put_in : {A : Type 0} → (A → A → Bool) → A → List A → List A
put_in before x [] = x ∷ []
put_in before x (y ∷ ys) =
    let later = y ∷ put_in before x ys in if before y x then later else x ∷ (y ∷ ys)

unfoldable pub order_by : {A : Type 0} → (A → A → Bool) → List A → List A
unfolding put_in
order_by before [] = []
order_by before (x ∷ xs) = put_in before x (order_by before xs)

-- `ORDER BY name, id`
unfoldable pub project_before : ℕ × ProjectRow → ℕ × ProjectRow → Bool
project_before (i, r) (j, s) = text_before (codes r.name) (codes s.name) (ltb i j)

-- `ORDER BY is_main DESC, branch, id`
unfoldable pub worktree_before : ℕ × WorktreeRow → ℕ × WorktreeRow → Bool
worktree_before (i, r) (j, s) =
    number_before s.is_main r.is_main (text_before (codes r.branch) (codes s.branch) (ltb i j))

-- `ORDER BY project_id, is_main DESC, branch, id`
unfoldable pub any_worktree_before : ℕ × WorktreeRow → ℕ × WorktreeRow → Bool
any_worktree_before a b = number_before a.1.project_id b.1.project_id (worktree_before a b)

-- `ORDER BY name, id`
unfoldable pub session_before : ℕ × SessionRow → ℕ × SessionRow → Bool
session_before (i, r) (j, s) = text_before (codes r.name) (codes s.name) (ltb i j)

-- `ORDER BY parent_kind, parent_id, name, id`
unfoldable pub any_session_before : ℕ × SessionRow → ℕ × SessionRow → Bool
any_session_before a b =
    text_before a.1.parent_kind b.1.parent_kind
      (number_before a.1.parent_id b.1.parent_id (session_before a b))

-- `WHERE`
unfoldable pub select : {A : Type 0} → (A → Bool) → List A → List A
select p [] = []
select p (x ∷ xs) = let rest = select p xs in if p x then x ∷ rest else rest

-- `query_map(…)?.collect::<Result<Vec<_>, _>>()`
unfoldable pub collect :
    {A B : Type 0} → (A → Result StoreError B) → List A → Result StoreError (List B)
collect f [] = ok []
collect f (x ∷ xs) = do y ← f x; ys ← collect f xs; ok (y ∷ ys)

unfoldable pub read_project : ℕ × ProjectRow → Result StoreError Project
read_project (id, row) = map_project id row

unfoldable pub read_worktree : ℕ × WorktreeRow → Result StoreError Worktree
read_worktree (id, row) = ok (map_worktree id row)

unfoldable pub read_session : ℕ × SessionRow → Result StoreError Session
read_session (id, row) = map_session id row

unfoldable pub list_projects : Store → Result StoreError (List Project)
list_projects s = collect read_project (order_by project_before s.projects)

unfoldable pub list_worktrees : ProjectId → Store → Result StoreError (List Worktree)
list_worktrees id s =
    collect read_worktree
      (order_by worktree_before (select (λ entry. entry.1.project_id == id) s.worktrees))

unfoldable pub list_all_worktrees : Store → Result StoreError (List Worktree)
list_all_worktrees s = collect read_worktree (order_by any_worktree_before s.worktrees)

unfoldable pub list_sessions : Option SessionParent → Store → Result StoreError (List Session)
list_sessions none s = collect read_session (order_by any_session_before s.sessions)
list_sessions (some parent) s =
    let (kind, id) = session_parent_to_db parent in
    collect read_session
      (order_by session_before (select (λ entry. is_child kind id entry.1) s.sessions))

unfoldable pub load_layout : Store → Result StoreError StoredLayout
load_layout s = do
  projects ← list_projects s
  worktrees ← list_all_worktrees s
  sessions ← list_sessions none s
  ok (record { projects = projects; worktrees = worktrees; sessions = sessions })
