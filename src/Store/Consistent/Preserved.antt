-- ===== src/Store/Consistent/Preserved.antt =====
-- Every operation of the store keeps it consistent.
use hitch.Prelude.{
  ℕ, ◌≡◌, refl, sym, ap, ◌⊎◌, inl, inr, true, Bool-cases, All, All-map, ok-ne-err, ok-injective,
  Result-cases, ok,
}
use hitch.Prelude.Assoc.{insert, contains_key, contains-insert, insert-All}
use hitch.Core.Domain.{Project, ProjectKind, git_backed, plain, Worktree}
use hitch.Store.Rows.{
  project_kind_to_db, project_kind_git_backed, project_kind_plain, ProjectRow, SessionRow,
  WorktreeRow, path_to_string,
}
use hitch.Store.Tables.{Store, Outcome, commit}
use hitch.Store.Tables
use hitch.Store.Consistent.{IsConsistent, HasParent, HasKind}

-- No reference breaks where no key goes.
record Grows (s t : Store) : Type 0 where
  projects : (k : ℕ) → contains_key k s.projects ≡ true → contains_key k t.projects ≡ true
  worktrees : (k : ℕ) → contains_key k s.worktrees ≡ true → contains_key k t.worktrees ≡ true

grown-HasParent : (s t : Store) (row : SessionRow) → Grows s t → HasParent s row → HasParent t row
unfolding HasParent
grown-HasParent s t row g (inl (kind, there)) = inl (kind, g.worktrees row.parent_id there)
grown-HasParent s t row g (inr (kind, there)) = inr (kind, g.projects row.parent_id there)

grown-IsConsistent :
    (s t : Store)
    → Grows s t
    → t.worktrees ≡ s.worktrees
    → t.sessions ≡ s.sessions
    → All (λ entry. HasKind entry.1) t.projects
    → IsConsistent s
    → IsConsistent t
unfolding HasParent
grown-IsConsistent s t g w x kinds c = record {
  kinds = kinds;
  worktrees = rw w (
      All-map (λ entry. contains_key entry.1.project_id s.projects ≡ true)
        (λ entry. contains_key entry.1.project_id t.projects ≡ true)
        (λ entry there. g.projects entry.1.project_id there) s.worktrees c.worktrees);
  sessions = rw x (
      All-map (λ entry. HasParent s entry.1) (λ entry. HasParent t entry.1)
        (λ entry there. grown-HasParent s t entry.1 g there) s.sessions c.sessions);
}

insert_project-Grows :
    (k : ℕ) (row : ProjectRow) (s : Store)
    → Grows s (record s { projects = insert k row s.projects })
insert_project-Grows k row s = record {
  projects = λ j there. contains-insert j k row s.projects there;
  worktrees = λ j there. there;
}

project_row-HasKind : (p : Project) (row : ProjectRow) → Tables.project_row p ≡ ok row → HasKind row
unfolding Tables.project_row HasKind
project_row-HasKind p row e = elim (Result-cases (path_to_string p.root)) [
  | inl (root, good) ↦ rw (ap (λ r. r.kind) (sym (ok-injective (rw good at e)))) (of_kind p.kind)
  | inr (bad, failed) ↦ absurd (ok-ne-err (sym (rw failed at e)))
]
  where
    of_kind :
        (kind : ProjectKind)
        → (project_kind_to_db kind ≡ project_kind_git_backed)
          ⊎ (project_kind_to_db kind ≡ project_kind_plain)
    of_kind git_backed = inl refl
    of_kind plain = inr refl

put_project-IsConsistent :
    (p : Project) (row : ProjectRow) (s : Store)
    → Tables.project_row p ≡ ok row
    → IsConsistent s
    → IsConsistent (record s { projects = insert p.id row s.projects })
put_project-IsConsistent p row s good c =
    grown-IsConsistent s _ (insert_project-Grows p.id row s) refl refl
      (insert-All (λ entry. HasKind entry.1) p.id row s.projects (project_row-HasKind p row good)
        c.kinds)
      c

pub insert_project-IsConsistent :
    (p : Project) (s : Store) → IsConsistent s → IsConsistent (Tables.insert_project p s).0
unfolding Tables.insert_project
insert_project-IsConsistent p s c = elim (Result-cases (Tables.project_row p)) [
  | inr (e, bad) ↦ rw bad c
  | inl (row, good) ↦ elim (Bool-cases (contains_key p.id s.projects)) [
    | inl taken ↦ rw (good, taken) c
    | inr free ↦ rw (good, free) (put_project-IsConsistent p row s good c)
  ]
]

pub update_project-IsConsistent :
    (p : Project) (s : Store) → IsConsistent s → IsConsistent (Tables.update_project p s).0
unfolding Tables.update_project
update_project-IsConsistent p s c = elim (Result-cases (Tables.project_row p)) [
  | inr (e, bad) ↦ rw bad c
  | inl (row, good) ↦ elim (Bool-cases (contains_key p.id s.projects)) [
    | inr missing ↦ rw (good, missing) c
    | inl found ↦ rw (good, found) (put_project-IsConsistent p row s good c)
  ]
]

-- A worktree's row is put in: its project is there, and no key goes.
put_worktree-IsConsistent :
    (k : ℕ) (row : WorktreeRow) (s : Store)
    → contains_key row.project_id s.projects ≡ true
    → IsConsistent s
    → IsConsistent (record s { worktrees = insert k row s.worktrees })
unfolding HasParent
put_worktree-IsConsistent k row s there c = record {
  kinds = c.kinds;
  worktrees =
      insert-All (λ entry. contains_key entry.1.project_id s.projects ≡ true) k row s.worktrees
        there c.worktrees;
  sessions =
      All-map (λ entry. HasParent s entry.1) _
        (λ entry.
          grown-HasParent s (record s { worktrees = insert k row s.worktrees }) entry.1
            (record {
              projects = λ j h. h;
              worktrees = λ j h. contains-insert j k row s.worktrees h;
            }))
        s.sessions c.sessions;
}

worktree_row-project_id :
    (w : Worktree) (row : WorktreeRow)
    → Tables.worktree_row w ≡ ok row
    → row.project_id ≡ w.project_id
unfolding Tables.worktree_row
worktree_row-project_id w row e = elim (Result-cases (path_to_string w.path)) [
  | inl (path, good) ↦ ap (λ r. r.project_id) (sym (ok-injective (rw good at e)))
  | inr (bad, failed) ↦ absurd (ok-ne-err (sym (rw failed at e)))
]

pub insert_worktree-IsConsistent :
    (w : Worktree) (s : Store) → IsConsistent s → IsConsistent (Tables.insert_worktree w s).0
unfolding Tables.insert_worktree
insert_worktree-IsConsistent w s c = elim (Result-cases (Tables.worktree_row w)) [
  | inr (e, bad) ↦ rw bad c
  | inl (row, good) ↦ elim (Bool-cases (contains_key w.id s.worktrees)) [
    | inl taken ↦ rw (good, taken) c
    | inr free ↦ elim (Bool-cases (contains_key w.project_id s.projects)) [
      | inr missing ↦ rw (good, free, missing) c
      | inl there ↦
          rw (good, free, there)
            (put_worktree-IsConsistent w.id row s (rw (worktree_row-project_id w row good) there) c)
    ]
  ]
]

pub update_worktree-IsConsistent :
    (w : Worktree) (s : Store) → IsConsistent s → IsConsistent (Tables.update_worktree w s).0
unfolding Tables.update_worktree
update_worktree-IsConsistent w s c = elim (Result-cases (Tables.worktree_row w)) [
  | inr (e, bad) ↦ rw bad c
  | inl (row, good) ↦ elim (Bool-cases (contains_key w.id s.worktrees)) [
    | inr absent ↦ rw (good, absent) c
    | inl found ↦ elim (Bool-cases (contains_key w.project_id s.projects)) [
      | inr missing ↦ rw (good, found, missing) c
      | inl there ↦
          rw (good, found, there)
            (put_worktree-IsConsistent w.id row s (rw (worktree_row-project_id w row good) there) c)
    ]
  ]
]
