-- ===== src/Store/Migration/Upgrades.antt =====
-- The migration keeps the rows and their references, and needs no second run.
use hitch.Prelude.{
  ℕ, ◌+◌, ◌≡◌, refl, ◌∙◌, ◌⊎◌, inl, inr, true, [], ◌∷◌, arith, ltb, ◌==◌, if◌then◌else◌, lt→ltb,
  Bool-cases, All, All-map, ok,
}
use hitch.Prelude.Assoc.{Assoc, get, contains_key}
use hitch.Store.Rows.{
  ProjectRow, WorktreeRow, SessionRow, session_parent_worktree, session_parent_project,
}
use hitch.Store.Tables.{Store}
use hitch.Store.Consistent.{IsConsistent, HasParent, HasKind}
use hitch.Store.Migration.{
  OldWorktreeRow, Database, blank, version_one, version_two, newer, add_column, set_managed,
  migrate,
}

-- A migrated database is left as it is by a second migration, with the same result.
pub migrate-migrate : (db : Database) → migrate (migrate db).0 ≡ migrate db
unfolding migrate
migrate-migrate blank = refl
migrate-migrate (version_one projects worktrees sessions) = refl
migrate-migrate (version_two s) = refl
migrate-migrate (newer n) =
    let above : ltb 2 (3 + n) ≡ true = lt→ltb 2 (3 + n) (omega arith) in rw (above, above) refl

-- The references of a database of version 1.
pub record IsOldConsistent (projects : Assoc ProjectRow) (worktrees : Assoc OldWorktreeRow)
    (sessions : Assoc SessionRow) : Type 0 where
  pub kinds : All (λ entry. HasKind entry.1) projects
  pub parents : All (λ entry. contains_key entry.1.project_id projects ≡ true) worktrees
  pub owners :
      All
        (λ entry.
          ((entry.1.parent_kind ≡ session_parent_worktree)
            × (contains_key entry.1.parent_id worktrees ≡ true))
          ⊎ ((entry.1.parent_kind ≡ session_parent_project)
              × (contains_key entry.1.parent_id projects ≡ true)))
        sessions

upgraded : Assoc OldWorktreeRow → Assoc WorktreeRow
upgraded m = set_managed (add_column m)

upgraded-contains :
    (k : ℕ) (m : Assoc OldWorktreeRow) → contains_key k (upgraded m) ≡ contains_key k m
unfolding upgraded set_managed add_column get
upgraded-contains k [] = refl
upgraded-contains k ((j, row) ∷ m) = ground (arith, upgraded-contains k m)

-- Exactly the worktrees that are not main are managed.
abbrev pub IsMarked : ℕ × WorktreeRow → Type 0
IsMarked entry = entry.1.is_hitch_managed ≡ (if entry.1.is_main == 0 then 1 else 0)

upgraded-IsMarked : (m : Assoc OldWorktreeRow) → All IsMarked (upgraded m)
unfolding upgraded set_managed add_column
upgraded-IsMarked [] = tt
upgraded-IsMarked ((j, row) ∷ m) = elim (Bool-cases (row.is_main == 0)) [
  | inl linked ↦ rw linked (ground (arith, linked), upgraded-IsMarked m)
  | inr main ↦ rw main (ground (arith, main), upgraded-IsMarked m)
]

upgraded-parents :
    (projects : Assoc ProjectRow) (m : Assoc OldWorktreeRow)
    → All (λ entry. contains_key entry.1.project_id projects ≡ true) m
    → All (λ entry. contains_key entry.1.project_id projects ≡ true) (upgraded m)
unfolding upgraded set_managed add_column
upgraded-parents projects [] h = tt
upgraded-parents projects ((j, row) ∷ m) h = elim (Bool-cases (row.is_main == 0)) [
  | inl linked ↦ rw linked (h.0, upgraded-parents projects m h.1)
  | inr main ↦ rw main (h.0, upgraded-parents projects m h.1)
]

-- A consistent database of version 1 migrates to a consistent store, in which exactly the worktrees
-- that are not main are managed by hitch.
pub migrate-IsConsistent :
    (projects : Assoc ProjectRow) (worktrees : Assoc OldWorktreeRow) (sessions : Assoc SessionRow)
    → IsOldConsistent projects worktrees sessions
    → (s : Store) × (migrate (version_one projects worktrees sessions) ≡ (version_two s, ok tt))
      × IsConsistent s
      × All IsMarked s.worktrees
unfolding migrate upgraded HasParent
migrate-IsConsistent projects worktrees sessions c =
    let s : Store = record {
      projects = projects;
      worktrees = upgraded worktrees;
      sessions = sessions;
    } in
    (
      s,
      refl,
      record {
        kinds = c.kinds;
        worktrees = upgraded-parents projects worktrees c.parents;
        sessions =
            All-map _ (λ entry. HasParent s entry.1)
              (λ entry owner. elim owner [
                | inl (kind, there) ↦
                    inl (kind, upgraded-contains entry.1.parent_id worktrees ∙ there)
                | inr (kind, there) ↦ inr (kind, there)
              ])
              sessions c.owners;
      },
      upgraded-IsMarked worktrees,
    )
