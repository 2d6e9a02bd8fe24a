-- ===== src/Store/Consistent/Deletes.antt =====
-- The deletes of the store: what the cascades leave, and that they keep the store consistent.
use hitch.Prelude.{
  ℕ, ◌≡◌, refl, inl, inr, true, false, not, List, [], ◌∷◌, arith, ◌==◌, Bool-cases, All, All-map,
}
use hitch.Prelude.Text.{Text, text_eq}
use hitch.Prelude.Assoc.{
  Assoc, get, remove, retain, contains_key, contains-remove, remove-All, retain-All,
}
use hitch.Core.Domain.{ProjectId, WorktreeId}
use hitch.Store.Rows.{WorktreeRow, SessionRow, session_parent_worktree, session_parent_project}
use hitch.Store.Tables.{Store, is_child, delete_children, delete_all_children, worktree_ids}
use hitch.Store.Tables
use hitch.Store.Consistent.{IsConsistent, HasParent, HasKind}

-- The session row is not of this parent.
abbrev pub Spared : Text → ℕ → ℕ × SessionRow → Type 0
Spared kind id entry = is_child kind id entry.1 ≡ false

Spared-worktree :
    (id : ℕ) (entry : ℕ × SessionRow)
    → entry.1.parent_kind ≡ session_parent_worktree
    → Spared session_parent_worktree id entry
    → (id == entry.1.parent_id) ≡ false
unfolding is_child text_eq
Spared-worktree id (k, row) e h = ground (arith, rw e at h)

Spared-project :
    (id : ℕ) (entry : ℕ × SessionRow)
    → entry.1.parent_kind ≡ session_parent_project
    → Spared session_parent_project id entry
    → (id == entry.1.parent_id) ≡ false
unfolding is_child text_eq
Spared-project id (k, row) e h = ground (arith, rw e at h)

delete_children-All :
    (P : ℕ × SessionRow → Type 0) (kind : Text) (id : ℕ) (m : Assoc SessionRow)
    → All P m
    → All (λ entry. P entry × Spared kind id entry) (delete_children kind id m)
unfolding delete_children is_child
delete_children-All P kind id m h =
    All-map _ _ (λ entry q. (q.0, ground (arith, q.1))) _ (retain-All P _ m h)

delete_all_children-All :
    (P : ℕ × SessionRow → Type 0) (ids : List ℕ) (m : Assoc SessionRow)
    → All P m
    → All
        (λ entry. P entry × All (λ id. Spared session_parent_worktree id entry) ids)
        (delete_all_children ids m)
unfolding delete_all_children
delete_all_children-All P [] m h = All-map _ _ (λ entry p. (p, tt)) m h
delete_all_children-All P (id ∷ ids) m h =
    All-map _ _ (λ entry q. (q.0.0, (q.0.1, q.1))) _
      (delete_all_children-All (λ entry. P entry × Spared session_parent_worktree id entry) ids
        (delete_children session_parent_worktree id m)
        (delete_children-All P session_parent_worktree id m h))

-- A worktree that the cascade of `delete_project` takes is one of the ids that were selected first.
kept-worktree :
    (id j : ℕ) (m : Assoc WorktreeRow)
    → contains_key j m ≡ true
    → All (λ w. (w == j) ≡ false) (worktree_ids id m)
    → contains_key j (retain (λ row. not (row.project_id == id)) m) ≡ true
unfolding get retain worktree_ids
kept-worktree id j [] there h = cc
kept-worktree id j ((k, row) ∷ m) there h = elim (Bool-cases (row.project_id == id)) [
  | inl mine ↦
      let split = rw mine at h in rw mine (kept-worktree id j m (rw (split.0) at there) split.1)
  | inr other ↦
      let rest = rw other at h in
      elim (Bool-cases (k == j)) [
        | inl here ↦ rw (other, here) refl
        | inr later ↦ rw (other, later) (kept-worktree id j m (rw later at there) rest)
      ]
]

pub delete_worktree-IsConsistent :
    (id : WorktreeId) (s : Store) → IsConsistent s → IsConsistent (Tables.delete_worktree id s).0
unfolding Tables.delete_worktree HasParent
delete_worktree-IsConsistent id s c = record {
  kinds = c.kinds;
  worktrees = remove-All _ id s.worktrees c.worktrees;
  sessions =
      All-map _ _
        (λ entry q. elim q.0 [
          | inl (kind, there) ↦ inl (
            kind,
            contains-remove entry.1.parent_id id s.worktrees there
                (Spared-worktree id entry kind q.1),
          )
          | inr (kind, there) ↦ inr (kind, there)
        ])
        _
        (delete_children-All (λ entry. HasParent s entry.1) session_parent_worktree id s.sessions
          c.sessions);
}

abbrev after_delete : ProjectId → Store → Assoc SessionRow → Store
after_delete id s sessions = record {
  projects = remove id s.projects;
  worktrees = retain (λ row. not (row.project_id == id)) s.worktrees;
  sessions = sessions;
}

abbrev SparedAll : ProjectId → Store → ℕ × SessionRow → Type 0
SparedAll id s entry =
    Spared session_parent_project id entry
    × All (λ w. Spared session_parent_worktree w entry) (worktree_ids id s.worktrees)

spared-HasParent :
    (id : ProjectId) (s : Store) (sessions : Assoc SessionRow) (entry : ℕ × SessionRow)
    → HasParent s entry.1
    → SparedAll id s entry
    → HasParent (after_delete id s sessions) entry.1
unfolding HasParent
spared-HasParent id s sessions entry (inl (kind, there)) h = inl (
  kind,
  kept-worktree id entry.1.parent_id s.worktrees there (
      All-map _ _ (λ w spared. Spared-worktree w entry kind spared) (worktree_ids id s.worktrees)
        h.1),
)
spared-HasParent id s sessions entry (inr (kind, there)) h =
    inr (
      kind,
      contains-remove entry.1.parent_id id s.projects there (Spared-project id entry kind h.0),
    )

-- The sessions that the statements before the last leave.
remaining : ProjectId → Store → Assoc SessionRow
remaining id s =
    delete_all_children (worktree_ids id s.worktrees)
      (delete_children session_parent_project id s.sessions)

remaining-All :
    (id : ProjectId) (s : Store)
    → IsConsistent s
    → All (λ entry. HasParent s entry.1 × SparedAll id s entry) (remaining id s)
unfolding remaining
remaining-All id s c =
    All-map _ _ (λ entry q. (q.0.0, (q.0.1, q.1))) _
      (delete_all_children-All _ (worktree_ids id s.worktrees) _ (
        delete_children-All (λ entry. HasParent s entry.1) session_parent_project id s.sessions
          c.sessions))

after_delete-IsConsistent :
    (id : ProjectId) (s : Store)
    → IsConsistent s
    → IsConsistent (after_delete id s (remaining id s))
after_delete-IsConsistent id s c = record {
  kinds = remove-All (λ entry. HasKind entry.1) id s.projects c.kinds;
  worktrees =
      All-map _ _
        (λ entry q. contains-remove entry.1.project_id id s.projects q.0 (ground (arith, q.1))) _
        (retain-All _ _ s.worktrees c.worktrees);
  sessions =
      All-map _ _ (λ entry q. spared-HasParent id s (remaining id s) entry q.0 q.1) _
        (remaining-All id s c);
}

pub delete_project-IsConsistent :
    (id : ProjectId) (s : Store) → IsConsistent s → IsConsistent (Tables.delete_project id s).0
unfolding Tables.delete_project remaining HasParent
delete_project-IsConsistent id s c = elim (Bool-cases (contains_key id s.projects)) [
  | inl found ↦ rw found (after_delete-IsConsistent id s c)
  | inr missing ↦ rw missing (record {
    kinds = c.kinds;
    worktrees = c.worktrees;
    sessions = All-map _ _ (λ entry q. q.0) (remaining id s) (remaining-All id s c);
  })
]
