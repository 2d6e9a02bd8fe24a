-- ===== src/Store/Consistent/Runs.antt =====
-- The operations on sessions, and any sequence of operations, keep the store consistent.
use hitch.Prelude.{
  ℕ, ◌≡◌, sym, ap, inl, inr, true, some, List, [], ◌∷◌, Bytes, ◌==◌, Bool-cases, Option-cases,
  some-injective, All, ok-ne-err, ok-injective, Result-cases, ok,
}
use hitch.Prelude.Assoc.{Assoc, get, insert, contains_key, insert-All, remove-All}
use hitch.Core.Domain.{Session, SessionId, SessionParent, worktree, project}
use hitch.Store.Rows.{SessionRow, session_parent_to_db, path_to_string}
use hitch.Store.Tables.{
  Store, parent_exists, ensure_session_parent_exists, scrollback_of, set_scrollback,
}
use hitch.Store.Tables
use hitch.Store.Consistent.{IsConsistent, HasParent, StoreOp, apply, run}
use hitch.Store.Consistent
use hitch.Store.Consistent.Preserved.{
  insert_project-IsConsistent, update_project-IsConsistent, insert_worktree-IsConsistent,
  update_worktree-IsConsistent,
}
use hitch.Store.Consistent.Deletes.{delete_project-IsConsistent, delete_worktree-IsConsistent}

put_session-IsConsistent :
    (k : ℕ) (row : SessionRow) (s : Store)
    → HasParent s row
    → IsConsistent s
    → IsConsistent (record s { sessions = insert k row s.sessions })
unfolding HasParent
put_session-IsConsistent k row s there c = record {
  kinds = c.kinds;
  worktrees = c.worktrees;
  sessions = insert-All (λ entry. HasParent s entry.1) k row s.sessions there c.sessions;
}

parent-HasParent :
    (parent : SessionParent) (s : Store) (row : SessionRow)
    → parent_exists parent s ≡ true
    → row.parent_kind ≡ (session_parent_to_db parent).0
    → row.parent_id ≡ (session_parent_to_db parent).1
    → HasParent s row
unfolding HasParent
parent-HasParent (worktree id) s row there kind e = inl (kind, rw e there)
parent-HasParent (project id) s row there kind e = inr (kind, rw e there)

session_row-HasParent :
    (x : Session) (scrollback : Bytes) (s : Store) (row : SessionRow)
    → Tables.session_row x scrollback ≡ ok row
    → parent_exists x.parent s ≡ true
    → HasParent s row
unfolding Tables.session_row
session_row-HasParent x scrollback s row e there = elim (Result-cases (path_to_string x.cwd)) [
  | inl (cwd, good) ↦
      let row_is = sym (ok-injective (rw good at e)) in
      parent-HasParent x.parent s row there (ap (λ r. r.parent_kind) row_is)
        (ap (λ r. r.parent_id) row_is)
  | inr (bad, failed) ↦ absurd (ok-ne-err (sym (rw failed at e)))
]

insert_session-IsConsistent :
    (x : Session) (s : Store) → IsConsistent s → IsConsistent (Tables.insert_session x s).0
unfolding Tables.insert_session ensure_session_parent_exists
insert_session-IsConsistent x s c = elim (Bool-cases (parent_exists x.parent s)) [
  | inr orphan ↦ rw orphan c
  | inl there ↦ elim (Result-cases (Tables.session_row x [])) [
    | inr (e, bad) ↦ rw (there, bad) c
    | inl (row, good) ↦ elim (Bool-cases (contains_key x.id s.sessions)) [
      | inl taken ↦ rw (there, good, taken) c
      | inr free ↦
          rw (there, good, free)
            (put_session-IsConsistent x.id row s (session_row-HasParent x [] s row good there) c)
    ]
  ]
]

update_session-IsConsistent :
    (x : Session) (s : Store) → IsConsistent s → IsConsistent (Tables.update_session x s).0
unfolding Tables.update_session ensure_session_parent_exists
update_session-IsConsistent x s c = elim (Bool-cases (parent_exists x.parent s)) [
  | inr orphan ↦ rw orphan c
  | inl there ↦
      let kept = scrollback_of (get x.id s.sessions) in
      elim (Result-cases (Tables.session_row x kept)) [
        | inr (e, bad) ↦ rw (there, bad) c
        | inl (row, good) ↦ elim (Bool-cases (contains_key x.id s.sessions)) [
          | inr missing ↦ rw (there, good, missing) c
          | inl found ↦
              rw (there, good, found)
                (put_session-IsConsistent x.id row s (session_row-HasParent x kept s row good there)
                  c)
        ]
      ]
]

delete_session-IsConsistent :
    (id : SessionId) (s : Store) → IsConsistent s → IsConsistent (Tables.delete_session id s).0
unfolding Tables.delete_session HasParent
delete_session-IsConsistent id s c = record {
  kinds = c.kinds;
  worktrees = c.worktrees;
  sessions = remove-All (λ entry. HasParent s entry.1) id s.sessions c.sessions;
}

get-HasParent :
    (id : SessionId) (row : SessionRow) (s : Store) (m : Assoc SessionRow)
    → All (λ entry. HasParent s entry.1) m
    → get id m ≡ some row
    → HasParent s row
unfolding get
get-HasParent id row s [] h e = cc
get-HasParent id row s ((k, r) ∷ m) h e = elim (Bool-cases (k == id)) [
  | inl here ↦ rw (← some-injective (rw here at e)) h.0
  | inr later ↦ get-HasParent id row s m h.1 (rw later at e)
]

save_scrollback-IsConsistent :
    (id : SessionId) (bytes : Bytes) (s : Store)
    → IsConsistent s
    → IsConsistent (Tables.save_scrollback id bytes s).0
unfolding Tables.save_scrollback HasParent
save_scrollback-IsConsistent id bytes s c = elim (Option-cases (get id s.sessions)) [
  | inl missing ↦ rw missing c
  | inr (row, found) ↦ rw found (
      put_session-IsConsistent id (record row { scrollback = bytes }) s
        (get-HasParent id row s s.sessions c.sessions found) c)
]

apply-IsConsistent : (op : StoreOp) (s : Store) → IsConsistent s → IsConsistent (apply op s).0
apply-IsConsistent (Consistent.insert_project p) s c = insert_project-IsConsistent p s c
apply-IsConsistent (Consistent.update_project p) s c = update_project-IsConsistent p s c
apply-IsConsistent (Consistent.delete_project id) s c = delete_project-IsConsistent id s c
apply-IsConsistent (Consistent.insert_worktree w) s c = insert_worktree-IsConsistent w s c
apply-IsConsistent (Consistent.update_worktree w) s c = update_worktree-IsConsistent w s c
apply-IsConsistent (Consistent.delete_worktree id) s c = delete_worktree-IsConsistent id s c
apply-IsConsistent (Consistent.insert_session x) s c = insert_session-IsConsistent x s c
apply-IsConsistent (Consistent.update_session x) s c = update_session-IsConsistent x s c
apply-IsConsistent (Consistent.delete_session id) s c = delete_session-IsConsistent id s c
apply-IsConsistent (Consistent.save_scrollback id bytes) s c =
    save_scrollback-IsConsistent id bytes s c

-- Any sequence of operations, failed ones included, takes a consistent store to a consistent one:
-- the project of every worktree and the parent of every session are rows of the store, and the kind
-- of every project is one of the two that the schema admits.
pub store_run-IsConsistent :
    (ops : List StoreOp) (s : Store) → IsConsistent s → IsConsistent (run ops s)
store_run-IsConsistent [] s c = c
store_run-IsConsistent (op ∷ ops) s c =
    store_run-IsConsistent ops (apply op s).0 (apply-IsConsistent op s c)
