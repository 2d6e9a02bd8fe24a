-- ===== src/Examples/StoreRuns.antt =====
-- Runs of the store of crates/hitch-store/src/lib.rs, of the quoting functions, and of the queries of
-- crates/hitch-git/src/lib.rs.
use mathlib.Core.List.{flatten}
use hitch.Prelude.{◌≡◌, refl, inr, true, false, some, List, [], ◌∷◌, ◌++◌, Bytes, All, ok}
use hitch.Prelude.Text.{codes, contains}
use hitch.Prelude.Assoc.{Assoc, get, insert}
use hitch.Core.Domain.{Project, git_backed, Worktree, Session, worktree, utf8}
use hitch.Core.Quoting.{posix_sh_quote, sh_outside, sh_outside-posix_sh_quote}
use hitch.Store.Tables.{Store, empty}
use hitch.Store.Tables
use hitch.Store.Consistent
use hitch.Store.Consistent.{StoreOp, IsConsistent, HasKind}
use hitch.Store.Consistent.Runs.{store_run-IsConsistent}
use hitch.Store.Layout.{StoredLayout, load_layout}
use hitch.Store.Rows.{ProjectRow, project_kind_plain}
use hitch.Store.Migration.{OldWorktreeRow, version_one, version_two, migrate}
use hitch.Store.Migration.Upgrades.{IsOldConsistent, IsMarked, migrate-IsConsistent}
use hitch.Store.Layout.Closed.{has_project, has_parent, load_layout-closed}
use hitch.Git.Redact.{redact_arg, url, redact_arg-url}
use hitch.Git.Search.{pr_branch_search_chunks, present}
use hitch.Git.Search.Groups.{IsQuery, queries_of, pr_branch_search_chunks-groups}

abbrev a_project : Project
a_project = record { id = 1; name = "hitch"; root = utf8 "/r"; kind = git_backed }

abbrev a_worktree : Worktree
a_worktree = record {
  id = 2;
  project_id = 1;
  path = utf8 "/r/w";
  branch = "main";
  is_main = true;
  is_hitch_managed = false;
}

abbrev a_session : Session
a_session = record { id = 3; name = "zsh"; parent = worktree 2; cwd = utf8 "/r/w" }

abbrev ops : List StoreOp
ops =
    Consistent.insert_project a_project
    ∷ Consistent.insert_worktree a_worktree
    ∷ Consistent.insert_session a_session
    ∷ Consistent.delete_project 1
    ∷ []

empty-IsConsistent : IsConsistent empty
empty-IsConsistent = record { kinds = tt; worktrees = tt; sessions = tt }

store_run-IsConsistent_example : IsConsistent (Consistent.run ops empty)
store_run-IsConsistent_example = store_run-IsConsistent ops empty empty-IsConsistent

project_taken : (Tables.insert_project a_project empty).1 ≡ ok tt
unfolding Tables.insert_project Tables.project_row get
project_taken = refl

-- The store after the first three operations.
abbrev filled : Store
filled =
    Consistent.run
      (Consistent.insert_project a_project
        ∷ Consistent.insert_worktree a_worktree
        ∷ Consistent.insert_session a_session
        ∷ [])
      empty

abbrev renamed : Session
renamed = record a_session { name = "build" }

abbrev moved : Worktree
moved = record a_worktree { branch = "next" }

worktree_taken : (Tables.update_worktree moved filled).1 ≡ ok tt
unfolding Tables.insert_project Tables.project_row Tables.insert_worktree Tables.worktree_row
    Tables.insert_session Tables.ensure_session_parent_exists Tables.session_row
    Tables.update_worktree get insert
worktree_taken = refl

session_taken : (Tables.update_session renamed filled).1 ≡ ok tt
unfolding Tables.insert_project Tables.project_row Tables.insert_worktree Tables.worktree_row
    Tables.insert_session Tables.ensure_session_parent_exists Tables.session_row
    Tables.update_session get insert
session_taken = refl

abbrev branches : List Bytes
branches = codes "a" ∷ [] ∷ codes "b" ∷ []

pr_branch_search_chunks-groups_example :
    (groups : List (List Bytes)) × (pr_branch_search_chunks branches ≡ queries_of groups)
    × (flatten groups ≡ present branches)
    × All IsQuery groups
pr_branch_search_chunks-groups_example = pr_branch_search_chunks-groups branches

sh_outside-posix_sh_quote_example :
    sh_outside (posix_sh_quote (codes "it's $x")) ≡ some (codes "it's $x")
sh_outside-posix_sh_quote_example = sh_outside-posix_sh_quote (codes "it's $x")

redact_arg-url_example :
    redact_arg (url (codes "https") (codes "me") (codes "p@s:s") (codes "host") (codes "/r"))
    ≡ codes "https"
      ++ (codes "://"
          ++ (codes "me" ++ (codes ":***REDACTED***" ++ ((b'@' ∷ codes "host") ++ codes "/r"))))
unfolding contains
redact_arg-url_example =
    redact_arg-url (codes "https") (codes "me") (codes "p@s:s") (codes "host") (codes "/r") refl
      refl refl refl refl

filled-IsConsistent : IsConsistent filled
filled-IsConsistent =
    store_run-IsConsistent
      (Consistent.insert_project a_project
        ∷ Consistent.insert_worktree a_worktree
        ∷ Consistent.insert_session a_session
        ∷ [])
      empty empty-IsConsistent

load_layout-closed_example :
    (layout : StoredLayout) × (load_layout filled ≡ ok layout)
    × All (λ w. has_project w.project_id layout.projects ≡ true) layout.worktrees
    × All (λ x. has_parent layout x.parent ≡ true) layout.sessions
load_layout-closed_example = load_layout-closed filled filled-IsConsistent

-- A database of version 1 with one project, and a worktree of it that is not main.
abbrev old_projects : Assoc ProjectRow
old_projects = (1, record { name = "hitch"; root = "/r"; kind = project_kind_plain }) ∷ []

abbrev old_worktrees : Assoc OldWorktreeRow
old_worktrees = (2, record { project_id = 1; path = "/r/w"; branch = "fix"; is_main = 0 }) ∷ []

old-IsOldConsistent : IsOldConsistent old_projects old_worktrees []
unfolding HasKind get
old-IsOldConsistent = record { kinds = (inr refl, tt); parents = (refl, tt); owners = tt }

migrate-IsConsistent_example :
    (s : Store) × (migrate (version_one old_projects old_worktrees []) ≡ (version_two s, ok tt))
    × IsConsistent s
    × All IsMarked s.worktrees
migrate-IsConsistent_example =
    migrate-IsConsistent old_projects old_worktrees [] old-IsOldConsistent
