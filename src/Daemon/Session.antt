-- ===== src/Daemon/Session.antt =====
-- `DaemonSession` of crates/hitch-daemon/src/main.rs, without its PTY handle, and the state that
-- every handler finds a session in. An `Instant` is its number of milliseconds.
use Prim.Native.String.{String}
use hitch.Prelude.{ℕ, Bool, Option, none, some, Bytes}
use hitch.Prelude.Assoc.{Assoc}
use hitch.Core.Domain.{
  Session, SessionParent, worktree, project, WorktreeId, KnownAgent, AgentState,
}

pub record DaemonSession : Type 0 where
  pub session : Session
  pub restored_scrollback : Bytes
  pub agent : Option KnownAgent
  pub agent_state : Option AgentState
  pub agent_detail : Option String
  pub agent_run_id : Option String
  pub agent_report_requires_running : Bool
  pub output_active : Bool
  pub last_output_at : Option ℕ

-- `state.sessions`
abbrev pub Sessions : Type 0
Sessions = Assoc DaemonSession

parent_worktree : SessionParent → Option WorktreeId
parent_worktree (worktree id) = some id
parent_worktree (project _) = none

unfoldable pub session_worktree_id : Session → Option WorktreeId
unfolding parent_worktree
session_worktree_id s = parent_worktree s.parent
