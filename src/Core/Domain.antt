-- ===== src/Core/Domain.antt =====
-- crates/hitch-core/src/{ids,project,worktree,session,agent}.rs. An id is the 128-bit value of its
-- UUID; the four id types are one type of numbers here. Names and branches are texts. A path is
-- UTF-8 text or another byte string, as on Unix.
use Prim.Native.String.{String}
use hitch.Prelude.{ℕ, Bool, Bytes}

abbrev pub ProjectId : Type 0
ProjectId = ℕ

abbrev pub WorktreeId : Type 0
WorktreeId = ℕ

abbrev pub SessionId : Type 0
SessionId = ℕ

abbrev pub JobId : Type 0
JobId = ℕ

pub data PathBuf : Type 0 where
  utf8 : String → PathBuf
  other : Bytes → PathBuf

pub data ProjectKind : Type 0 where
  git_backed plain : ProjectKind

pub record Project : Type 0 where
  pub id : ProjectId
  pub name : String
  pub root : PathBuf
  pub kind : ProjectKind

pub record Worktree : Type 0 where
  pub id : WorktreeId
  pub project_id : ProjectId
  pub path : PathBuf
  pub branch : String
  pub is_main : Bool
  pub is_hitch_managed : Bool

pub data SessionParent : Type 0 where
  worktree : WorktreeId → SessionParent
  project : ProjectId → SessionParent

pub record Session : Type 0 where
  pub id : SessionId
  pub name : String
  pub parent : SessionParent
  pub cwd : PathBuf

pub data AgentState : Type 0 where
  running needs_approval waiting error : AgentState

-- `KnownAgent` of crates/hitch-proto/src/message.rs.
pub data KnownAgent : Type 0 where
  claude_code codex : KnownAgent
