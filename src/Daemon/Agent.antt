-- ===== src/Daemon/Agent.antt =====
-- Agent state of a session (crates/hitch-daemon/src/main.rs): `store_agent_report`,
-- `store_agent_announce` and `clear_stale_agent_state`, each under the state lock from its first
-- read to its last write. The parameter `cwd` is left out, which only the log lines read.
pub mod Shell
pub mod Ops
pub mod Guard
pub mod Mirror
use Prim.Native.String.{String}
use text.Mathlib.Text.{◌==◌ as str_eq}
use hitch.Prelude.{Bool, true, false, not, ◌&&◌, ◌||◌, Option, none, some, if◌then◌else◌, is_some}
use hitch.Prelude.Assoc
use hitch.Prelude.Text.{Text}
use Shell.{agent_command_matches, foreground_command_is_shell}
use hitch.Core.Domain.{
  SessionId, WorktreeId, KnownAgent, claude_code, codex, AgentState, running, waiting, error,
}
use hitch.Daemon.Session.{DaemonSession, Sessions, session_worktree_id}

pub record AgentStateBroadcast : Type 0 where
  pub session_id : SessionId
  pub worktree_id : Option WorktreeId
  pub agent : Option KnownAgent
  pub state : Option AgentState
  pub detail : Option String

-- A handler's new session and what it broadcasts.
abbrev pub Outcome : Type 0
Outcome = DaemonSession × Option AgentStateBroadcast

abbrev pub agent_eq : KnownAgent → KnownAgent → Bool
agent_eq claude_code claude_code = true
agent_eq codex codex = true
agent_eq _ _ = false

-- `Some(current) != Some(reported)`, both present and different.
abbrev run_id_mismatch : Option String → Option String → Bool
run_id_mismatch (some current) (some reported) = not (str_eq current reported)
run_id_mismatch _ _ = false

abbrev pub is_running : AgentState → Bool
is_running running = true
is_running _ = false

abbrev waiting_over_error : AgentState → Option AgentState → Bool
waiting_over_error waiting (some error) = true
waiting_over_error _ _ = false

-- The fields that every clear resets.
abbrev pub cleared : DaemonSession → DaemonSession
cleared s = record s {
  agent = none;
  agent_state = none;
  agent_detail = none;
  agent_run_id = none;
  agent_report_requires_running = true;
}

abbrev pub broadcast_of : SessionId → DaemonSession → AgentStateBroadcast
broadcast_of id s = record {
  session_id = id;
  worktree_id = session_worktree_id s.session;
  agent = s.agent;
  state = s.agent_state;
  detail = s.agent_detail;
}

-- `if agent_run_id.is_some() { daemon_session.agent_run_id = agent_run_id.clone(); }`
abbrev or_current : Option String → Option String → Option String
or_current none current = current
or_current (some id) current = some id

-- `store_agent_report` with a state.
report_state :
    SessionId → KnownAgent → AgentState → Option String → Option String → DaemonSession → Outcome
report_state id agent state detail run_id s =
    if run_id_mismatch s.agent_run_id run_id
    then (s, none)
    else if s.agent_report_requires_running && not (is_running state)
    then (s, none)
    else if waiting_over_error state s.agent_state
    then (s, none)
    else let s' : DaemonSession = record s {
      agent = some agent;
      agent_state = some state;
      agent_detail = detail;
      agent_run_id = or_current run_id s.agent_run_id;
      agent_report_requires_running = false;
    } in
      (s', some (broadcast_of id s'))

-- `store_agent_report` with no state: the exit to no agent.
report_clear : SessionId → Option String → DaemonSession → Outcome
report_clear id run_id s =
    if run_id_mismatch s.agent_run_id run_id
    then (s, none)
    else if not (is_some s.agent) && not (is_some s.agent_state)
    then (s, none)
    else (cleared s, some (broadcast_of id (cleared s)))

unfoldable pub report :
    SessionId
    → KnownAgent
    → Option AgentState
    → Option String
    → Option String
    → DaemonSession
    → Outcome
unfolding report_state report_clear
report id agent (some state) detail run_id s = report_state id agent state detail run_id s
report id agent none detail run_id s = report_clear id run_id s

-- `daemon_session.agent != Some(agent)`
abbrev identity_changed : KnownAgent → Option KnownAgent → Bool
identity_changed agent none = true
identity_changed agent (some current) = not (agent_eq current agent)

abbrev run_boundary : Option String → DaemonSession → Bool
run_boundary (some run_id) s = elim s.agent_run_id [
  | none ↦ true
  | some current ↦ not (str_eq current run_id)
]
run_boundary none s = is_some s.agent_run_id || (is_some s.agent_state || is_some s.agent_detail)

unfoldable pub announce : SessionId → KnownAgent → Option String → DaemonSession → Outcome
announce id agent run_id s =
    if not (identity_changed agent s.agent) && not (run_boundary run_id s)
    then (s, none)
    else let visible_changed =
        identity_changed agent s.agent || is_some s.agent_state || is_some s.agent_detail in
      let s' : DaemonSession = record s {
        agent = some agent;
        agent_state = none;
        agent_detail = none;
        agent_run_id = run_id;
        agent_report_requires_running = true;
      } in
      (s', if visible_changed then some (broadcast_of id s') else none)

-- The dirty-exit backstop of the command poller.
clear_stale_for : SessionId → Option Text → Option KnownAgent → DaemonSession → Outcome
clear_stale_for id command none s = (s, none)
clear_stale_for id none (some agent) s = (s, none)
clear_stale_for id (some command) (some agent) s =
    if not (foreground_command_is_shell command) || agent_command_matches agent command
    then (s, none)
    else (cleared s, some (broadcast_of id (cleared s)))

unfoldable pub clear_stale : SessionId → Option Text → DaemonSession → Outcome
unfolding clear_stale_for
clear_stale id command s = clear_stale_for id command s.agent s

-- `state.sessions.get_mut(&session_id)`, and an operation on what it finds.
on_found :
    SessionId
    → (DaemonSession → Outcome)
    → Sessions
    → Option DaemonSession
    → Sessions × Option AgentStateBroadcast
on_found id op sessions none = (sessions, none)
on_found id op sessions (some s) = let (s', event) = op s in (Assoc.insert id s' sessions, event)

unfoldable pub on_session :
    SessionId → (DaemonSession → Outcome) → Sessions → Sessions × Option AgentStateBroadcast
unfolding on_found
on_session id op sessions = on_found id op sessions (Assoc.get id sessions)

unfoldable pub on_named :
    Option SessionId
    → (SessionId → DaemonSession → Outcome)
    → Sessions
    → Sessions × Option AgentStateBroadcast
on_named none op sessions = (sessions, none)
on_named (some id) op sessions = on_session id (op id) sessions

unfoldable pub store_agent_report :
    KnownAgent
    → Option AgentState
    → Option SessionId
    → Option String
    → Option String
    → Sessions
    → Sessions × Option AgentStateBroadcast
store_agent_report agent state session_id detail run_id =
    on_named session_id (λ id. report id agent state detail run_id)

unfoldable pub store_agent_announce :
    KnownAgent → Option SessionId → Option String → Sessions → Sessions × Option AgentStateBroadcast
store_agent_announce agent session_id run_id = on_named session_id (λ id. announce id agent run_id)

unfoldable pub clear_stale_agent_state :
    SessionId → Option Text → Sessions → Sessions × Option AgentStateBroadcast
clear_stale_agent_state id command = on_session id (clear_stale id command)
