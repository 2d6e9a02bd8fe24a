-- ===== src/Daemon/Agent/Ops.antt =====
-- The operations that change a session's agent, as data, and what holds of one of them on one
-- session.
use Prim.Native.String.{String}
use hitch.Prelude.{
  ◌≡◌, refl, ◌⊎◌, inl, inr, true, not, ◌||◌, Option, none, some, List, [], ◌∷◌, arith, ◌==◌,
  if◌then◌else◌, Bool-cases, Option-cases, map-eq-some,
}
use mathlib.Core.Option
use mathlib.Core.Path.{subst}
use hitch.Prelude.Assoc
use hitch.Prelude.Assoc.{get-insert}
use hitch.Prelude.Text.{Text}
use hitch.Daemon.Agent.Shell.{foreground_command_is_shell, agent_command_matches}
use hitch.Core.Domain.{SessionId, KnownAgent, AgentState}
use hitch.Daemon.Session.{DaemonSession, Sessions}
use hitch.Daemon.Agent.{
  AgentStateBroadcast, Outcome, report, announce, clear_stale, clear_stale_for, on_named,
  on_session, on_found, store_agent_report, store_agent_announce, clear_stale_agent_state, cleared,
  broadcast_of,
}

-- A hook's report, a hook's announce, or the poller's look at a foreground command.
pub data AgentOp : Type 0 where
  reported :
      KnownAgent → Option AgentState → Option SessionId → Option String → Option String → AgentOp
  announced : KnownAgent → Option SessionId → Option String → AgentOp
  polled : SessionId → Option Text → AgentOp

unfoldable pub apply : AgentOp → Sessions → Sessions × Option AgentStateBroadcast
apply (reported agent state id detail run_id) = store_agent_report agent state id detail run_id
apply (announced agent id run_id) = store_agent_announce agent id run_id
apply (polled id command) = clear_stale_agent_state id command

-- The session that an operation names, and what it does to it.
abbrev pub target : AgentOp → Option SessionId
target (reported _ _ id _ _) = id
target (announced _ id _) = id
target (polled id _) = some id

unfoldable pub effect : AgentOp → SessionId → DaemonSession → Outcome
effect (reported agent state _ detail run_id) id = report id agent state detail run_id
effect (announced agent _ run_id) id = announce id agent run_id
effect (polled _ command) id = clear_stale id command

pub apply-effect :
    (op : AgentOp) (sessions : Sessions)
    → apply op sessions ≡ on_named (target op) (effect op) sessions
unfolding apply effect store_agent_report store_agent_announce clear_stale_agent_state on_named
    on_session
apply-effect (reported agent state id detail run_id) sessions = refl
apply-effect (announced agent id run_id) sessions = refl
apply-effect (polled id command) sessions = refl

-- What a field of a session may say of the others.
pub record IsCoherent (s : DaemonSession) : Type 0 where
  pub no_agent :
      s.agent ≡ none → (s.agent_state ≡ none) × (s.agent_detail ≡ none) × (s.agent_run_id ≡ none)
  pub no_state : s.agent_state ≡ none → s.agent_detail ≡ none
  pub guarded : s.agent_report_requires_running ≡ true → s.agent_state ≡ none

report-IsCoherent :
    (id : SessionId) (agent : KnownAgent) (state : Option AgentState)
    (detail run_id : Option String) (s : DaemonSession)
    → IsCoherent s
    → IsCoherent (report id agent state detail run_id s).0
unfolding report
report-IsCoherent id agent (some state) detail run_id s c = record {
  no_agent = ground (arith, c.no_agent);
  no_state = ground (arith, c.no_state);
  guarded = ground (arith, c.guarded);
}
report-IsCoherent id agent none detail run_id s c = record {
  no_agent = ground (arith, c.no_agent);
  no_state = ground (arith, c.no_state);
  guarded = ground (arith, c.guarded);
}

announce-IsCoherent :
    (id : SessionId) (agent : KnownAgent) (run_id : Option String) (s : DaemonSession)
    → IsCoherent s
    → IsCoherent (announce id agent run_id s).0
unfolding announce
announce-IsCoherent id agent run_id s c = record {
  no_agent = ground (arith, c.no_agent);
  no_state = ground (arith, c.no_state);
  guarded = ground (arith, c.guarded);
}

clear_stale_for_cases :
    (id : SessionId) (command : Option Text) (agent : Option KnownAgent) (s : DaemonSession)
    → (clear_stale_for id command agent s ≡ (s, none))
      ⊎ (clear_stale_for id command agent s ≡ (cleared s, some (broadcast_of id (cleared s))))
unfolding clear_stale_for
clear_stale_for_cases id command none s = inl refl
clear_stale_for_cases id none (some agent) s = inl refl
clear_stale_for_cases id (some command) (some agent) s =
    elim (Bool-cases
      (not (foreground_command_is_shell command) || agent_command_matches agent command)) [
        | inl kept ↦ inl (rw kept)
        | inr gone ↦ inr (rw gone)
      ]

pub clear_stale_cases :
    (id : SessionId) (command : Option Text) (s : DaemonSession)
    → (clear_stale id command s ≡ (s, none))
      ⊎ (clear_stale id command s ≡ (cleared s, some (broadcast_of id (cleared s))))
unfolding clear_stale
clear_stale_cases id command s = clear_stale_for_cases id command s.agent s

clear_stale-IsCoherent :
    (id : SessionId) (command : Option Text) (s : DaemonSession)
    → IsCoherent s
    → IsCoherent (clear_stale id command s).0
clear_stale-IsCoherent id command s c = elim (clear_stale_cases id command s) [
  | inl kept ↦ rw kept c
  | inr gone ↦
      rw gone
        (record { no_agent = λ _. (refl, refl, refl); no_state = λ _. refl; guarded = λ _. refl })
]

effect-IsCoherent :
    (op : AgentOp) (id : SessionId) (s : DaemonSession)
    → IsCoherent s
    → IsCoherent (effect op id s).0
unfolding effect
effect-IsCoherent (reported agent state _ detail run_id) id s c =
    report-IsCoherent id agent state detail run_id s c
effect-IsCoherent (announced agent _ run_id) id s c = announce-IsCoherent id agent run_id s c
effect-IsCoherent (polled _ command) id s c = clear_stale-IsCoherent id command s c

-- A statement of every session that is there.
abbrev pub Everywhere : (DaemonSession → Type 0) → Sessions → Type 0
Everywhere P sessions = (id : SessionId) (s : DaemonSession) → Assoc.get id sessions ≡ some s → P s

-- What stands at each id after an operation on one session.
pub get-on_session :
    (op : DaemonSession → Outcome) (id j : SessionId) (sessions : Sessions)
    → Assoc.get j (on_session id op sessions).0 ≡ (
        if id == j then Option.map (λ s. (op s).0) (Assoc.get j sessions) else Assoc.get j sessions)
unfolding on_session
get-on_session op id j sessions = elim (Option-cases (Assoc.get id sessions)) [
  | inl missing ↦ elim (Bool-cases (id == j)) [
    | inl same ↦
        let e : id ≡ j = ground arith in
        let gone : Assoc.get j sessions ≡ none = rw (← e) missing in
        rw (same, gone, missing, on_found, gone)
    | inr other ↦ rw (other, missing, on_found)
  ]
  | inr (old, there) ↦ elim (Bool-cases (id == j)) [
    | inl same ↦
        let e : id ≡ j = ground arith in
        let found : Assoc.get j sessions ≡ some old = rw (← e) there in
        rw (same, found, there, on_found, get-insert, same)
    | inr other ↦ rw (other, there, on_found, get-insert, other)
  ]
]

on_session-Everywhere :
    (P : DaemonSession → Type 0) (op : DaemonSession → Outcome) (id : SessionId)
    (sessions : Sessions)
    → ((s : DaemonSession) → P s → P (op s).0)
    → Everywhere P sessions
    → Everywhere P (on_session id op sessions).0
on_session-Everywhere P op id sessions keeps all j s e = elim (Bool-cases (id == j)) [
  | inl same ↦
      let (old, there, is) =
        map-eq-some (λ (t : DaemonSession). (op t).0) (Assoc.get j sessions)
          (rw (get-on_session op id j sessions, same) at e) in
      subst P is (keeps old (all j old there))
  | inr other ↦ all j s (rw (get-on_session op id j sessions, other) at e)
]

on_named-Everywhere :
    (P : DaemonSession → Type 0) (op : SessionId → DaemonSession → Outcome) (id : Option SessionId)
    (sessions : Sessions)
    → ((id : SessionId) (s : DaemonSession) → P s → P (op id s).0)
    → Everywhere P sessions
    → Everywhere P (on_named id op sessions).0
unfolding on_named
on_named-Everywhere P op none sessions keeps all = all
on_named-Everywhere P op (some id) sessions keeps all =
    on_session-Everywhere P (op id) id sessions (keeps id) all

-- The sessions after a sequence of operations, in any order and on any sessions.
unfoldable pub run : List AgentOp → Sessions → Sessions
run [] sessions = sessions
run (op ∷ ops) sessions = run ops (apply op sessions).0

-- Whatever hooks report and the poller sees, in any order, every session stays coherent: without an
-- agent it has no state, detail or run id; without a state it has no detail; and while its guard
-- waits for a fresh `running` report it has no state.
pub run-IsCoherent :
    (ops : List AgentOp) (sessions : Sessions)
    → Everywhere IsCoherent sessions
    → Everywhere IsCoherent (run ops sessions)
unfolding run
run-IsCoherent [] sessions all = all
run-IsCoherent (op ∷ ops) sessions all = run-IsCoherent ops (apply op sessions).0 (
    rw (apply-effect op sessions)
      (on_named-Everywhere IsCoherent (effect op) (target op) sessions (effect-IsCoherent op) all))
