-- ===== src/Daemon/Agent/Guard.antt =====
-- What late, stale and idle reports can no longer do.
use Prim.Native.String.{String}
use text.Mathlib.Text.{◌==◌ as str_eq}
use hitch.Prelude.{
  ◌≡◌, refl, ◌↔◌, ◌⊎◌, inl, inr, Bool, true, false, Option, none, some, List, [], ◌∷◌, arith, ◌==◌,
  Bool-cases, All,
}
use hitch.Prelude.Assoc
use hitch.Core.Domain.{SessionId, KnownAgent, AgentState, running, needs_approval, waiting, error}
use hitch.Daemon.Session.{DaemonSession, Sessions}
use hitch.Daemon.Agent.{report, announce, on_named, on_session, run_id_mismatch}
use hitch.Daemon.Agent.Ops.{
  AgentOp, reported, announced, polled, apply, apply-effect, target, effect, run, get-on_session,
  clear_stale_cases,
}

-- The guard is closed: the session has no state, and waits for a fresh `running`.
abbrev pub IsGuarded : DaemonSession → Type 0
IsGuarded s = (s.agent_report_requires_running ≡ true) × (s.agent_state ≡ none)

-- The one report that opens it.
abbrev pub reports_running : AgentOp → Bool
reports_running (reported _ (some running) _ _ _) = true
reports_running _ = false

effect-IsGuarded :
    (op : AgentOp) (id : SessionId) (s : DaemonSession)
    → reports_running op ≡ false
    → IsGuarded s
    → IsGuarded (effect op id s).0
unfolding effect report announce
effect-IsGuarded (reported agent (some running) _ detail run_id) id s r g = cc
effect-IsGuarded (reported agent (some needs_approval) _ detail run_id) id s r g =
    (ground arith, ground arith)
effect-IsGuarded (reported agent (some waiting) _ detail run_id) id s r g =
    (ground arith, ground arith)
effect-IsGuarded (reported agent (some error) _ detail run_id) id s r g =
    (ground arith, ground arith)
effect-IsGuarded (reported agent none _ detail run_id) id s r g = (ground arith, ground arith)
effect-IsGuarded (announced agent _ run_id) id s r g = (ground arith, ground arith)
effect-IsGuarded (polled _ command) id s r g = elim (clear_stale_cases id command s) [
  | inl kept ↦ rw kept g
  | inr gone ↦ rw gone (refl, refl)
]

-- A session that is there and satisfies a predicate.
abbrev pub Holds : (DaemonSession → Type 0) → SessionId → Sessions → Type 0
Holds P id sessions = (s : DaemonSession) × (Assoc.get id sessions ≡ some s) × P s

-- An operation that keeps a predicate of one session keeps it where that session stands.
pub apply-Holds :
    (P : DaemonSession → Type 0) (op : AgentOp) (id : SessionId) (sessions : Sessions)
    → ((s : DaemonSession) → P s → P (effect op id s).0)
    → Holds P id sessions
    → Holds P id (apply op sessions).0
unfolding on_named
apply-Holds P op id sessions keeps h = rw (apply-effect op sessions) (named (target op))
  where
    there : (j : SessionId) → Holds P id (on_session j (effect op j) sessions).0
    there j = elim (Bool-cases (j == id)) [
      | inl same ↦
          let e : j ≡ id = ground arith in
          (
            (effect op id h.0).0,
            rw (get-on_session (effect op j) j id sessions, same, h.1, e),
            keeps h.0 h.2,
          )
      | inr other ↦ (h.0, rw (get-on_session (effect op j) j id sessions, other) h.1, h.2)
    ]

    named : (t : Option SessionId) → Holds P id (on_named t (effect op) sessions).0
    named none = h
    named (some j) = there j

-- Once a session's agent is announced or gone, no sequence of reports, announces and polls, from
-- whatever process and for whatever session, gives it a state before a `running` report comes: a
-- session whose guard is closed and that has no state stays so.
pub run-IsGuarded :
    (ops : List AgentOp) (id : SessionId) (sessions : Sessions)
    → All (λ op. reports_running op ≡ false) ops
    → Holds IsGuarded id sessions
    → Holds IsGuarded id (run ops sessions)
unfolding run
run-IsGuarded [] id sessions quiet h = h
run-IsGuarded (op ∷ ops) id sessions quiet h =
    run-IsGuarded ops id (apply op sessions).0 quiet.1
      (apply-Holds IsGuarded op id sessions (λ s. effect-IsGuarded op id s quiet.0) h)

-- Every clear and every announce that changes something closes the guard and leaves no state; the
-- others change nothing and broadcast nothing.
pub boundary-IsGuarded :
    (id : SessionId) (agent : KnownAgent) (run_id : Option String) (s : DaemonSession)
    → ((announce id agent run_id s ≡ (s, none)) ⊎ IsGuarded (announce id agent run_id s).0)
      × ((report id agent none none run_id s ≡ (s, none))
          ⊎ IsGuarded (report id agent none none run_id s).0)
unfolding announce report
boundary-IsGuarded id agent run_id s = (announced_case, reported_case)
  where
    announced_case :
        (announce id agent run_id s ≡ (s, none)) ⊎ IsGuarded (announce id agent run_id s).0
    announced_case = ground arith

    reported_case :
        (report id agent none none run_id s ≡ (s, none))
        ⊎ IsGuarded (report id agent none none run_id s).0
    reported_case = ground arith

-- A report that carries another run id than the session's changes nothing and broadcasts nothing,
-- whatever its agent, state and detail.
pub report_stale_run :
    (id : SessionId) (agent : KnownAgent) (state : Option AgentState) (detail : Option String)
    (current other : String) (s : DaemonSession)
    → s.agent_run_id ≡ some current
    → str_eq current other ≡ false
    → report id agent state detail (some other) s ≡ (s, none)
unfolding report
report_stale_run id agent (some state) detail current other s c d = ground arith
report_stale_run id agent none detail current other s c d = ground arith

abbrev pub over_error : AgentState → Option AgentState
over_error waiting = some error
over_error state = some state

-- On a session in `error` whose guard is open, a report of the same run is ignored, with no
-- broadcast, exactly if it says `waiting`; `running`, `needs-approval` and `error` all replace it.
pub report-over_error :
    (id : SessionId) (agent : KnownAgent) (state : AgentState) (detail run_id : Option String)
    (s : DaemonSession)
    → s.agent_state ≡ some error
    → s.agent_report_requires_running ≡ false
    → run_id_mismatch s.agent_run_id run_id ≡ false
    → ((report id agent (some state) detail run_id s).0.agent_state ≡ over_error state)
      × (((report id agent (some state) detail run_id s).1 ≡ none) ↔ (state ≡ waiting))
unfolding report
report-over_error id agent state detail run_id s e g r =
    (ground arith, (λ h. ground arith, λ h. ground arith))
