-- ===== src/Examples/AgentRuns.antt =====
-- Runs of the agent handlers and of the activity gate of crates/hitch-daemon/src/main.rs.
use hitch.Prelude.{
  ◌-◌, ◌≡◌, refl, ◌↔◌, inl, inr, true, false, none, some, List, [], ◌∷◌, arith, ltb, ◌==◌,
  Bool-cases, some-injective,
}
use hitch.Prelude.Assoc
use hitch.Core.Domain.{
  AgentState, Session, worktree, utf8, claude_code, running, needs_approval, waiting, error,
}
use hitch.Daemon.Session.{DaemonSession, Sessions}
use hitch.Daemon.Agent.{report, store_agent_report, on_named, on_session}
use hitch.Daemon.Agent.Ops
use hitch.Daemon.Agent.Ops.{
  AgentOp, reported, announced, polled, IsCoherent, Everywhere, run-IsCoherent,
}
use hitch.Daemon.Agent.Guard.{IsGuarded, Holds, run-IsGuarded, report-over_error, over_error}
use hitch.Daemon.Agent.Mirror
use hitch.Daemon.Agent.Mirror.{View, view_of, Mirrors, Wire, Turn, shows_of, run-Mirrors}
use mathlib.Core.Option
use hitch.Daemon.Activity.{mark_output_active, collect_output_quiet_edges}
use hitch.Daemon.Activity.Edges.{collect-mark}

abbrev a_session : Session
a_session = record { id = 7; name = "zsh"; parent = worktree 3; cwd = utf8 "/w" }

abbrev pub fresh : DaemonSession
fresh = record {
  session = a_session;
  restored_scrollback = [];
  agent = none;
  agent_state = none;
  agent_detail = none;
  agent_run_id = none;
  agent_report_requires_running = false;
  output_active = false;
  last_output_at = none;
}

abbrev failed : DaemonSession
failed = record fresh {
  agent = some claude_code;
  agent_state = some error;
  agent_detail = some "overloaded";
  agent_run_id = some "r1";
}

abbrev closed : DaemonSession
closed = record fresh {
  agent = some claude_code;
  agent_run_id = some "r1";
  agent_report_requires_running = true;
}

abbrev pub one : DaemonSession → Sessions
one s = (7, s) ∷ []

abbrev ops : List AgentOp
ops =
    announced claude_code (some 7) (some "r1")
    ∷ reported claude_code (some running) (some 7) none (some "r1")
    ∷ reported claude_code (some needs_approval) (some 7) (some "rm") (some "r1")
    ∷ polled 7 none
    ∷ []

abbrev late_ops : List AgentOp
late_ops =
    reported claude_code (some waiting) (some 7) none (some "r1")
    ∷ reported claude_code none (some 7) none (some "r1")
    ∷ []

fresh-IsCoherent : IsCoherent fresh
fresh-IsCoherent = record {
  no_agent = λ _. (refl, refl, refl);
  no_state = λ _. refl;
  guarded = λ _. refl;
}

one-found : (P : DaemonSession → Type 0) (t : DaemonSession) → P t → Everywhere P (one t)
unfolding Assoc.get
one-found P t p id s there = elim (Bool-cases (7 == id)) [
  | inl same ↦ rw (← some-injective (rw same at there)) p
  | inr other ↦ absurd (cc (rw other at there))
]

coherent : Everywhere IsCoherent (one fresh)
coherent = one-found IsCoherent fresh fresh-IsCoherent

run-IsCoherent_example : Everywhere IsCoherent (Ops.run ops (one fresh))
run-IsCoherent_example = run-IsCoherent ops (one fresh) coherent

guarded : Holds IsGuarded 7 (one closed)
unfolding Assoc.get
guarded = (closed, refl, (refl, refl))

run-IsGuarded_example : Holds IsGuarded 7 (Ops.run late_ops (one closed))
run-IsGuarded_example = run-IsGuarded late_ops 7 (one closed) (refl, (refl, tt)) guarded

abbrev shown : Assoc.Assoc View
shown = (7, view_of fresh) ∷ []

abbrev at_rest : Wire
at_rest = record { sessions = one fresh; in_flight = []; views = shown }

mirrored : Mirrors (one fresh) (shows_of at_rest)
unfolding Assoc.get
mirrored = record { at_id = λ id. ground arith }

abbrev report_of : AgentState → Turn
report_of s = Mirror.stores (reported claude_code (some s) (some 7) none (some "r1"))

abbrev kept_order : List Turn
kept_order = report_of running ∷ report_of waiting ∷ Mirror.sends 0 ∷ []

kept : Mirror.in_order kept_order at_rest ≡ true
unfolding Mirror.in_order Ops.apply store_agent_report on_named on_session report Assoc.get
    Assoc.insert
kept = refl

run-Mirrors_example :
    Mirrors (Mirror.run kept_order at_rest).sessions (shows_of (Mirror.run kept_order at_rest))
run-Mirrors_example = run-Mirrors kept_order at_rest kept mirrored

abbrev lost_order : List Turn
lost_order = report_of running ∷ report_of waiting ∷ Mirror.sends 1 ∷ Mirror.sends 0 ∷ []

-- Sent in the other order, two reports leave the client at the older one.
stale :
    Option.map (λ (v : View). v.state) (Assoc.get 7 (Mirror.run lost_order at_rest).views)
    ≡ some (some running)
unfolding Mirror.run Mirror.deliver Ops.apply store_agent_report on_named on_session report
    Assoc.get Assoc.insert
stale = refl

report-over_error_example :
    ((report 7 claude_code (some needs_approval) none (some "r1") failed).0.agent_state
      ≡ over_error needs_approval)
    × (((report 7 claude_code (some needs_approval) none (some "r1") failed).1 ≡ none)
        ↔ (needs_approval ≡ waiting))
report-over_error_example =
    report-over_error 7 claude_code needs_approval none (some "r1") failed refl refl refl

here : Assoc.get 7 (one fresh) ≡ some fresh
unfolding Assoc.get
here = refl

collect-mark_example :
    Assoc.get 7 (collect_output_quiet_edges 5000 4000 (mark_output_active 7 100 (one fresh)).0).0
    ≡ some (record fresh { last_output_at = some 100; output_active = ltb (5000 - 100) 4000 })
collect-mark_example = collect-mark 100 5000 4000 7 (one fresh) fresh here
