-- ===== src/Daemon/Agent/Mirror.antt =====
-- A client that applies the broadcasts sees what the daemon holds.
use Prim.Native.String.{String}
use mathlib.Core.Option
use hitch.Prelude.{
  ℕ, zero, suc, Bool, true, false, not, ◌&&◌, ◌++◌, if◌then◌else◌, ◌≡◌, ◌∙◌, refl, sym, ap, inl,
  inr, Option, none, some, List, [], ◌∷◌, arith, ◌==◌, Bool-cases,
}
use hitch.Prelude.Assoc
use hitch.Prelude.Assoc.{Assoc, get-insert}
use hitch.Core.Domain.{SessionId, KnownAgent, AgentState}
use hitch.Daemon.Session.{DaemonSession}
use hitch.Daemon.Agent.Ops.{
  AgentOp, reported, announced, polled, effect, apply, apply-effect, target, clear_stale_cases,
}
use hitch.Daemon.Agent.{
  AgentStateBroadcast, report, announce, on_named, on_session, on_found, Sessions,
}

-- What a client shows of a session's agent.
pub record View : Type 0 where
  pub agent : Option KnownAgent
  pub state : Option AgentState
  pub detail : Option String

abbrev pub view_of : DaemonSession → View
view_of s = record { agent = s.agent; state = s.agent_state; detail = s.agent_detail }

abbrev event_view : AgentStateBroadcast → View
event_view b = record { agent = b.agent; state = b.state; detail = b.detail }

-- `Event::AgentState` at a client.
abbrev on_event : AgentStateBroadcast → Assoc View → Assoc View
on_event b views = Assoc.insert b.session_id (event_view b) views

-- The daemon's sessions, the broadcasts that a handler has made under the state lock and not yet
-- sent, which it does behind the lock, and what the client shows.
pub record Wire : Type 0 where
  pub sessions : Sessions
  pub in_flight : List AgentStateBroadcast
  pub views : Assoc View

-- A handler stores, or one of the handlers that have something to send sends it.
pub data Turn : Type 0 where
  stores : AgentOp → Turn
  sends : ℕ → Turn

abbrev made : Option AgentStateBroadcast → List AgentStateBroadcast
made none = []
made (some b) = b ∷ []

-- The broadcasts left when the one in that place was sent, and what the client then shows.
unfoldable pub deliver :
    ℕ → List AgentStateBroadcast → Assoc View → List AgentStateBroadcast × Assoc View
deliver k [] views = ([], views)
deliver zero (b ∷ bs) views = (bs, on_event b views)
deliver (suc k) (b ∷ bs) views = let (rest, after) = deliver k bs views in (b ∷ rest, after)

unfoldable pub step : Turn → Wire → Wire
step (stores op) w =
    let (sessions, event) = apply op w.sessions in
    record w { sessions = sessions; in_flight = w.in_flight ++ made event }
step (sends k) w =
    let (rest, views) = deliver k w.in_flight w.views in
    record w { in_flight = rest; views = views }

unfoldable pub run : List Turn → Wire → Wire
unfolding step
run [] w = w
run (t ∷ ts) w = run ts (step t w)

-- Whether the broadcast in that place is of that session.
unfoldable pub is_of : SessionId → ℕ → List AgentStateBroadcast → Bool
is_of id k [] = false
is_of id zero (b ∷ bs) = b.session_id == id
is_of id (suc k) (b ∷ bs) = is_of id k bs

-- Whether it is the oldest one of its session.
unfoldable pub is_oldest : ℕ → List AgentStateBroadcast → Bool
unfolding is_of
is_oldest k [] = true
is_oldest zero (b ∷ bs) = true
is_oldest (suc k) (b ∷ bs) = not (is_of b.session_id k bs) && is_oldest k bs

-- Whether the handlers send what they made of each session in the order in which they stored it.
unfoldable pub in_order : List Turn → Wire → Bool
unfolding step is_oldest
in_order [] w = true
in_order (stores op ∷ ts) w = in_order ts (step (stores op) w)
in_order (sends k ∷ ts) w = is_oldest k w.in_flight && in_order ts (step (sends k) w)

-- What the client shows of a session when these have come, too.
abbrev pub shown : SessionId → List AgentStateBroadcast → Option View → Option View
shown id [] view = view
shown id (b ∷ bs) view = shown id bs (if b.session_id == id then some (event_view b) else view)

-- What a handler broadcasts tells what it changed of the view, and it is silent only if it
-- changed nothing of it.
abbrev Tells : SessionId → DaemonSession → DaemonSession → Option AgentStateBroadcast → Type 0
Tells id s s' none = view_of s' ≡ view_of s
Tells id s s' (some b) = (b.session_id ≡ id) × (event_view b ≡ view_of s')

report-Tells :
    (id : SessionId) (agent : KnownAgent) (state : Option AgentState)
    (detail run_id : Option String) (s : DaemonSession)
    → Tells id s (report id agent state detail run_id s).0 (report id agent state detail run_id s).1
unfolding report
report-Tells id agent (some state) detail run_id s = ground arith
report-Tells id agent none detail run_id s = ground arith

announce-Tells :
    (id : SessionId) (agent : KnownAgent) (run_id : Option String) (s : DaemonSession)
    → Tells id s (announce id agent run_id s).0 (announce id agent run_id s).1
unfolding announce
announce-Tells id agent run_id s = ground arith

effect-Tells :
    (op : AgentOp) (id : SessionId) (s : DaemonSession)
    → Tells id s (effect op id s).0 (effect op id s).1
unfolding effect
effect-Tells (reported agent state _ detail run_id) id s =
    report-Tells id agent state detail run_id s
effect-Tells (announced agent _ run_id) id s = announce-Tells id agent run_id s
effect-Tells (polled _ command) id s = elim (clear_stale_cases id command s) [
  | inl kept ↦ rw kept refl
  | inr gone ↦ rw gone (refl, refl)
]

-- For every session of the daemon and no other, what is shown is what the daemon holds.
pub record Mirrors (sessions : Sessions) (shows : SessionId → Option View) : Type 0 where
  pub at_id : (id : SessionId) → shows id ≡ Option.map view_of (Assoc.get id sessions)

Mirrors-told :
    (id : SessionId) (s s' : DaemonSession) (event : Option AgentStateBroadcast)
    (sessions : Sessions) (shows : SessionId → Option View)
    → Tells id s s' event
    → Assoc.get id sessions ≡ some s
    → Mirrors sessions shows
    → Mirrors (Assoc.insert id s' sessions) (λ j. shown j (made event) (shows j))
Mirrors-told id s s' none sessions shows t there m = record {
  at_id = λ j. rw get-insert (elim (Bool-cases (id == j)) [
    | inl same ↦
        let e : id ≡ j = ground arith in rw (same, ← e, m.at_id id, there) (ap some (sym t))
    | inr other ↦ rw other (m.at_id j)
  ]);
}
Mirrors-told id s s' (some b) sessions shows t there m = record {
  at_id = λ j.
      rw (t.0, t.1, get-insert)
        (elim (Bool-cases (id == j)) [
          | inl same ↦ rw same refl
          | inr other ↦ rw other (m.at_id j)
        ]);
}

on_found-Mirrors :
    (op : AgentOp) (id : SessionId) (sessions : Sessions) (shows : SessionId → Option View)
    (found : Option DaemonSession)
    → Assoc.get id sessions ≡ found
    → Mirrors sessions shows
    → Mirrors
        (on_found id (effect op id) sessions found).0
        (λ j. shown j (made (on_found id (effect op id) sessions found).1) (shows j))
unfolding on_found
on_found-Mirrors op id sessions shows none e m = m
on_found-Mirrors op id sessions shows (some s) e m =
    Mirrors-told id s (effect op id s).0 (effect op id s).1 sessions shows (effect-Tells op id s) e
      m

on_named-Mirrors :
    (op : AgentOp) (t : Option SessionId) (sessions : Sessions) (shows : SessionId → Option View)
    → Mirrors sessions shows
    → Mirrors
        (on_named t (effect op) sessions).0
        (λ j. shown j (made (on_named t (effect op) sessions).1) (shows j))
unfolding on_named on_session
on_named-Mirrors op none sessions shows m = m
on_named-Mirrors op (some id) sessions shows m =
    on_found-Mirrors op id sessions shows (Assoc.get id sessions) refl m

shown-append :
    (id : SessionId) (bs cs : List AgentStateBroadcast) (view : Option View)
    → shown id (bs ++ cs) view ≡ shown id cs (shown id bs view)
shown-append id [] cs view = refl
shown-append id (b ∷ bs) cs view =
    shown-append id bs cs (if b.session_id == id then some (event_view b) else view)

-- A broadcast of another session leaves what is shown of this one.
shown-deliver :
    (id : SessionId) (k : ℕ) (bs : List AgentStateBroadcast) (views : Assoc View)
    (view : Option View)
    → is_of id k bs ≡ false
    → shown id (deliver k bs views).0 view ≡ shown id bs view
unfolding deliver is_of
shown-deliver id k [] views view h = refl
shown-deliver id zero (b ∷ bs) views view h = rw h refl
shown-deliver id (suc k) (b ∷ bs) views view h =
    shown-deliver id k bs views (if b.session_id == id then some (event_view b) else view) h

shown-cons :
    (id : SessionId) (b : AgentStateBroadcast) (bs cs : List AgentStateBroadcast)
    (v w : Option View)
    → (b.session_id ≡ id → shown id bs (some (event_view b)) ≡ shown id cs (some (event_view b)))
    → (shown id bs v ≡ shown id cs w)
    → shown id (b ∷ bs) v ≡ shown id (b ∷ cs) w
shown-cons id b bs cs v w told kept = elim (Bool-cases (b.session_id == id)) [
  | inl same ↦ let e : b.session_id ≡ id = ground arith in rw (same) (told e)
  | inr other ↦ rw (other) kept
]

-- The oldest broadcast of a session may come first.
shown-oldest :
    (id : SessionId) (k : ℕ) (bs : List AgentStateBroadcast) (views : Assoc View)
    → is_oldest k bs ≡ true
    → shown id (deliver k bs views).0 (Assoc.get id (deliver k bs views).1)
      ≡ shown id bs (Assoc.get id views)
unfolding deliver is_oldest
shown-oldest id k [] views h = refl
shown-oldest id zero (b ∷ bs) views h = rw get-insert refl
shown-oldest id (suc k) (b ∷ bs) views h =
    shown-cons id b (deliver k bs views).0 bs (Assoc.get id (deliver k bs views).1)
      (Assoc.get id views)
      (λ e.
        let other : is_of id k bs ≡ false = rw (← e) (ground (arith, h)) in
        shown-deliver id k bs views (some (event_view b)) other)
      (shown-oldest id k bs views (ground (arith, h)))

abbrev pub shows_of : Wire → SessionId → Option View
shows_of w id = shown id w.in_flight (Assoc.get id w.views)

step-Mirrors :
    (t : Turn) (ts : List Turn) (w : Wire)
    → in_order (t ∷ ts) w ≡ true
    → Mirrors w.sessions (shows_of w)
    → (in_order ts (step t w) ≡ true) × Mirrors (step t w).sessions (shows_of (step t w))
unfolding step in_order
step-Mirrors (stores op) ts w h m = (
  h,
  rw (apply-effect op w.sessions) (record {
    at_id = λ j.
        shown-append j w.in_flight _ (Assoc.get j w.views)
        ∙ (on_named-Mirrors op (target op) w.sessions (shows_of w) m).at_id j;
  }),
)
step-Mirrors (sends k) ts w h m =
    let oldest : is_oldest k w.in_flight ≡ true = ground (arith, h) in
    (
      ground (arith, h),
      record { at_id = λ j. shown-oldest j k w.in_flight w.views oldest ∙ m.at_id j },
    )

-- The handlers of reports, announces and polls store under the lock and send their broadcast behind
-- it, with stores and sends of others in between. As long as the broadcasts of each session are sent
-- in the order of their stores, a client that started from what the daemon held will show, when it
-- has applied those that are still to come, for every session just the agent, state and detail that
-- the daemon holds; and with none to come it shows them already. (Nothing in the handlers keeps that
-- order where two of them report on one session.)
pub run-Mirrors :
    (ts : List Turn) (w : Wire)
    → in_order ts w ≡ true
    → Mirrors w.sessions (shows_of w)
    → Mirrors (run ts w).sessions (shows_of (run ts w))
unfolding run
run-Mirrors [] w h m = m
run-Mirrors (t ∷ ts) w h m =
    let (ordered, next) = step-Mirrors t ts w h m in run-Mirrors ts (step t w) ordered next
