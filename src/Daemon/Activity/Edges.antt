-- ===== src/Daemon/Activity/Edges.antt =====
-- The gate is open exactly while output is recent, and its edges alternate.
use hitch.Prelude.{
  ℕ, ◌-◌, ◌≡◌, refl, ap, ◌∙◌, true, false, not, ◌&&◌, Option, none, some, [], ◌∷◌, arith, ltb, leb,
  ◌==◌, if◌then◌else◌,
}
use hitch.Prelude.Assoc.{get, get-insert}
use hitch.Daemon.Session.{DaemonSession, Sessions}
use hitch.Daemon.Activity.{
  is_quiet, is_falling, collect_output_quiet_edges, mark_output_active, marked,
}

-- What a poll makes of a session.
abbrev pub polled : ℕ → ℕ → Option DaemonSession → Option DaemonSession
polled now quiet none = none
polled now quiet (some s) =
    some (if is_falling now quiet s then record s { output_active = false } else s)

get-collect :
    (now quiet id : ℕ) (sessions : Sessions)
    → get id (collect_output_quiet_edges now quiet sessions).0 ≡ polled now quiet (get id sessions)
unfolding collect_output_quiet_edges get
get-collect now quiet id [] = refl
get-collect now quiet id ((j, s) ∷ sessions) = ground (arith, get-collect now quiet id sessions)

-- After a poll at `now`, every session is as it was but for the gate: it is closed where it was open
-- and the last output is at least `quiet` before `now`, and else unchanged.
pub collect_output_quiet_edges-get :
    (now quiet id : ℕ) (sessions : Sessions) (s : DaemonSession)
    → get id sessions ≡ some s
    → get id (collect_output_quiet_edges now quiet sessions).0
      ≡ some (record s {
        output_active = s.output_active && not (is_quiet now quiet s.last_output_at);
      })
unfolding is_falling
collect_output_quiet_edges-get now quiet id sessions s there =
    rw (get-collect now quiet id sessions, there) (ground arith)

marked-state :
    (id now : ℕ) (s : DaemonSession)
    → (marked id now s).0 ≡ record s { last_output_at = some now; output_active = true }
unfolding marked
marked-state id now s = ground arith

get-mark :
    (id now : ℕ) (sessions : Sessions) (s : DaemonSession)
    → get id sessions ≡ some s
    → get id (mark_output_active id now sessions).0
      ≡ some (record s { last_output_at = some now; output_active = true })
unfolding mark_output_active
get-mark id now sessions s there =
    let same : (id == id) ≡ true = ground arith in
    rw (mark_output_active, there)
      (get-insert id id (marked id now s).0 sessions ∙ rw same (ap some (marked-state id now s)))

recent : (elapsed quiet : ℕ) → not (leb quiet elapsed) ≡ ltb elapsed quiet
recent elapsed quiet = ground arith

-- A session with output at `now` that is polled at `later`, with no output between, is active after
-- the poll exactly if less than `quiet` has passed.
pub collect-mark :
    (now later quiet id : ℕ) (sessions : Sessions) (s : DaemonSession)
    → get id sessions ≡ some s
    → get id (collect_output_quiet_edges later quiet (mark_output_active id now sessions).0).0
      ≡ some (record s { last_output_at = some now; output_active = ltb (later - now) quiet })
collect-mark now later quiet id sessions s there =
    let marked_there = get-mark id now sessions s there in
    collect_output_quiet_edges-get later quiet id (mark_output_active id now sessions).0
      (record s { last_output_at = some now; output_active = true }) marked_there
    ∙ ap (λ b. some (record s { last_output_at = some now; output_active = b }))
        (recent (later - now) quiet)
