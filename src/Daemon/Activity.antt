-- ===== src/Daemon/Activity.antt =====
-- The output-activity gate of crates/hitch-daemon/src/main.rs: `mark_output_active` and
-- `collect_output_quiet_edges`. An `Instant` and a `Duration` are milliseconds; a difference stops
-- at 0, as `saturating_duration_since` does.
pub mod Edges
use hitch.Prelude.{
  ℕ, ◌-◌, Bool, true, false, ◌&&◌, Option, none, some, List, [], ◌∷◌, leb, if◌then◌else◌,
}
use hitch.Prelude.Assoc.{Assoc, get, insert}
use hitch.Core.Domain.{SessionId, WorktreeId}
use hitch.Daemon.Session.{DaemonSession, Sessions, session_worktree_id}

abbrev pub output_active_quiet : ℕ
output_active_quiet = 4000

-- `Event::OutputActive`
pub record OutputActive : Type 0 where
  pub session_id : SessionId
  pub worktree_id : Option WorktreeId
  pub active : Bool

-- What the handler does with the session it found.
unfoldable pub marked : SessionId → ℕ → DaemonSession → DaemonSession × Option OutputActive
marked id now s = if s.output_active then (record s { last_output_at = some now }, none) else (
  record s { last_output_at = some now; output_active = true },
  some (record { session_id = id; worktree_id = session_worktree_id s.session; active = true }),
)

abbrev pub on_marked :
    SessionId → ℕ → Sessions → Option DaemonSession → Sessions × Option OutputActive
on_marked id now sessions none = (sessions, none)
on_marked id now sessions (some s) =
    let (after, event) = marked id now s in (insert id after sessions, event)

unfoldable pub mark_output_active : SessionId → ℕ → Sessions → Sessions × Option OutputActive
unfolding marked
mark_output_active id now sessions = on_marked id now sessions (get id sessions)

-- `matches!(quiet_for, Some(elapsed) if elapsed >= quiet)`
abbrev pub is_quiet : ℕ → ℕ → Option ℕ → Bool
is_quiet now quiet none = false
is_quiet now quiet (some last) = leb quiet (now - last)

unfoldable pub is_falling : ℕ → ℕ → DaemonSession → Bool
is_falling now quiet s = s.output_active && is_quiet now quiet s.last_output_at

unfoldable pub collect_output_quiet_edges : ℕ → ℕ → Sessions → Sessions × List OutputActive
unfolding is_falling
collect_output_quiet_edges now quiet [] = ([], [])
collect_output_quiet_edges now quiet ((id, s) ∷ sessions) =
    let (rest, edges) = collect_output_quiet_edges now quiet sessions in
    if is_falling now quiet s
    then (
      (id, record s { output_active = false }) ∷ rest,
      record {
        session_id = s.session.id;
        worktree_id = session_worktree_id s.session;
        active = false;
      }
          ∷ edges,
    )
    else ((id, s) ∷ rest, edges)
