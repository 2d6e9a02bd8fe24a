-- ===== src/Terminal/Log.antt =====
-- The per-session broadcast logs of `OutputBroadcaster` (crates/hitch-daemon/src/main.rs).
use mathlib.Core.List.{foldl, flatten}
use hitch.Prelude.{
  ℕ, ◌-◌, ◌≤◌, ◌≡◌, refl, sym, ap, ◌∙◌, inl, inr, Option, none, some, List, [], ◌∷◌, ◌++◌,
  append-nil, append_assoc, arith, Bytes, ltb, ◌==◌, if◌then◌else◌, ltb→ge, tests, Bool-cases,
  length, drop,
}
use hitch.Prelude.Assoc
use hitch.Prelude.Assoc.{Assoc, get-insert}
use hitch.Terminal.Scrollback
use hitch.Terminal.Scrollback.{ScrollbackBuffer, default_scrollback_capacity, snapshot}
use hitch.Terminal.Scrollback.Latest.{
  latest, latest-latest-append, length-latest, snapshot-append, latest_all,
}

-- `log.extend(bytes)`, then `log.drain(..overflow)`.
abbrev trimmed : Bytes → Bytes
trimmed log =
    if ltb default_scrollback_capacity (length log)
    then drop (length log - default_scrollback_capacity) log
    else log

-- `self.logs.entry(session_id).or_default()`
abbrev or_default : Option Bytes → Bytes
or_default none = []
or_default (some log) = log

unfoldable pub record_output : ℕ → Bytes → Assoc Bytes → Assoc Bytes
record_output session_id bytes logs =
    Assoc.insert session_id (trimmed (or_default (Assoc.get session_id logs) ++ bytes)) logs

unfoldable pub replay_snapshot : ℕ → Bytes → Assoc Bytes → Bytes
replay_snapshot session_id restored logs = restored ++ or_default (Assoc.get session_id logs)

-- The dispatcher's output events, one after another: a session and a chunk of its bytes each.
unfoldable pub record_stream : List (ℕ × Bytes) → Assoc Bytes → Assoc Bytes
record_stream [] logs = logs
record_stream ((id, bytes) ∷ events) logs = record_stream events (record_output id bytes logs)

-- The chunks of one session, in order.
abbrev pub chunks_of : ℕ → List (ℕ × Bytes) → List Bytes
chunks_of s [] = []
chunks_of s ((id, bytes) ∷ events) =
    let rest = chunks_of s events in if id == s then bytes ∷ rest else rest

trimmed-latest : (log : Bytes) → trimmed log ≡ latest default_scrollback_capacity log
trimmed-latest log = elim (Bool-cases (ltb default_scrollback_capacity (length log))) [
  | inl over ↦ rw over
  | inr fits ↦
      let e : length log - default_scrollback_capacity ≡ 0 = omega (tests, ltb→ge _ _ fits) in
      rw (fits, e)
]

abbrev pub log_of : ℕ → Assoc Bytes → Bytes
log_of s logs = or_default (Assoc.get s logs)

log_of-record_output :
    (s id : ℕ) (bytes : Bytes) (logs : Assoc Bytes)
    → log_of s (record_output id bytes logs) ≡ (
        if id == s
        then latest default_scrollback_capacity (log_of s logs ++ bytes)
        else log_of s logs)
unfolding record_output
log_of-record_output s id bytes logs =
    let new_log = trimmed (log_of id logs ++ bytes) in
    rw (get-insert id s new_log logs) (elim (Bool-cases (id == s)) [
      | inl same ↦
          let e : id ≡ s = ground arith in rw (same, e) (trimmed-latest (log_of s logs ++ bytes))
      | inr other ↦ rw other
    ])

log_of-record_stream :
    (s : ℕ) (events : List (ℕ × Bytes)) (logs : Assoc Bytes)
    → length (log_of s logs) ≤ default_scrollback_capacity
    → log_of s (record_stream events logs)
      ≡ latest default_scrollback_capacity (log_of s logs ++ flatten (chunks_of s events))
unfolding record_stream flatten
log_of-record_stream s [] logs h =
    rw append-nil (sym (latest_all default_scrollback_capacity (log_of s logs) h))
log_of-record_stream s ((id, bytes) ∷ events) logs h = elim (Bool-cases (id == s)) [
  | inl same ↦
      let now = rw same at (log_of-record_output s id bytes logs) in
      let later =
        log_of-record_stream s events (record_output id bytes logs)
          (rw now (length-latest default_scrollback_capacity (log_of s logs ++ bytes))) in
      rw (same, later, now)
        (latest-latest-append default_scrollback_capacity (log_of s logs ++ bytes)
            (flatten (chunks_of s events))
          ∙ ap (latest default_scrollback_capacity)
              (append_assoc (log_of s logs) bytes (flatten (chunks_of s events))))
  | inr other ↦
      let now = rw other at (log_of-record_output s id bytes logs) in
      let later = log_of-record_stream s events (record_output id bytes logs) (rw now h) in
      rw (other, later, now)
]

-- Whatever the output of all the sessions, and however it is interleaved, the snapshot that a
-- client is sent for one session is the restored bytes and then exactly what that session's PTY
-- ring of the default capacity holds after the same chunks.
pub replay_snapshot-record_stream :
    (s : ℕ) (restored : Bytes) (events : List (ℕ × Bytes))
    → replay_snapshot s restored (record_stream events [])
      ≡ restored
        ++ snapshot (
            foldl Scrollback.append
              (Scrollback.new default_scrollback_capacity)
              (chunks_of s events))
unfolding replay_snapshot
replay_snapshot-record_stream s restored events =
    let empty : log_of s [] ≡ [] = unfold Assoc.get in refl in
    let streamed = log_of-record_stream s events [] (rw empty (omega arith)) in
    ap (◌++◌ restored) (
      rw empty at streamed
      ∙ sym (snapshot-append default_scrollback_capacity (chunks_of s events)).0)
