-- ===== src/Daemon/Replay/Delivered.antt =====
-- What the writer of a client was handed of a session once its gate is open.
use hitch.Prelude.{◌≡◌, refl, ap, ◌∙◌, true, List, [], ◌∷◌, ◌++◌, append-nil, append_assoc, Bytes}
use mathlib.Core.List.{flatten}
use hitch.Prelude.Assoc.{Assoc}
use hitch.Core.Domain.{SessionId}
use hitch.Terminal.Log.{replay_snapshot, record_stream}
use hitch.Daemon.Replay.{
  Dispatcher, registered, replay_items, replay_sessions_to_client, Step, run, outputs_of,
  record_all,
}
use hitch.Daemon.Replay.Order.{carried, run-Follows, record_all_closed}
use hitch.Daemon.Replay.Chunks.{bytes_of, bytes_of-append, Without, bytes_of-replay_items}

-- The client registers, the dispatcher handles some output and then the client's replay, and then
-- any steps follow.
abbrev pub attached :
    List (SessionId × Bytes) → Assoc Bytes → List (SessionId × Bytes) → List Step → Dispatcher
attached sessions logs before steps =
    run steps (replay_sessions_to_client (record_all before (registered sessions logs)))

wire_when_live :
    (sessions : List (SessionId × Bytes)) (logs : Assoc Bytes) (before : List (SessionId × Bytes))
    (steps : List Step)
    → (attached sessions logs before steps).gate.live ≡ true
    → (attached sessions logs before steps).gate.wire
      ≡ replay_items sessions (record_stream before logs) ++ (before ++ outputs_of steps)
unfolding replay_sessions_to_client
wire_when_live sessions logs before steps live =
    let start = replay_sessions_to_client (record_all before (registered sessions logs)) in
    let is_closed =
      ap (λ d. d.gate.live) (record_all_closed before (registered sessions logs) refl) in
    let f = run-Follows steps start (record {
      sent = λ open_now. absurd (cc (open_now, is_closed));
      drained = λ open_now. absurd (cc (open_now, is_closed));
    }) in
    let arrived = simp (f.gated.sent live, f.gated.drained live, append-nil) at f.carries in
    arrived
    ∙ ap (λ d. carried (replay_sessions_to_client d) ++ outputs_of steps)
        (record_all_closed before (registered sessions logs) refl)
    ∙ append_assoc (replay_items sessions (record_stream before logs)) before (outputs_of steps)

-- Once a client's output gate is open, what its writer was handed of a session is: the session's snapshot
-- at the replay, then the output that was broadcast between the client's registration and its
-- replay, although the snapshot holds it already, and then the output after the replay, each in
-- order and once. The steps of the dispatcher and of the replay thread interleave in any way, and
-- the session occurs once among the daemon's sessions.
pub wire-attached :
    (s : SessionId) (restored : Bytes) (front back : List (SessionId × Bytes)) (logs : Assoc Bytes)
    (before : List (SessionId × Bytes)) (steps : List Step)
    → Without s front
    → Without s back
    → (attached (front ++ (s, restored) ∷ back) logs before steps).gate.live ≡ true
    → bytes_of s (attached (front ++ (s, restored) ∷ back) logs before steps).gate.wire
      ≡ replay_snapshot s restored (record_stream before logs)
        ++ (bytes_of s before ++ bytes_of s (outputs_of steps))
wire-attached s restored front back logs before steps f b live =
    let items = replay_items (front ++ (s, restored) ∷ back) (record_stream before logs) in
    ap (bytes_of s) (wire_when_live (front ++ (s, restored) ∷ back) logs before steps live)
    ∙ bytes_of-append s items (before ++ outputs_of steps)
    ∙ ap (λ xs. xs ++ bytes_of s (before ++ outputs_of steps))
        (bytes_of-replay_items s restored front back (record_stream before logs) f b)
    ∙ ap (λ xs. replay_snapshot s restored (record_stream before logs) ++ xs)
        (bytes_of-append s before (outputs_of steps))

-- A client whose replay is handled before any output after its registration: once its gate is open,
-- what its writer was handed of a session is the snapshot and then every byte of the output after it, with
-- no gap and no duplicate, however the steps interleave.
pub wire-attached_at_once :
    (s : SessionId) (restored : Bytes) (front back : List (SessionId × Bytes)) (logs : Assoc Bytes)
    (steps : List Step)
    → Without s front
    → Without s back
    → (attached (front ++ (s, restored) ∷ back) logs [] steps).gate.live ≡ true
    → bytes_of s (attached (front ++ (s, restored) ∷ back) logs [] steps).gate.wire
      ≡ replay_snapshot s restored logs ++ bytes_of s (outputs_of steps)
unfolding record_stream flatten
wire-attached_at_once s restored front back logs steps f b live =
    wire-attached s restored front back logs [] steps f b live
