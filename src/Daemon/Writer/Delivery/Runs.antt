-- ===== src/Daemon/Writer/Delivery/Runs.antt =====
-- What reaches the socket, and what the queue holds, after any run of the writer.
use mathlib.Core.List.{Sublist}
use hitch.Prelude.{◌≤◌, ◌≡◌, ◌⊎◌, false, List, [], ◌∷◌, ◌++◌, append-nil, append_assoc}
use hitch.Daemon.Writer
use hitch.Daemon.Writer.{OutboundFrame, OutboundQueue, ClientWriter}
use hitch.Daemon.Writer.Shed.{controls, outputs, total, controls-append, IsNeeded}
use hitch.Daemon.Writer.Delivery.{in_flight, connected, Turn, run, carried, IsBudgeted}
use hitch.Daemon.Writer.Delivery.Steps.{enqueue_open, run-IsFaithful, connected-IsFaithful}

-- After any sequence of calls and thread steps on a new connection, as long as no write to the
-- socket has failed, the control frames written, in flight and queued, in that order, are exactly
-- the control frames that `enqueue` accepted, in the order of acceptance: shedding drops and
-- reorders none of them.
pub run-controls :
    (ts : List Turn)
    → (run ts connected).writer.failed ≡ false
    → controls (carried (run ts connected)) ≡ controls (run ts connected).accepted
run-controls ts sound =
    let r = run-IsFaithful ts connected connected-IsFaithful in
    simp (r.only_on_failure sound, append-nil) at r.delivered

-- After any sequence of calls and thread steps on a new connection, failed writes included, the
-- control frames written to the socket are a prefix of those that `enqueue` accepted.
pub run-sent :
    (ts : List Turn)
    → (rest : List OutboundFrame) × (controls (run ts connected).sent ++ rest
        ≡ controls (run ts connected).accepted)
run-sent ts =
    let c = run ts connected in
    let r = run-IsFaithful ts connected connected-IsFaithful in
    (
      controls (in_flight c.thread) ++ (controls c.writer.queue.frames ++ r.lost),
      simp (controls-append, append_assoc) at r.delivered,
    )

-- After any sequence of calls and thread steps on a new connection, the queue's byte counter is the
-- total length of its frames, and it is within `CLIENT_OUTBOUND_CAP_BYTES` unless only control
-- frames are queued.
pub run-IsBudgeted : (ts : List Turn) → IsBudgeted (run ts connected).writer.queue
run-IsBudgeted ts = (run-IsFaithful ts connected connected-IsFaithful).budget

-- On an open queue whose counter is right, `enqueue` keeps a sublist of the queue with the new frame
-- behind it: all its control frames, in their order, and of its droppable frames, in their order,
-- those that are left when some are dropped from the front. It drops no more than the cap asks for:
-- with the last dropped frame still there the queue would be over it. And what it keeps is within
-- the cap, or holds control frames alone.
pub enqueue-sheds_oldest :
    (f : OutboundFrame) (q : OutboundQueue)
    → q.closed ≡ false
    → q.bytes ≡ total q.frames
    → (let whole = q.frames ++ f ∷ [] in
        let kept = (Writer.enqueue f q).0.frames in
        (dropped : List OutboundFrame) × (outputs whole ≡ dropped ++ outputs kept)
        × (controls kept ≡ controls whole)
        × Sublist kept whole
        × IsNeeded dropped (total kept)
        × ((total kept ≤ Writer.client_outbound_cap_bytes) ⊎ (outputs kept ≡ [])))
enqueue-sheds_oldest f q live counted =
    let s = enqueue_open f q live counted in
    rw (← s.counted) (s.dropped, s.oldest, s.same_controls, s.among, s.needed, s.bounded)
