-- ===== src/Examples/ClientRuns.antt =====
-- Runs of a client's queue, of its gates, and of the choice of the driving client, of
-- crates/hitch-daemon/src/main.rs.
use hitch.Prelude.{ℕ, ◌≤◌, ◌≡◌, refl, ◌⊎◌, true, false, none, List, [], ◌∷◌, ◌++◌, Bytes}
use hitch.Prelude.Assoc.{get, insert}
use mathlib.Core.List.{Sublist}
use hitch.Daemon.Writer
use hitch.Daemon.Writer.{OutboundFrame, OutboundQueue}
use hitch.Daemon.Writer.Shed.{controls, outputs, total, IsNeeded}
use hitch.Daemon.Writer.Delivery
use hitch.Daemon.Writer.Delivery.{Turn, enqueues, takes, writes, connected, carried, IsBudgeted}
use hitch.Daemon.Writer.Delivery.Runs.{run-controls, run-IsBudgeted, enqueue-sheds_oldest}
use hitch.Terminal.Log.{record_output, record_stream, replay_snapshot}
use hitch.Daemon.Replay
use hitch.Daemon.Replay.{Step, sends, opens, outputs_of}
use hitch.Daemon.Replay.Chunks.{bytes_of}
use hitch.Daemon.Replay.Delivered.{attached, wire-attached}
use hitch.Daemon.Clients.{ClientState}
use hitch.Daemon.Clients.Driving
use hitch.Daemon.Clients.Driving.{ClientOp, registers, unregisters, relays, locals, IsDriven}
use hitch.Daemon.Clients.Driving.Runs.{client_run-IsDriven}

abbrev control : OutboundFrame
control = record { bytes = 1 ∷ 2 ∷ []; droppable = false; done = none }

abbrev output : OutboundFrame
output = record { bytes = 3 ∷ []; droppable = true; done = none }

abbrev turns : List Turn
turns = enqueues control ∷ enqueues output ∷ takes ∷ writes true ∷ enqueues control ∷ []

still_sound : (Delivery.run turns connected).writer.failed ≡ false
unfolding Delivery.step Writer.enqueue Writer.pop_front
still_sound = refl

run-controls_example :
    controls (carried (Delivery.run turns connected))
    ≡ controls (Delivery.run turns connected).accepted
run-controls_example = run-controls turns still_sound

run-IsBudgeted_example : IsBudgeted (Delivery.run turns connected).writer.queue
run-IsBudgeted_example = run-IsBudgeted turns

abbrev queued : OutboundQueue
queued = record { frames = output ∷ control ∷ []; bytes = 3; closed = false }

enqueue-sheds_oldest_example :
    let whole = queued.frames ++ output ∷ [] in
    let kept = (Writer.enqueue output queued).0.frames in
    (dropped : List OutboundFrame) × (outputs whole ≡ dropped ++ outputs kept)
    × (controls kept ≡ controls whole)
    × Sublist kept whole
    × IsNeeded dropped (total kept)
    × ((total kept ≤ Writer.client_outbound_cap_bytes) ⊎ (outputs kept ≡ []))
enqueue-sheds_oldest_example = enqueue-sheds_oldest output queued refl refl

-- Two sessions; the client registers, one output comes, then the replay.
abbrev before : List (ℕ × Bytes)
before = (1, 5 ∷ []) ∷ []

abbrev steps : List Step
steps = sends ∷ Replay.outputs 1 (6 ∷ []) ∷ sends ∷ opens ∷ Replay.outputs 1 (7 ∷ []) ∷ []

abbrev replayed : List (ℕ × Bytes) → Replay.Dispatcher
replayed early = attached ((2, 8 ∷ []) ∷ (1, 4 ∷ []) ∷ []) [] early steps

is_live : (replayed before).gate.live ≡ true
unfolding Replay.step Replay.replay_sessions_to_client Replay.replay_items
    Replay.record_and_broadcast_output Replay.broadcast Replay.drain_and_open record_output
    replay_snapshot get insert
is_live = refl

is_live_at_once : (replayed []).gate.live ≡ true
unfolding Replay.step Replay.replay_sessions_to_client Replay.replay_items
    Replay.record_and_broadcast_output Replay.broadcast Replay.drain_and_open record_output
    replay_snapshot get insert
is_live_at_once = refl

wire-attached_example :
    bytes_of 1 (replayed before).gate.wire
    ≡ replay_snapshot 1 (4 ∷ []) (record_stream before [])
      ++ (bytes_of 1 before ++ bytes_of 1 (outputs_of steps))
wire-attached_example =
    wire-attached 1 (4 ∷ []) ((2, 8 ∷ []) ∷ []) [] [] before steps (refl, tt) tt is_live

abbrev no_clients : ClientState
no_clients = record { clients = []; next_client_id = 1; driving_client = none }

abbrev client_ops : List ClientOp
client_ops = registers ∷ registers ∷ relays 1 ∷ locals true 2 "/tmp/agent.sock" ∷ unregisters 2 ∷ []

undriven : IsDriven no_clients
undriven = record { keys = tt; below = tt; driver = tt }

client_run-IsDriven_example : IsDriven (Driving.run client_ops no_clients)
client_run-IsDriven_example = client_run-IsDriven client_ops no_clients undriven
