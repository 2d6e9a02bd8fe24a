-- ===== src/Daemon/Replay.antt =====
-- How one client gets a session's output in crates/hitch-daemon/src/main.rs: the gates of
-- `ClientSink`, `record_and_broadcast_output`, and `replay_sessions_to_client` with the thread that
-- it spawns. The writer is taken to be open. `broadcast_session_output`, `broadcast_job_event` and
-- `broadcast_snapshot_ordered_event` treat their gates alike; an event is of any type here.
pub mod Order
pub mod Chunks
pub mod Delivered
use hitch.Prelude.{Bool, true, false, List, [], ◌∷◌, ◌++◌, Bytes, ◌==◌, if◌then◌else◌, length}
use hitch.Prelude.Assoc.{Assoc}
use hitch.Core.Domain.{SessionId}
use hitch.Terminal.Log.{record_output, replay_snapshot}

-- A gate of `ClientSink`, the buffer behind it, and what was handed to the client's `ClientWriter`,
-- in order. What that queue sheds of it under backpressure is in Writer.antt and not here.
pub record Gate (A : Type 0) : Type 0 where
  pub live : Bool
  pub pending : List A
  pub wire : List A

abbrev pub new_gate : {A : Type 0} → Gate A
new_gate = record { live = false; pending = []; wire = [] }

-- The body of a broadcast's loop. The flag is read again under the buffer's lock, which the drain
-- holds, so that the second read decides.
unfoldable pub broadcast : {A : Type 0} → A → Gate A → Gate A
broadcast event gate =
    if gate.live
    then record gate { wire = gate.wire ++ event ∷ [] }
    else record gate { pending = gate.pending ++ event ∷ [] }

-- `pending.drain(..)`, written out, and then the flag, under the buffer's lock.
unfoldable pub drain_and_open : {A : Type 0} → Gate A → Gate A
drain_and_open gate = record { live = true; pending = []; wire = gate.wire ++ gate.pending }

-- The dispatcher's state, for one client: the sessions with their restored scrollback in the order
-- of iteration, the logs, the client's output gate, and what the replay thread has yet to send.
pub record Dispatcher : Type 0 where
  pub sessions : List (SessionId × Bytes)
  pub logs : Assoc Bytes
  pub gate : Gate (SessionId × Bytes)
  pub to_send : List (SessionId × Bytes)

abbrev pub registered : List (SessionId × Bytes) → Assoc Bytes → Dispatcher
registered sessions logs = record {
  sessions = sessions;
  logs = logs;
  gate = new_gate;
  to_send = [];
}

unfoldable pub record_and_broadcast_output : SessionId → Bytes → Dispatcher → Dispatcher
record_and_broadcast_output id bytes d = record d {
  logs = record_output id bytes d.logs;
  gate = broadcast (id, bytes) d.gate;
}

-- The snapshots, without the empty ones, which are not sent.
unfoldable pub replay_items : List (SessionId × Bytes) → Assoc Bytes → List (SessionId × Bytes)
replay_items [] logs = []
replay_items ((id, restored) ∷ sessions) logs =
    let rest = replay_items sessions logs in
    let scrollback = replay_snapshot id restored logs in
    if length scrollback == 0 then rest else (id, scrollback) ∷ rest

unfoldable pub replay_sessions_to_client : Dispatcher → Dispatcher
replay_sessions_to_client d = record d { to_send = replay_items d.sessions d.logs }

-- What happens next: an output event, or the replay thread's next write, or, when it has written all
-- its snapshots, its drain.
pub data Step : Type 0 where
  outputs : SessionId → Bytes → Step
  sends opens : Step

abbrev pub send_next : Dispatcher → List (SessionId × Bytes) → Dispatcher
send_next d [] = d
send_next d (item ∷ items) = record d {
  gate = record (d.gate) { wire = d.gate.wire ++ item ∷ [] };
  to_send = items;
}

abbrev pub open_when_sent : Dispatcher → List (SessionId × Bytes) → Dispatcher
open_when_sent d [] = record d { gate = drain_and_open d.gate }
open_when_sent d (item ∷ items) = d

unfoldable pub step : Step → Dispatcher → Dispatcher
step (outputs id bytes) d = record_and_broadcast_output id bytes d
step sends d = send_next d d.to_send
step opens d = open_when_sent d d.to_send

abbrev pub run : List Step → Dispatcher → Dispatcher
run [] d = d
run (s ∷ ss) d = run ss (step s d)

abbrev pub outputs_of : List Step → List (SessionId × Bytes)
outputs_of [] = []
outputs_of (outputs id bytes ∷ ss) = (id, bytes) ∷ outputs_of ss
outputs_of (sends ∷ ss) = outputs_of ss
outputs_of (opens ∷ ss) = outputs_of ss

abbrev pub record_all : List (SessionId × Bytes) → Dispatcher → Dispatcher
record_all [] d = d
record_all ((id, bytes) ∷ events) d = record_all events (record_and_broadcast_output id bytes d)
