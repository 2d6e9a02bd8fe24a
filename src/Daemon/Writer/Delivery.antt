-- ===== src/Daemon/Writer/Delivery.antt =====
-- The writer under any interleaving of its callers and its thread: what reaches the socket.
pub mod Steps
pub mod Runs
use hitch.Prelude.{◌≤◌, ◌≡◌, ◌⊎◌, Bool, true, false, List, [], ◌∷◌, ◌++◌, if◌then◌else◌}
use hitch.Daemon.Writer
use hitch.Daemon.Writer.{OutboundFrame, OutboundQueue, ClientWriter}
use hitch.Daemon.Writer.Shed.{
  controls, outputs, total, controls-append, total-append, Shed, shed-Shed,
}

pub data Thread : Type 0 where
  idle : Thread
  writing : OutboundFrame → Thread
  ended : Thread

abbrev in_flight : Thread → List OutboundFrame
in_flight (writing f) = f ∷ []
in_flight idle = []
in_flight ended = []

-- The writer, its thread, the frames that are on the socket, and the frames that `enqueue` has
-- accepted since the connection began.
pub record Connection : Type 0 where
  pub writer : ClientWriter
  pub thread : Thread
  pub sent : List OutboundFrame
  pub accepted : List OutboundFrame

abbrev pub connected : Connection
connected = record { writer = Writer.spawn; thread = idle; sent = []; accepted = [] }

-- A critical section of a caller or of the thread: `writes` says whether the socket took the frame.
pub data Turn : Type 0 where
  enqueues : OutboundFrame → Turn
  closes takes : Turn
  writes : Bool → Turn

unfoldable after_take : Connection → Writer.Next × OutboundQueue → Connection
after_take c (Writer.frame f, q) = record c {
  writer = record (c.writer) { queue = q };
  thread = writing f;
}
after_take c (Writer.ended, q) = record c { thread = ended }
after_take c (Writer.waiting, q) = c

unfoldable finish : Connection → Bool → Thread → Connection
finish c true (writing f) = record c { thread = idle; sent = c.sent ++ f ∷ [] }
finish c false (writing f) = record c {
  writer = (Writer.write_failed f c.writer).0;
  thread = ended;
}
finish c taken idle = c
finish c taken ended = c

unfoldable take_turn : Connection → Thread → Connection
unfolding after_take
take_turn c idle = after_take c (Writer.pop_front c.writer.queue)
take_turn c (writing f) = c
take_turn c ended = c

unfoldable accept :
    Connection → OutboundFrame → OutboundQueue × Bool × List Writer.Signal → Connection
accept c f (q, taken, signals) = record c {
  writer = record (c.writer) { queue = q };
  accepted = if taken then c.accepted ++ f ∷ [] else c.accepted;
}

unfoldable pub step : Turn → Connection → Connection
unfolding finish take_turn accept
step (enqueues f) c = accept c f (Writer.enqueue f c.writer.queue)
step closes c = record c { writer = record (c.writer) { queue = Writer.close c.writer.queue } }
step takes c = take_turn c c.thread
step (writes taken) c = finish c taken c.thread

abbrev pub run : List Turn → Connection → Connection
run [] c = c
run (t ∷ ts) c = run ts (step t c)

-- The frames on their way, oldest first.
abbrev pub carried : Connection → List OutboundFrame
carried c = c.sent ++ (in_flight c.thread ++ c.writer.queue.frames)

-- What the queue's counter and its budget say.
pub IsBudgeted : OutboundQueue → Type 0
IsBudgeted q =
    (q.bytes ≡ total q.frames)
    × ((q.bytes ≤ Writer.client_outbound_cap_bytes) ⊎ (outputs q.frames ≡ []))
