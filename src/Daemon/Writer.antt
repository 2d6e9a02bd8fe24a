-- ===== src/Daemon/Writer.antt =====
-- `ClientWriter` of crates/hitch-daemon/src/main.rs: the bounded queue between the daemon and one
-- client's socket, and the steps of the thread that drains it. Each handler holds the queue's lock
-- from its first read to its last write. A completion channel is the number of its receiver, and
-- what is sent on one is part of a handler's result.
pub mod Shed
pub mod Delivery
use hitch.Prelude.{
  ℕ, zero, suc, ◌+◌, ◌-◌, ◌*◌, Bool, true, false, Option, none, some, List, [], ◌∷◌, ◌++◌, Bytes,
  ltb, if◌then◌else◌, length,
}

abbrev pub client_outbound_cap_bytes : ℕ
client_outbound_cap_bytes = 8 * 1024 * 1024

pub record OutboundFrame : Type 0 where
  pub bytes : Bytes
  pub droppable : Bool
  pub done : Option ℕ

pub record OutboundQueue : Type 0 where
  pub frames : List OutboundFrame
  pub bytes : ℕ
  pub closed : Bool

pub record ClientWriter : Type 0 where
  pub queue : OutboundQueue
  pub failed : Bool

-- `OutboundQueue::default()` and the writer that `spawn` makes of it.
abbrev pub empty_queue : OutboundQueue
empty_queue = record { frames = []; bytes = 0; closed = false }

abbrev pub spawn : ClientWriter
spawn = record { queue = empty_queue; failed = false }

-- What a completion channel is sent: the write succeeded, or the pipe is broken.
pub data Signal : Type 0 where
  written broken : ℕ → Signal

abbrev broken_for : Option ℕ → List Signal
broken_for none = []
broken_for (some receiver) = broken receiver ∷ []

abbrev written_for : Option ℕ → List Signal
written_for none = []
written_for (some receiver) = written receiver ∷ []

-- `q.frames.iter().position(|f| f.droppable)` and `q.frames.remove(pos)`: the first droppable frame
-- and the queue without it.
unfoldable pub remove_droppable : List OutboundFrame → Option (OutboundFrame × List OutboundFrame)
remove_droppable [] = none
remove_droppable (f ∷ fs) =
    if f.droppable
    then some (f, fs)
    else elim (remove_droppable fs) [ none ↦ none | some (g, rest) ↦ some (g, f ∷ rest) ]

-- The `while` loop of `enqueue`. A round removes a frame, so the number of frames is fuel enough.
unfoldable pub shed : ℕ → List OutboundFrame → ℕ → List OutboundFrame × ℕ
shed zero frames bytes = (frames, bytes)
shed (suc fuel) frames bytes =
    let round : List OutboundFrame × ℕ = elim (remove_droppable frames) [
      | none ↦ (frames, bytes)
      | some (dropped, rest) ↦ shed fuel rest (bytes - length dropped.bytes)
    ] in
    if ltb client_outbound_cap_bytes bytes then round else (frames, bytes)

unfoldable pub enqueue : OutboundFrame → OutboundQueue → OutboundQueue × Bool × List Signal
unfolding shed
enqueue frame q =
    if q.closed
    then (q, false, broken_for frame.done)
    else let frames = q.frames ++ frame ∷ [] in
      let (kept, bytes) = shed (suc (length frames)) frames (q.bytes + length frame.bytes) in
      (record q { frames = kept; bytes = bytes }, true, [])

unfoldable pub close : OutboundQueue → OutboundQueue
close q = record q { closed = true }

-- The thread, at the head of its loop: it takes a frame, ends on a closed empty queue, or waits.
pub data Next : Type 0 where
  frame : OutboundFrame → Next
  ended waiting : Next

abbrev pub popped : OutboundQueue → List OutboundFrame → Next × OutboundQueue
popped q [] = (if q.closed then ended else waiting, q)
popped q (f ∷ rest) = (frame f, record q { frames = rest; bytes = q.bytes - length f.bytes })

unfoldable pub pop_front : OutboundQueue → Next × OutboundQueue
pop_front q = popped q q.frames

signals_broken : List OutboundFrame → List Signal
signals_broken [] = []
signals_broken (f ∷ fs) = broken_for f.done ++ signals_broken fs

-- The thread, after `write_all` and `flush` of the frame that it took.
unfoldable pub written_frame : OutboundFrame → List Signal
written_frame f = written_for f.done

-- The write failed: the thread marks the writer, closes and empties the queue, and ends.
unfoldable pub write_failed : OutboundFrame → ClientWriter → ClientWriter × List Signal
unfolding signals_broken
write_failed f w = (
  record { queue = record { frames = []; bytes = 0; closed = true }; failed = true },
  broken_for f.done ++ signals_broken w.queue.frames,
)
