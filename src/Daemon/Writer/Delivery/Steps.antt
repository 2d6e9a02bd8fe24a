-- ===== src/Daemon/Writer/Delivery/Steps.antt =====
-- What every critical section of the writer keeps.
use hitch.Prelude.{
  suc, ◌+◌, ◌-◌, ◌≡◌, refl, sym, ap, ◌∙◌, ◌⊎◌, inl, inr, Bool, true, false, List, [], ◌∷◌, ◌++◌,
  append-nil, append_assoc, arith, Bool-cases, length, List-cases,
}
use hitch.Daemon.Writer
use hitch.Daemon.Writer.{OutboundFrame, OutboundQueue, ClientWriter}
use hitch.Daemon.Writer.Shed.{controls, total, controls-append, total-append, Shed, shed-Shed}
use hitch.Daemon.Writer.Delivery.{
  Thread, idle, writing, ended, in_flight, Connection, connected, Turn, enqueues, closes, takes,
  writes, after_take, finish, take_turn, accept, step, run, carried, IsBudgeted,
}

pub record IsFaithful (c : Connection) : Type 0 where
  pub budget : IsBudgeted c.writer.queue
  pub lost : List OutboundFrame
  pub delivered : controls (carried c) ++ lost ≡ controls c.accepted
  pub only_on_failure : c.writer.failed ≡ false → lost ≡ []
  pub closed_on_failure : c.writer.failed ≡ true → c.writer.queue.closed ≡ true

-- `Shed` of the queue that `enqueue` leaves.
pub enqueue_open :
    (f : OutboundFrame) (q : OutboundQueue)
    → q.closed ≡ false
    → q.bytes ≡ total q.frames
    → Shed (q.frames ++ f ∷ []) ((Writer.enqueue f q).0.frames) ((Writer.enqueue f q).0.bytes)
unfolding Writer.enqueue
enqueue_open f q live counted =
    let frames = q.frames ++ f ∷ [] in
    rw live (
      shed-Shed (suc (length frames)) frames (q.bytes + length f.bytes)
        (omega (arith, counted, total-append q.frames (f ∷ []))) (omega arith))

enqueue_shut :
    (f : OutboundFrame) (q : OutboundQueue)
    → q.closed ≡ true
    → Writer.enqueue f q ≡ (q, false, Writer.broken_for f.done)
unfolding Writer.enqueue
enqueue_shut f q shut = simp shut

enqueue_live :
    (f : OutboundFrame) (q : OutboundQueue)
    → q.closed ≡ false
    → Writer.enqueue f q ≡ ((Writer.enqueue f q).0, true, [])
unfolding Writer.enqueue
enqueue_live f q live = simp live

enqueue-closed : (f : OutboundFrame) (q : OutboundQueue) → (Writer.enqueue f q).0.closed ≡ q.closed
unfolding Writer.enqueue
enqueue-closed f q = ground arith

enqueue-IsBudgeted :
    (f : OutboundFrame) (q : OutboundQueue) → IsBudgeted q → IsBudgeted (Writer.enqueue f q).0
unfolding IsBudgeted
enqueue-IsBudgeted f q b = elim (Bool-cases q.closed) [
  | inl shut ↦ rw (enqueue_shut f q shut) b
  | inr live ↦ let s = enqueue_open f q live b.0 in (s.counted, s.bounded)
]

old_accepted :
    (c : Connection) (lost : List OutboundFrame)
    → controls (carried c) ++ lost ≡ controls c.accepted
    → lost ≡ []
    → controls c.accepted
      ≡ controls c.sent ++ controls (in_flight c.thread) ++ controls c.writer.queue.frames
old_accepted c lost d gone = sym d ∙ simp (gone, controls-append, append_assoc, append-nil)

enqueues-IsFaithful :
    (f : OutboundFrame) (c : Connection) → IsFaithful c → IsFaithful (step (enqueues f) c)
unfolding step accept IsBudgeted
enqueues-IsFaithful f c r = elim (Bool-cases c.writer.queue.closed) [
  | inl shut ↦ rw (enqueue_shut f c.writer.queue shut) r
  | inr live ↦
      let s = enqueue_open f c.writer.queue live r.budget.0 in
      let running : c.writer.failed ≡ false = ground (arith, live, r.closed_on_failure) in
      let gone = r.only_on_failure running in
      rw (enqueue_live f c.writer.queue live) (record {
        budget = enqueue-IsBudgeted f c.writer.queue r.budget;
        lost = [];
        delivered = simp (
          controls-append,
          s.same_controls,
          append_assoc,
          append-nil,
          old_accepted c r.lost r.delivered gone,
        );
        only_on_failure = λ _. refl;
        closed_on_failure = λ failed. absurd (cc (running, failed));
      })
]

closes-IsFaithful : (c : Connection) → IsFaithful c → IsFaithful (step closes c)
unfolding step Writer.close IsBudgeted
closes-IsFaithful c r = record {
  budget = r.budget;
  lost = r.lost;
  delivered = r.delivered;
  only_on_failure = r.only_on_failure;
  closed_on_failure = λ _. refl;
}

pop_front_some :
    (q : OutboundQueue) (f : OutboundFrame) (rest : List OutboundFrame)
    → q.frames ≡ f ∷ rest
    → Writer.pop_front q
      ≡ (Writer.frame f, record q { frames = rest; bytes = q.bytes - length f.bytes })
unfolding Writer.pop_front
pop_front_some q f rest e = ap (Writer.popped q) e

pop_front_none :
    (c : Connection)
    → c.writer.queue.frames ≡ []
    → (after_take c (Writer.pop_front c.writer.queue) ≡ record c { thread = ended })
      ⊎ (after_take c (Writer.pop_front c.writer.queue) ≡ c)
unfolding after_take Writer.pop_front
pop_front_none c e = elim (Bool-cases c.writer.queue.closed) [
  | inl shut ↦ inl (ap (λ xs. after_take c (Writer.popped c.writer.queue xs)) e ∙ simp shut)
  | inr live ↦ inr (ap (λ xs. after_take c (Writer.popped c.writer.queue xs)) e ∙ simp live)
]

rest-IsBudgeted :
    (q : OutboundQueue) (f : OutboundFrame) (rest : List OutboundFrame)
    → q.frames ≡ f ∷ rest
    → IsBudgeted q
    → IsBudgeted (record q { frames = rest; bytes = q.bytes - length f.bytes })
unfolding IsBudgeted
rest-IsBudgeted q f rest e b =
    let whole : q.bytes ≡ length f.bytes + total rest = b.0 ∙ simp e in
    (
      omega (arith, whole),
      elim b.1 [
        | inl fits ↦ inl (omega (arith, fits))
        | inr none_left ↦ inr (ground (arith, none_left, e))
      ],
    )

delivered_taken :
    (c : Connection) (f : OutboundFrame) (rest lost : List OutboundFrame)
    → controls (carried c) ++ lost ≡ controls c.accepted
    → c.thread ≡ idle
    → c.writer.queue.frames ≡ f ∷ rest
    → controls (c.sent ++ f ∷ rest) ++ lost ≡ controls c.accepted
delivered_taken c f rest lost d e split = simp (e, split) at d

delivered_writing :
    (c : Connection) (f : OutboundFrame) (lost : List OutboundFrame)
    → controls (carried c) ++ lost ≡ controls c.accepted
    → c.thread ≡ writing f
    → controls (c.sent ++ f ∷ c.writer.queue.frames) ++ lost ≡ controls c.accepted
delivered_writing c f lost d e = simp e at d

takes-IsFaithful :
    (c : Connection) (t : Thread) → c.thread ≡ t → IsFaithful c → IsFaithful (take_turn c t)
unfolding take_turn after_take
takes-IsFaithful c (writing f) e r = r
takes-IsFaithful c ended e r = r
takes-IsFaithful c idle e r = elim (List-cases c.writer.queue.frames) [
  | inl empty ↦ elim (pop_front_none c empty) [
    | inl over ↦ rw over (record {
      budget = r.budget;
      lost = r.lost;
      delivered = simp e at r.delivered;
      only_on_failure = r.only_on_failure;
      closed_on_failure = r.closed_on_failure;
    })
    | inr waits ↦ rw waits r
  ]
  | inr ((f, rest), split) ↦ rw (pop_front_some c.writer.queue f rest split) (record {
    budget = rest-IsBudgeted c.writer.queue f rest split r.budget;
    lost = r.lost;
    delivered = delivered_taken c f rest r.lost r.delivered e split;
    only_on_failure = r.only_on_failure;
    closed_on_failure = r.closed_on_failure;
  })
]

writes-IsFaithful :
    (taken : Bool) (c : Connection) (t : Thread)
    → c.thread ≡ t
    → IsFaithful c
    → IsFaithful (finish c taken t)
unfolding finish Writer.write_failed IsBudgeted
writes-IsFaithful true c (writing f) e r = record {
  budget = r.budget;
  lost = r.lost;
  delivered = simp (append_assoc) (delivered_writing c f r.lost r.delivered e);
  only_on_failure = r.only_on_failure;
  closed_on_failure = r.closed_on_failure;
}
writes-IsFaithful false c (writing f) e r = record {
  budget = (refl, inr refl);
  lost = controls (f ∷ c.writer.queue.frames) ++ r.lost;
  delivered =
      simp (append-nil, ← append_assoc, ← controls-append)
        (delivered_writing c f r.lost r.delivered e);
  only_on_failure = λ running. absurd (cc running);
  closed_on_failure = λ _. refl;
}
writes-IsFaithful true c idle e r = r
writes-IsFaithful false c idle e r = r
writes-IsFaithful true c ended e r = r
writes-IsFaithful false c ended e r = r

step-IsFaithful : (t : Turn) (c : Connection) → IsFaithful c → IsFaithful (step t c)
step-IsFaithful (enqueues f) c r = enqueues-IsFaithful f c r
step-IsFaithful closes c r = closes-IsFaithful c r
step-IsFaithful takes c r = unfold step in takes-IsFaithful c c.thread refl r
step-IsFaithful (writes taken) c r = unfold step in writes-IsFaithful taken c c.thread refl r

pub run-IsFaithful : (ts : List Turn) (c : Connection) → IsFaithful c → IsFaithful (run ts c)
run-IsFaithful [] c r = r
run-IsFaithful (t ∷ ts) c r = run-IsFaithful ts (step t c) (step-IsFaithful t c r)

pub connected-IsFaithful : IsFaithful connected
unfolding IsBudgeted
connected-IsFaithful = record {
  budget = (refl, inr refl);
  lost = [];
  delivered = refl;
  only_on_failure = λ _. refl;
  closed_on_failure = λ failed. absurd (cc failed);
}
