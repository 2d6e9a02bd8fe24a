-- ===== src/Daemon/Replay/Order.antt =====
-- Snapshot, buffered output and live output reach the client in this order.
use hitch.Prelude.{
  ◌≡◌, refl, sym, ap, ◌∙◌, inl, inr, true, false, List, [], ◌∷◌, ◌++◌, append-nil, append_assoc,
  Bytes, Bool-cases,
}
use hitch.Core.Domain.{SessionId}
use hitch.Terminal.Log.{record_stream}
use hitch.Daemon.Replay.{
  Gate, Dispatcher, broadcast, drain_and_open, record_and_broadcast_output, Step, outputs, sends,
  opens, send_next, open_when_sent, step, run, outputs_of, record_all, record_output,
}

-- All that the client was written or is to be written, in order.
abbrev pub carried : Dispatcher → List (SessionId × Bytes)
carried d = d.gate.wire ++ (d.to_send ++ d.gate.pending)

-- Nothing waits behind an open gate.
pub record IsGated (d : Dispatcher) : Type 0 where
  pub sent : d.gate.live ≡ true → d.to_send ≡ []
  pub drained : d.gate.live ≡ true → d.gate.pending ≡ []

pub record Follows (more : List (SessionId × Bytes)) (d after : Dispatcher) : Type 0 where
  pub gated : IsGated after
  pub carries : carried after ≡ carried d ++ more

broadcast_live :
    {A : Type 0} (event : A) (gate : Gate A)
    → gate.live ≡ true
    → broadcast event gate ≡ record gate { wire = gate.wire ++ event ∷ [] }
unfolding broadcast
broadcast_live event gate live = simp live

broadcast_closed :
    {A : Type 0} (event : A) (gate : Gate A)
    → gate.live ≡ false
    → broadcast event gate ≡ record gate { pending = gate.pending ++ event ∷ [] }
unfolding broadcast
broadcast_closed event gate closed = simp closed

output-Follows :
    (id : SessionId) (bytes : Bytes) (d : Dispatcher)
    → IsGated d
    → Follows ((id, bytes) ∷ []) d (record_and_broadcast_output id bytes d)
unfolding record_and_broadcast_output
output-Follows id bytes d g = elim (Bool-cases d.gate.live) [
  | inl live ↦ rw (broadcast_live (id, bytes) d.gate live) (record {
    gated = record { sent = g.sent; drained = g.drained };
    carries = simp (g.sent live, g.drained live, append-nil);
  })
  | inr closed ↦ rw (broadcast_closed (id, bytes) d.gate closed) (record {
    gated = record { sent = g.sent; drained = λ live. absurd (cc (live, closed)) };
    carries = simp append_assoc;
  })
]

send-Follows :
    (d : Dispatcher) (items : List (SessionId × Bytes))
    → d.to_send ≡ items
    → IsGated d
    → Follows [] d (send_next d items)
send-Follows d [] e g = record { gated = g; carries = sym (append-nil _) }
send-Follows d (item ∷ items) e g = record {
  gated = record { sent = λ live. absurd (cc (e, g.sent live)); drained = g.drained };
  carries = simp (e, append_assoc, append-nil);
}

open-Follows :
    (d : Dispatcher) (items : List (SessionId × Bytes))
    → d.to_send ≡ items
    → IsGated d
    → Follows [] d (open_when_sent d items)
unfolding drain_and_open
open-Follows d [] e g = record {
  gated = record { sent = λ _. e; drained = λ _. refl };
  carries = simp (e, append-nil);
}
open-Follows d (item ∷ items) e g = record { gated = g; carries = sym (append-nil _) }

step-Follows : (s : Step) (d : Dispatcher) → IsGated d → Follows (outputs_of (s ∷ [])) d (step s d)
unfolding step
step-Follows (outputs id bytes) d g = output-Follows id bytes d g
step-Follows sends d g = send-Follows d d.to_send refl g
step-Follows opens d g = open-Follows d d.to_send refl g

outputs_of-cons :
    (s : Step) (ss : List Step) → outputs_of (s ∷ []) ++ outputs_of ss ≡ outputs_of (s ∷ ss)
outputs_of-cons (outputs id bytes) ss = refl
outputs_of-cons sends ss = refl
outputs_of-cons opens ss = refl

pub run-Follows :
    (ss : List Step) (d : Dispatcher) → IsGated d → Follows (outputs_of ss) d (run ss d)
run-Follows [] d g = record { gated = g; carries = sym (append-nil _) }
run-Follows (s ∷ ss) d g =
    let first = step-Follows s d g in
    let rest = run-Follows ss (step s d) first.gated in
    record {
      gated = rest.gated;
      carries =
          rest.carries
          ∙ ap (λ xs. xs ++ outputs_of ss) first.carries
          ∙ append_assoc (carried d) (outputs_of (s ∷ [])) (outputs_of ss)
          ∙ ap (λ xs. carried d ++ xs) (outputs_of-cons s ss);
    }

pub record_all_closed :
    (events : List (SessionId × Bytes)) (d : Dispatcher)
    → d.gate.live ≡ false
    → record_all events d ≡ record d {
      logs = record_stream events d.logs;
      gate = record (d.gate) { pending = d.gate.pending ++ events };
    }
unfolding record_and_broadcast_output record_stream
record_all_closed [] d closed = simp append-nil
record_all_closed ((id, bytes) ∷ events) d closed =
    rw (broadcast_closed (id, bytes) d.gate closed) (
      record_all_closed events
        (record d {
          logs = record_output id bytes d.logs;
          gate = record (d.gate) { pending = d.gate.pending ++ (id, bytes) ∷ [] };
        })
        closed
      ∙ simp append_assoc)
