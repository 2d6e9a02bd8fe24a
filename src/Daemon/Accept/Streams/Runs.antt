-- ===== src/Daemon/Accept/Streams/Runs.antt =====
-- Every git-side stream is accounted for under every interleaving.
use hitch.Prelude.{
  ℕ, ◌+◌, ◌<◌, ◌≡◌, refl, inl, inr, Bool, true, false, List, [], ◌∷◌, arith, ltb, ◌==◌, Bool-cases,
  All,
}
use hitch.Prelude.Keys.{OneEach}
use hitch.Daemon.Clients.{ClientState}
use hitch.Daemon.Relay
use hitch.Daemon.Relay.{RelayChannel, SshAgentRelay}
use hitch.Daemon.Accept
use hitch.Daemon.Accept.{System, Accepting, Turn}
use hitch.Daemon.Accept.Owners.Shrinking.{
  write_to_channel_for-Shrinks, close_channel_for-Shrinks, close_each-Shrinks,
}
use hitch.Daemon.Accept.Streams.{
  is_held, is_accounted, drain-Settles, write_to_channel_for-Settles, close_channel_for-Settles,
  close_each-Settles,
}
use hitch.Daemon.Accept.Streams.Counted.{
  IsCounted, settle-IsCounted, leave-IsCounted, close-IsCounted, send_open-IsCounted,
  admitted-IsCounted,
}

-- One more stream, which is accounted for at once.
taken-IsCounted :
    (s t : System)
    → OneEach t.relay.channels
    → All (λ entry. entry.0 < t.relay.next_channel) t.relay.channels
    → t.next_stream ≡ s.next_stream + 1
    → ((n : ℕ) → is_accounted n s ≡ true → is_accounted n t ≡ true)
    → is_accounted s.next_stream t ≡ true
    → IsCounted s
    → IsCounted t
taken-IsCounted s t keys numbers one_more keeps new c = record {
  keys = keys;
  numbers = numbers;
  streams = λ n lt. elim (Bool-cases (ltb n s.next_stream)) [
    | inl old ↦ keeps n (c.streams n (ground (arith, old)))
    | inr last ↦ let e : n ≡ s.next_stream = ground (arith, last, lt, one_more) in rw e new
  ];
}

accepts-IsCounted :
    (down : Bool) (s : System)
    → s.accepting ≡ Accept.listening
    → IsCounted s
    → IsCounted (Accept.accepts down s)
unfolding Accept.accepts
accepts-IsCounted true s e c =
    taken-IsCounted s _ c.keys c.numbers refl
      (λ n h. let at : is_held n s.accepting ≡ false = rw e refl in ground (arith, at, h))
      (ground arith) c
accepts-IsCounted false s e c =
    taken-IsCounted s _ c.keys c.numbers refl
      (λ n h. let at : is_held n s.accepting ≡ false = rw e refl in ground (arith, at, h))
      (ground arith) c

accept_fails-IsCounted :
    (down : Bool) (s : System)
    → s.accepting ≡ Accept.listening
    → IsCounted s
    → IsCounted (Accept.accept_fails down s)
unfolding Accept.accept_fails
accept_fails-IsCounted true s e c = leave-IsCounted s _ c.keys c.numbers refl (λ n h. rw e at h) c
accept_fails-IsCounted false s e c = leave-IsCounted s _ c.keys c.numbers refl (λ n h. h) c

resolve-IsCounted :
    (splits : Bool) (stream : ℕ) (routed : Accept.Routed) (s : System)
    → s.accepting ≡ Accept.took stream
    → IsCounted s
    → IsCounted (Accept.resolve splits stream routed s)
unfolding Accept.resolve
resolve-IsCounted true stream (Accept.relay owner) s e c =
    leave-IsCounted s _ c.keys c.numbers refl (λ n h. rw e at h) c
resolve-IsCounted false stream (Accept.relay owner) s e c =
    leave-IsCounted s _ c.keys c.numbers refl
      (λ n h. let at : is_held n s.accepting ≡ (stream == n) = rw e refl in ground (arith, at, h)) c
resolve-IsCounted splits stream (Accept.local path) s e c =
    leave-IsCounted s _ c.keys c.numbers refl
      (λ n h. let at : is_held n s.accepting ≡ (stream == n) = rw e refl in ground (arith, at, h)) c
resolve-IsCounted splits stream Accept.nobody s e c =
    leave-IsCounted s _ c.keys c.numbers refl
      (λ n h. let at : is_held n s.accepting ≡ (stream == n) = rw e refl in ground (arith, at, h)) c

takes-IsCounted :
    (a : Accepting) (s : System) → s.accepting ≡ a → IsCounted s → IsCounted (Accept.on_takes a s)
unfolding Accept.on_takes
takes-IsCounted Accept.listening s e c = accepts-IsCounted s.relay.shutdown s e c
takes-IsCounted other s e c = c

fails-IsCounted :
    (a : Accepting) (s : System) → s.accepting ≡ a → IsCounted s → IsCounted (Accept.on_fails a s)
unfolding Accept.on_fails
fails-IsCounted Accept.listening s e c = accept_fails-IsCounted s.relay.shutdown s e c
fails-IsCounted other s e c = c

resolves-IsCounted :
    (splits : Bool) (a : Accepting) (s : System)
    → s.accepting ≡ a
    → IsCounted s
    → IsCounted (Accept.on_resolves splits a s)
unfolding Accept.on_resolves
resolves-IsCounted splits (Accept.took stream) s e c =
    resolve-IsCounted splits stream (Accept.route s.registry) s e c
resolves-IsCounted splits other s e c = c

admits-IsCounted :
    (a : Accepting) (s : System) → s.accepting ≡ a → IsCounted s → IsCounted (Accept.on_admits a s)
unfolding Accept.on_admits Accept.admit
admits-IsCounted (Accept.split stream owner) s e c = admitted-IsCounted _ _ stream owner s e c
admits-IsCounted other s e c = c

opens-IsCounted :
    (result : Accept.Opening) (a : Accepting) (s : System)
    → s.accepting ≡ a
    → IsCounted s
    → IsCounted (Accept.on_opens result a s)
unfolding Accept.on_opens
opens-IsCounted result (Accept.opening channel owner) s e c =
    send_open-IsCounted result channel owner s e c
opens-IsCounted result other s e c = c

drains-IsCounted : (down : Bool) (s : System) → IsCounted s → IsCounted (Accept.on_drains down s)
unfolding Accept.on_drains
drains-IsCounted true s c = record {
  keys = unfold Relay.drain in tt;
  numbers = unfold Relay.drain in tt;
  streams = λ n lt. ground (arith, c.streams n lt, (drain-Settles s.relay).settled n);
}
drains-IsCounted false s c = c

step-IsCounted : (t : Turn) (s : System) → IsCounted s → IsCounted (Accept.step t s)
unfolding Accept.step Relay.close_channels_for_client
step-IsCounted Accept.takes s c = takes-IsCounted s.accepting s refl c
step-IsCounted Accept.fails s c = fails-IsCounted s.accepting s refl c
step-IsCounted (Accept.resolves splits) s c = resolves-IsCounted splits s.accepting s refl c
step-IsCounted Accept.admits s c = admits-IsCounted s.accepting s refl c
step-IsCounted (Accept.opens result) s c = opens-IsCounted result s.accepting s refl c
step-IsCounted (Accept.pump_ends channel) s c = close-IsCounted channel s c
step-IsCounted (Accept.writes taken client channel bytes) s c =
    settle-IsCounted s _ (write_to_channel_for-Shrinks taken client channel bytes s.relay)
      (write_to_channel_for-Settles taken client channel bytes s.relay c.keys) c
step-IsCounted (Accept.closes client channel) s c =
    settle-IsCounted s _ (close_channel_for-Shrinks client channel s.relay)
      (close_channel_for-Settles client channel s.relay c.keys) c
step-IsCounted (Accept.connection op) s c = record {
  keys = c.keys;
  numbers = c.numbers;
  streams = c.streams;
}
step-IsCounted (Accept.sweeps id) s c =
    let ids = Relay.owned_ids id s.relay.channels in
    let d =
      settle-IsCounted s _ (close_each-Shrinks ids s.relay) (close_each-Settles ids s.relay c.keys)
        c in
    record { keys = d.keys; numbers = d.numbers; streams = d.streams }
step-IsCounted Accept.shuts s c = record { keys = c.keys; numbers = c.numbers; streams = c.streams }
step-IsCounted Accept.drains s c = drains-IsCounted s.relay.shutdown s c

run-IsCounted : (ts : List Turn) (s : System) → IsCounted s → IsCounted (Accept.run ts s)
run-IsCounted [] s c = c
run-IsCounted (t ∷ ts) s c = run-IsCounted ts (Accept.step t s) (step-IsCounted t s c)

start-IsCounted : (registry : ClientState) → IsCounted (Accept.start registry)
start-IsCounted registry = record {
  keys = tt;
  numbers = tt;
  streams = λ n lt. absurd (omega (arith, lt));
}

-- Under any interleaving from the start of the relay, every git-side stream that was accepted was
-- handed to the local agent, or was closed, or is the stream of a channel in the table, or is the
-- one that the accept thread has in hand: none is forgotten while git waits on it.
pub relay_run-accounted :
    (ts : List Turn) (registry : ClientState) (stream : ℕ)
    → stream < (Accept.run ts (Accept.start registry)).next_stream
    → is_accounted stream (Accept.run ts (Accept.start registry)) ≡ true
relay_run-accounted ts registry stream =
    (run-IsCounted ts (Accept.start registry) (start-IsCounted registry)).streams stream
