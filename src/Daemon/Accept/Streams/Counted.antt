-- ===== src/Daemon/Accept/Streams/Counted.antt =====
-- The channel that the accept thread puts in, and what it does with one that it has put in.
use hitch.Prelude.{ℕ, ◌+◌, ◌<◌, ◌≡◌, refl, Bool, true, false, ◌||◌, arith, ◌==◌, All, All-map}
use hitch.Prelude.Assoc.{insert-All}
use hitch.Prelude.Keys.{Other, OneEach, insert-OneEach}
use hitch.Daemon.Clients.{ClientState}
use hitch.Daemon.Relay
use hitch.Daemon.Relay.{RelayChannel, SshAgentRelay}
use hitch.Daemon.Accept
use hitch.Daemon.Accept.{System, Accepting, Turn}
use hitch.Daemon.Accept.Owners.Shrinking.{Shrinks, close_channel-Shrinks}
use hitch.Daemon.Accept.Owners.Admitted.{reaped-All}
use hitch.Daemon.Accept.Streams.{
  is_held, is_settled, is_accounted, Settles, close_channel-Settles, has_writer-insert,
}

pub record IsCounted (s : System) : Type 0 where
  pub keys : OneEach s.relay.channels
  pub numbers : All (λ entry. entry.0 < s.relay.next_channel) s.relay.channels
  pub streams : (n : ℕ) → n < s.next_stream → is_accounted n s ≡ true

-- A turn on the table that keeps every stream settled.
pub settle-IsCounted :
    (s : System) (r : SshAgentRelay)
    → Shrinks s.relay r
    → Settles s.relay r
    → IsCounted s
    → IsCounted (record s { relay = r })
settle-IsCounted s r sh st c = record {
  keys = st.keys;
  numbers = rw sh.numbered (sh.kept (λ entry. entry.0 < s.relay.next_channel) c.numbers);
  streams = λ n lt. ground (arith, c.streams n lt, st.settled n);
}

-- The accept thread lets go of what it holds, if it holds anything, for a place that holds nothing.
pub leave-IsCounted :
    (s t : System)
    → OneEach t.relay.channels
    → All (λ entry. entry.0 < t.relay.next_channel) t.relay.channels
    → t.next_stream ≡ s.next_stream
    → ((n : ℕ) → is_accounted n s ≡ true → is_accounted n t ≡ true)
    → IsCounted s
    → IsCounted t
leave-IsCounted s t keys numbers streams keeps c = record {
  keys = keys;
  numbers = numbers;
  streams = λ n lt. keeps n (c.streams n (rw (← streams) lt));
}

pub close-IsCounted :
    (channel : ℕ) (s : System)
    → IsCounted s
    → IsCounted (record s { relay = Relay.close_channel channel s.relay })
close-IsCounted channel s c =
    settle-IsCounted s _ (close_channel-Shrinks channel s.relay)
      (close_channel-Settles channel s.relay c.keys) c

-- Where the channel stands in the table, the thread has nothing in hand.
opened-IsCounted :
    (registry : ClientState) (channel owner : ℕ) (s : System)
    → s.accepting ≡ Accept.opening channel owner
    → IsCounted s
    → IsCounted (record s { accepting = Accept.listening; registry = registry })
opened-IsCounted registry channel owner s at_open c =
    leave-IsCounted s _ c.keys c.numbers refl (λ n h. rw at_open at h) c

pub send_open-IsCounted :
    (result : Accept.Opening) (channel owner : ℕ) (s : System)
    → s.accepting ≡ Accept.opening channel owner
    → IsCounted s
    → IsCounted (Accept.send_open result channel owner s)
unfolding Accept.send_open
send_open-IsCounted Accept.pumped channel owner s e c =
    opened-IsCounted s.registry channel owner s e c
send_open-IsCounted Accept.no_pump channel owner s e c =
    opened-IsCounted s.registry channel owner _ e (close-IsCounted channel s c)
send_open-IsCounted Accept.send_failed channel owner s e c =
    opened-IsCounted s.registry channel owner _ e (close-IsCounted channel s c)
send_open-IsCounted Accept.timed_out channel owner s e c =
    opened-IsCounted _ channel owner _ e (close-IsCounted channel s c)

-- No channel has the number that comes next.
next-Other :
    (r : SshAgentRelay)
    → All (λ entry. entry.0 < r.next_channel) r.channels
    → All (Other r.next_channel) r.channels
next-Other r =
    All-map (λ entry. entry.0 < r.next_channel) (Other r.next_channel)
      (λ entry h. ground (arith, h)) r.channels

widened :
    (r : SshAgentRelay)
    → All (λ entry. entry.0 < r.next_channel) r.channels
    → All (λ entry. entry.0 < r.next_channel + 1) r.channels
widened r = All-map (λ entry. entry.0 < r.next_channel) _ (λ entry h. omega (arith, h)) r.channels

inserted-settled :
    (stream owner n : ℕ) (r : SshAgentRelay)
    → All (λ entry. entry.0 < r.next_channel) r.channels
    → (is_settled n r || stream == n) ≡ true
    → is_settled n (Accept.inserted stream owner r) ≡ true
inserted-settled stream owner n r numbers h =
    let chan : RelayChannel = record { writer = stream; owner = owner } in
    ground (arith, has_writer-insert n r.next_channel chan r.channels (next-Other r numbers), h)

pub admitted-IsCounted :
    (down gone : Bool) (stream owner : ℕ) (s : System)
    → s.accepting ≡ Accept.split stream owner
    → IsCounted s
    → IsCounted (Accept.admitted down gone stream owner s)
unfolding Accept.admitted
admitted-IsCounted true gone stream owner s e c =
    leave-IsCounted s _ c.keys (widened s.relay c.numbers) refl
      (λ n h. let at : is_held n s.accepting ≡ (stream == n) = rw e refl in ground (arith, at, h)) c
admitted-IsCounted false false stream owner s e c =
    leave-IsCounted s _ (insert-OneEach s.relay.next_channel _ s.relay.channels c.keys)
      (insert-All (λ entry. entry.0 < s.relay.next_channel + 1) s.relay.next_channel _
        s.relay.channels (omega arith) (widened s.relay c.numbers))
      refl
      (λ n h.
        let at : is_held n s.accepting ≡ (stream == n) = rw e refl in
        ground (arith, at, h, inserted-settled stream owner n s.relay c.numbers))
      c
admitted-IsCounted false true stream owner s e c =
    let r = Accept.inserted stream owner s.relay in
    let st =
      close_channel-Settles s.relay.next_channel r
        (insert-OneEach s.relay.next_channel _ s.relay.channels c.keys) in
    leave-IsCounted s _ st.keys
      (rw (close_channel-Shrinks s.relay.next_channel r).numbered (
        reaped-All (λ entry. entry.0 < s.relay.next_channel + 1) stream owner s.relay
          (widened s.relay c.numbers)))
      refl
      (λ n h.
        let at : is_held n s.accepting ≡ (stream == n) = rw e refl in
        ground (arith, at, h, st.settled n, inserted-settled stream owner n s.relay c.numbers))
      c
