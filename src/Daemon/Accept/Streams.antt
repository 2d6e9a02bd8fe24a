-- ===== src/Daemon/Accept/Streams.antt =====
-- What becomes of the git-side streams of crates/hitch-daemon/src/main.rs.
pub mod Counted
pub mod Runs
use hitch.Prelude.{
  ℕ, ◌≡◌, inl, inr, Bool, true, false, ◌||◌, some, List, [], ◌∷◌, ◌++◌, arith, Bytes, ◌==◌,
  Bool-cases, Option-cases, some-injective, All,
}
use hitch.Prelude.Assoc.{Assoc, get, insert, remove}
use hitch.Prelude.Keys.{elem, Other, OneEach, remove-OneEach, remove-absent, get-none-Other}
use hitch.Daemon.Relay
use hitch.Daemon.Relay.{RelayChannel, SshAgentRelay}
use hitch.Daemon.Accept
use hitch.Daemon.Accept.{System, Accepting}
use hitch.Daemon.Accept.Owners.Shrinking.{close_channel-known, close_channel-unknown}

abbrev pub has_writer : ℕ → Assoc RelayChannel → Bool
has_writer stream [] = false
has_writer stream ((channel, chan) ∷ m) = chan.writer == stream || has_writer stream m

abbrev pub is_held : ℕ → Accepting → Bool
is_held stream (Accept.took n) = n == stream
is_held stream (Accept.split n owner) = n == stream
is_held stream _ = false

-- The stream was closed, or it has a channel.
abbrev pub is_settled : ℕ → SshAgentRelay → Bool
is_settled stream r = elem stream r.closed || has_writer stream r.channels

-- It was handed to the local agent, or it is settled, or the accept thread has it in hand.
abbrev pub is_accounted : ℕ → System → Bool
is_accounted stream s =
    elem stream s.bridged || is_settled stream s.relay || is_held stream s.accepting

-- An operation that keeps every stream settled.
pub record Settles (r r' : SshAgentRelay) : Type 0 where
  pub keys : OneEach r'.channels
  pub settled : (n : ℕ) → is_settled n r ≡ true → is_settled n r' ≡ true

Settles-self : (r : SshAgentRelay) → OneEach r.channels → Settles r r
Settles-self r keys = record { keys = keys; settled = λ n h. h }

-- Of a channel that is taken out only its own stream loses its place.
has_writer-remove :
    (n channel : ℕ) (chan : RelayChannel) (m : Assoc RelayChannel)
    → OneEach m
    → get channel m ≡ some chan
    → has_writer n m ≡ true
    → (chan.writer == n || has_writer n (remove channel m)) ≡ true
unfolding get remove
has_writer-remove n channel chan [] keys there h = cc
has_writer-remove n channel chan ((j, w) ∷ m) keys there h = elim (Bool-cases (j == channel)) [
  | inl same ↦
      let e : j ≡ channel = ground (arith, same) in
      let found : w ≡ chan = some-injective (rw same at there) in
      rw (same, ← found, remove-absent channel m (rw e at keys.0)) h
  | inr differs ↦
      let ih = has_writer-remove n channel chan m keys.1 (rw differs at there) in
      rw differs (ground (arith, ih, h))
]

pub close_channel-Settles :
    (channel : ℕ) (r : SshAgentRelay)
    → OneEach r.channels
    → Settles r (Relay.close_channel channel r)
close_channel-Settles channel r keys = elim (Option-cases (get channel r.channels)) [
  | inl unknown ↦ rw (close_channel-unknown channel r unknown) (Settles-self r keys)
  | inr (chan, there) ↦ rw (close_channel-known channel r chan there) (record {
    keys = remove-OneEach channel r.channels keys;
    settled = λ n h. ground (arith, has_writer-remove n channel chan r.channels keys there, h);
  })
]

pub close_channel_for-Settles :
    (client channel : ℕ) (r : SshAgentRelay)
    → OneEach r.channels
    → Settles r (Relay.close_channel_for client channel r)
unfolding Relay.close_channel_for
close_channel_for-Settles client channel r keys =
    elim (Bool-cases (Relay.owned_by client (get channel r.channels))) [
      | inl own ↦ rw own (close_channel-Settles channel r keys)
      | inr other ↦ rw other (Settles-self r keys)
    ]

pub write_to_channel_for-Settles :
    (taken : Bool) (client channel : ℕ) (bytes : Bytes) (r : SshAgentRelay)
    → OneEach r.channels
    → Settles r (Relay.write_to_channel_for taken client channel bytes r)
unfolding Relay.write_to_channel_for
write_to_channel_for-Settles taken client channel bytes r keys =
    elim (Option-cases (Relay.owned client (get channel r.channels))) [
      | inl unknown ↦ rw unknown (Settles-self r keys)
      | inr (chan, there) ↦ elim (Bool-cases taken) [
        | inl went ↦ rw (there, went) (record { keys = keys; settled = λ n h. h })
        | inr failed ↦ rw (there, failed) (close_channel-Settles channel r keys)
      ]
    ]

pub close_each-Settles :
    (ids : List ℕ) (r : SshAgentRelay) → OneEach r.channels → Settles r (Relay.close_each ids r)
close_each-Settles [] r keys = Settles-self r keys
close_each-Settles (channel ∷ ids) r keys =
    let a = close_channel-Settles channel r keys in
    let b = close_each-Settles ids (Relay.close_channel channel r) a.keys in
    record { keys = b.keys; settled = λ n h. b.settled n (a.settled n h) }

elem-writers :
    (n : ℕ) (m : Assoc RelayChannel) (closed : List ℕ)
    → (elem n closed || has_writer n m) ≡ true
    → elem n (Relay.writers m ++ closed) ≡ true
elem-writers n [] closed h = ground (arith, h)
elem-writers n ((j, w) ∷ m) closed h = ground (arith, elem-writers n m closed, h)

pub drain-Settles : (r : SshAgentRelay) → Settles r (Relay.drain r)
unfolding Relay.drain
drain-Settles r = record {
  keys = tt;
  settled = λ n h. ground (arith, elem-writers n r.channels r.closed h);
}

-- A channel under a number that the table does not have.
pub has_writer-insert :
    (n channel : ℕ) (chan : RelayChannel) (m : Assoc RelayChannel)
    → All (Other channel) m
    → has_writer n (insert channel chan m) ≡ (has_writer n m || chan.writer == n)
unfolding insert
has_writer-insert n channel chan [] fresh = ground arith
has_writer-insert n channel chan ((j, w) ∷ m) fresh =
    rw fresh.0 (ground (arith, has_writer-insert n channel chan m fresh.1))
