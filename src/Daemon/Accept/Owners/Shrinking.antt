-- ===== src/Daemon/Accept/Owners/Shrinking.antt =====
-- Every operation of the relay but the accept takes channels away, and changes none.
use hitch.Prelude.{
  ℕ, ◌≡◌, refl, ap, ◌∙◌, inl, inr, Bool, true, false, none, some, List, [], ◌∷◌, arith, Bytes, ◌==◌,
  Bool-cases, Option-cases, All, All-map, All-zip, All-any,
}
use hitch.Prelude.Assoc.{Assoc, get, remove, remove-All}
use hitch.Prelude.Keys.{elem, Other, get-none-Other, remove-Other}
use hitch.Daemon.Relay
use hitch.Daemon.Accept
use hitch.Daemon.Relay.{RelayChannel, SshAgentRelay}

pub record Shrinks (r r' : SshAgentRelay) : Type 1 where
  pub kept : (P : ℕ × RelayChannel → Type 0) → All P r.channels → All P r'.channels
  pub empty : r.channels ≡ [] → r'.channels ≡ []
  pub flag : r'.shutdown ≡ r.shutdown
  pub numbered : r'.next_channel ≡ r.next_channel

Shrinks-self : (r : SshAgentRelay) → Shrinks r r
Shrinks-self r = record { kept = λ P h. h; empty = λ e. e; flag = refl; numbered = refl }

Shrinks-trans : {r s t : SshAgentRelay} → Shrinks r s → Shrinks s t → Shrinks r t
Shrinks-trans a b = record {
  kept = λ P h. b.kept P (a.kept P h);
  empty = λ e. b.empty (a.empty e);
  flag = b.flag ∙ a.flag;
  numbered = b.numbered ∙ a.numbered;
}

remove-empty : (k : ℕ) (m : Assoc RelayChannel) → m ≡ [] → remove k m ≡ []
unfolding remove
remove-empty k [] e = refl
remove-empty k (entry ∷ m) e = absurd (cc)

pub close_channel-unknown :
    (channel : ℕ) (r : SshAgentRelay)
    → get channel r.channels ≡ none
    → Relay.close_channel channel r ≡ r
unfolding Relay.remove_channel
close_channel-unknown channel r unknown = ap (λ found. (Relay.removed channel found r).0) unknown

pub close_channel-known :
    (channel : ℕ) (r : SshAgentRelay) (chan : RelayChannel)
    → get channel r.channels ≡ some chan
    → Relay.close_channel channel r
      ≡ Relay.force_close chan.writer (record r { channels = remove channel r.channels })
unfolding Relay.remove_channel
close_channel-known channel r chan there = ap (λ found. (Relay.removed channel found r).0) there

pub close_channel-Shrinks :
    (channel : ℕ) (r : SshAgentRelay) → Shrinks r (Relay.close_channel channel r)
close_channel-Shrinks channel r = elim (Option-cases (get channel r.channels)) [
  | inl unknown ↦ rw (close_channel-unknown channel r unknown) (Shrinks-self r)
  | inr (chan, there) ↦ rw (close_channel-known channel r chan there) (record {
    kept = λ P h. remove-All P channel r.channels h;
    empty = λ e. remove-empty channel r.channels e;
    flag = refl;
    numbered = refl;
  })
]

pub close_channel_for-Shrinks :
    (client channel : ℕ) (r : SshAgentRelay) → Shrinks r (Relay.close_channel_for client channel r)
unfolding Relay.close_channel_for
close_channel_for-Shrinks client channel r =
    elim (Bool-cases (Relay.owned_by client (get channel r.channels))) [
      | inl own ↦ rw own (close_channel-Shrinks channel r)
      | inr other ↦ rw other (Shrinks-self r)
    ]

pub write_to_channel_for-Shrinks :
    (taken : Bool) (client channel : ℕ) (bytes : Bytes) (r : SshAgentRelay)
    → Shrinks r (Relay.write_to_channel_for taken client channel bytes r)
unfolding Relay.write_to_channel_for
write_to_channel_for-Shrinks taken client channel bytes r =
    elim (Option-cases (Relay.owned client (get channel r.channels))) [
      | inl unknown ↦ rw unknown (Shrinks-self r)
      | inr (chan, there) ↦ elim (Bool-cases taken) [
        | inl went ↦
            rw (there, went)
              (record { kept = λ P h. h; empty = λ e. e; flag = refl; numbered = refl })
        | inr failed ↦ rw (there, failed) (close_channel-Shrinks channel r)
      ]
    ]

pub close_each-Shrinks : (ids : List ℕ) (r : SshAgentRelay) → Shrinks r (Relay.close_each ids r)
close_each-Shrinks [] r = Shrinks-self r
close_each-Shrinks (channel ∷ ids) r =
    Shrinks-trans (close_channel-Shrinks channel r)
      (close_each-Shrinks ids (Relay.close_channel channel r))

-- A channel that is closed is gone.
close_channel-Other :
    (channel : ℕ) (r : SshAgentRelay) → All (Other channel) (Relay.close_channel channel r).channels
close_channel-Other channel r = elim (Option-cases (get channel r.channels)) [
  | inl unknown ↦
      rw (close_channel-unknown channel r unknown) (get-none-Other channel r.channels unknown)
  | inr (chan, there) ↦
      rw (close_channel-known channel r chan there) (remove-Other channel r.channels)
]

-- Behind the loop over some ids, no channel has one of them.
pub close_each-gone :
    (ids : List ℕ) (r : SshAgentRelay)
    → All (λ entry. elem entry.0 ids ≡ false) (Relay.close_each ids r).channels
close_each-gone [] r = All-any _ (λ entry. refl) r.channels
close_each-gone (channel ∷ ids) r =
    All-zip (Other channel) (λ entry. elem entry.0 ids ≡ false) _
      (λ entry other gone. ground (arith, other, gone))
      (Relay.close_each (channel ∷ ids) r).channels
      ((close_each-Shrinks ids (Relay.close_channel channel r)).kept (Other channel)
        (close_channel-Other channel r))
      (close_each-gone ids (Relay.close_channel channel r))

-- An entry of a client is among the ids that are collected for it.
abbrev pub OwnedIn : List ℕ → ℕ → ℕ × RelayChannel → Type 0
OwnedIn ids client entry = (entry.1.owner == client) ≡ true → elem entry.0 ids ≡ true

pub not_owned :
    (ids : List ℕ) (client : ℕ) (entry : ℕ × RelayChannel)
    → OwnedIn ids client entry
    → elem entry.0 ids ≡ false
    → (entry.1.owner == client) ≡ false
not_owned ids client entry h gone = elim (Bool-cases (entry.1.owner == client)) [
  | inl own ↦ absurd (cc (h own, gone))
  | inr other ↦ other
]

pub owned_ids-All :
    (client : ℕ) (m : Assoc RelayChannel) → All (OwnedIn (Relay.owned_ids client m) client) m
unfolding Relay.owned_ids
owned_ids-All client [] = tt
owned_ids-All client ((channel, chan) ∷ m) = (
  λ e. ground (arith, e),
  All-map (OwnedIn (Relay.owned_ids client m) client)
      (OwnedIn (Relay.owned_ids client ((channel, chan) ∷ m)) client)
      (λ entry h e. ground (arith, h e)) m (owned_ids-All client m),
)

pub elem-without :
    (id k : ℕ) (ids : List ℕ) → (k == id) ≡ false → elem k (Accept.without id ids) ≡ elem k ids
unfolding Accept.without
elem-without id k [] h = refl
elem-without id k (j ∷ ids) h = elim (Bool-cases (j == id)) [
  | inl same ↦ rw same (ground (arith, elem-without id k ids h, same, h))
  | inr differs ↦ rw differs (ground (arith, elem-without id k ids h))
]
