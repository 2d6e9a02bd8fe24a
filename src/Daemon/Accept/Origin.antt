-- ===== src/Daemon/Accept/Origin.antt =====
-- Which client's bytes reach a git-side stream of crates/hitch-daemon/src/main.rs.
pub mod Runs
use hitch.Prelude.{
  ℕ, ◌<◌, ◌≡◌, refl, ap, ◌∙◌, inl, inr, Bool, Option, none, some, List, [], ◌∷◌, arith, Bytes, ◌==◌,
  Bool-cases, Option-cases, some-injective, All,
}
use hitch.Prelude.Assoc.{Assoc, get, insert, get-insert, insert-All}
use hitch.Prelude.Keys.{get-All}
use hitch.Daemon.Relay
use hitch.Daemon.Relay.{RelayChannel, SshAgentRelay, Written}
use hitch.Daemon.Accept
use hitch.Daemon.Accept.{System, Accepting, Turn}
use hitch.Daemon.Accept.Owners.Shrinking.{
  close_channel-known, close_channel-unknown, close_channel-Shrinks, close_channel_for-Shrinks,
  close_each-Shrinks, write_to_channel_for-Shrinks,
}
use hitch.Daemon.Accept.Owners.Admitted.{reaped-All}

abbrev pub Routed : Assoc ℕ → ℕ × RelayChannel → Type 0
Routed origin entry = get entry.1.writer origin ≡ some entry.1.owner

-- The bytes come from the connection to which their stream was routed.
abbrev pub FromOwner : Assoc ℕ → Written → Type 0
FromOwner origin w = get w.stream origin ≡ some w.client_id

-- What the accept thread holds.
abbrev pub Held : System → Accepting → Type 0
Held s (Accept.took stream) = (stream < s.next_stream) × (get stream s.origin ≡ none)
Held s (Accept.split stream owner) = get stream s.origin ≡ some owner
Held s _ = Unit

pub record IsRouted (s : System) : Type 0 where
  pub below : All (λ entry. entry.0 < s.next_stream) s.origin
  pub channels : All (Routed s.origin) s.relay.channels
  pub written : All (FromOwner s.origin) s.relay.git
  pub held : Held s s.accepting

-- A new stream's client does not change those of the others.
pub insert-same :
    (stream owner j k : ℕ) (origin : Assoc ℕ)
    → get stream origin ≡ none
    → get j origin ≡ some k
    → get j (insert stream owner origin) ≡ some k
insert-same stream owner j k origin fresh known = elim (Bool-cases (stream == j)) [
  | inl same ↦ let e : stream ≡ j = ground (arith, same) in absurd (cc (rw e at fresh, known))
  | inr differs ↦ ground (arith, get-insert stream j owner origin, known, differs)
]

pub fresh-none :
    (n : ℕ) (origin : Assoc ℕ) → All (λ entry. entry.0 < n) origin → get n origin ≡ none
fresh-none n origin h = elim (Option-cases (get n origin)) [
  | inl fresh ↦ fresh
  | inr (owner, known) ↦ absurd (omega (arith, get-All (λ entry. entry.0 < n) n origin h known))
]

pub close_channel-git :
    (channel : ℕ) (r : SshAgentRelay) → (Relay.close_channel channel r).git ≡ r.git
close_channel-git channel r = elim (Option-cases (get channel r.channels)) [
  | inl unknown ↦ rw (close_channel-unknown channel r unknown) refl
  | inr (chan, there) ↦ rw (close_channel-known channel r chan there) refl
]

pub close_each-git : (ids : List ℕ) (r : SshAgentRelay) → (Relay.close_each ids r).git ≡ r.git
close_each-git [] r = refl
close_each-git (channel ∷ ids) r =
    close_each-git ids (Relay.close_channel channel r) ∙ close_channel-git channel r

pub close_channel_for-git :
    (client channel : ℕ) (r : SshAgentRelay)
    → (Relay.close_channel_for client channel r).git ≡ r.git
unfolding Relay.close_channel_for
close_channel_for-git client channel r =
    elim (Bool-cases (Relay.owned_by client (get channel r.channels))) [
      | inl own ↦ rw own (close_channel-git channel r)
      | inr other ↦ rw other refl
    ]

-- A write is let through for the owner of the channel only.
owned-some :
    (client : ℕ) (found : Option RelayChannel) (chan : RelayChannel)
    → Relay.owned client found ≡ some chan
    → (found ≡ some chan) × (chan.owner ≡ client)
owned-some client none chan h = cc
owned-some client (some c) chan h = elim (Bool-cases (c.owner == client)) [
  | inl own ↦
      let e : c ≡ chan = some-injective (rw own at h) in (ap some e, rw (← e) (ground (arith, own)))
  | inr other ↦ absurd (cc (rw other at h))
]

pub write-FromOwner :
    (taken : Bool) (client channel : ℕ) (bytes : Bytes) (origin : Assoc ℕ) (r : SshAgentRelay)
    → All (Routed origin) r.channels
    → All (FromOwner origin) r.git
    → All (FromOwner origin) (Relay.write_to_channel_for taken client channel bytes r).git
unfolding Relay.write_to_channel_for
write-FromOwner taken client channel bytes origin r routed w =
    elim (Option-cases (Relay.owned client (get channel r.channels))) [
      | inl unknown ↦ rw unknown w
      | inr (chan, there) ↦ elim (Bool-cases taken) [
        | inr failed ↦ rw (there, failed, close_channel-git channel r) w
        | inl went ↦
            let (found, own) = owned-some client (get channel r.channels) chan there in
            rw (there, went)
              (rw (← own) (get-All (Routed origin) channel r.channels routed found), w)
      ]
    ]
