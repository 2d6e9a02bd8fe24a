-- ===== src/Daemon/Accept/Owners/Admitted.antt =====
-- The channel that the accept thread puts in, and the sweep of a client that has left.
use hitch.Daemon.Relay.{RelayChannel, SshAgentRelay}
use hitch.Prelude.{
  ℕ, ◌≡◌, refl, ◌∙◌, Bool, true, false, Option, none, some, List, arith, ◌==◌, is_some, All,
  All-zip,
}
use hitch.Prelude.Assoc.{get, insert, get-insert, insert-All}
use hitch.Prelude.Keys.{elem, remove-insert-All}
use hitch.Daemon.Relay
use hitch.Daemon.Clients.{ClientSink, ClientState}
use hitch.Daemon.Accept
use hitch.Daemon.Accept.{System, Accepting, Turn}
use hitch.Daemon.Accept.Owners.{is_watched, HasOwner, IsOwned}
use hitch.Daemon.Accept.Owners.Shrinking.{
  OwnedIn, not_owned, owned_ids-All, elem-without, close_channel-known, close_each-Shrinks,
  close_each-gone,
}

connected-registered :
    (found : Option ClientSink) → Accept.is_disconnected found ≡ false → is_some found ≡ true
connected-registered none e = cc
connected-registered (some sink) e = refl

connected-watched :
    (owner : ℕ) (registry : ClientState) (leaving : List ℕ)
    → Accept.is_disconnected (get owner registry.clients) ≡ false
    → is_watched registry leaving owner ≡ true
connected-watched owner registry leaving h =
    ground (arith, connected-registered (get owner registry.clients) h)

-- A channel that is taken out again leaves those that were there.
pub reaped-All :
    (P : ℕ × RelayChannel → Type 0) (stream owner : ℕ) (r : SshAgentRelay)
    → All P r.channels
    → All P (Relay.close_channel r.next_channel (Accept.inserted stream owner r)).channels
reaped-All P stream owner r h =
    let chan : RelayChannel = record { writer = stream; owner = owner } in
    let there : get r.next_channel (insert r.next_channel chan r.channels) ≡ some chan =
      ground (arith, get-insert r.next_channel r.next_channel chan r.channels) in
    rw (close_channel-known r.next_channel (Accept.inserted stream owner r) chan there)
      (remove-insert-All P r.next_channel chan r.channels h)

pub admitted-IsOwned :
    (down gone : Bool) (stream owner : ℕ) (s : System)
    → s.relay.shutdown ≡ down
    → Accept.is_disconnected (get owner s.registry.clients) ≡ gone
    → IsOwned s
    → IsOwned (Accept.admitted down gone stream owner s)
unfolding Accept.admitted
admitted-IsOwned true gone stream owner s d g o = record {
  owners = o.owners;
  after_drain = o.after_drain;
  shut = o.shut;
}
admitted-IsOwned false true stream owner s d g o = record {
  owners = reaped-All (HasOwner s.registry s.leaving) stream owner s.relay o.owners;
  after_drain = λ e. absurd (cc (d, o.shut e));
  shut = λ e. absurd (cc (d, o.shut e));
}
admitted-IsOwned false false stream owner s d g o = record {
  owners =
      insert-All (HasOwner s.registry s.leaving) s.relay.next_channel _ s.relay.channels
        (connected-watched owner s.registry s.leaving g) o.owners;
  after_drain = λ e. absurd (cc (d, o.shut e));
  shut = λ e. absurd (cc (d, o.shut e));
}

-- The sweep closes the channels of the client that is no longer watched.
swept-HasOwner :
    (id : ℕ) (registry : ClientState) (leaving : List ℕ) (entry : ℕ × RelayChannel)
    → HasOwner registry leaving entry
    → (entry.1.owner == id) ≡ false
    → HasOwner registry (Accept.without id leaving) entry
swept-HasOwner id registry leaving entry h other =
    rw (elem-without id entry.1.owner leaving other) h

pub sweep-IsOwned : (id : ℕ) (s : System) → IsOwned s → IsOwned (Accept.step (Accept.sweeps id) s)
unfolding Accept.step Relay.close_channels_for_client
sweep-IsOwned id s o =
    let ids = Relay.owned_ids id s.relay.channels in
    let sh = close_each-Shrinks ids s.relay in
    record {
      owners =
          All-zip (λ entry. HasOwner s.registry s.leaving entry × OwnedIn ids id entry)
            (λ entry. elem entry.0 ids ≡ false) (HasOwner s.registry (Accept.without id s.leaving))
            (λ entry h gone.
              swept-HasOwner id s.registry s.leaving entry h.0 (not_owned ids id entry h.1 gone))
            (Relay.close_each ids s.relay).channels
            (sh.kept _ (
              All-zip (HasOwner s.registry s.leaving) (OwnedIn ids id) _ (λ entry a b. (a, b))
                s.relay.channels o.owners (owned_ids-All id s.relay.channels)))
            (close_each-gone ids s.relay);
      after_drain = λ e. sh.empty (o.after_drain e);
      shut = λ e. sh.flag ∙ o.shut e;
    }
