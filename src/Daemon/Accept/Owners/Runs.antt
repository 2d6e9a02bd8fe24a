-- ===== src/Daemon/Accept/Owners/Runs.antt =====
-- The owners of the channels under every interleaving.
use hitch.Daemon.Relay.{RelayChannel, SshAgentRelay}
use hitch.Prelude.{ℕ, ◌≡◌, refl, sym, ◌∙◌, Bool, true, false, List, [], ◌∷◌}
use hitch.Prelude.Assoc.{get}
use hitch.Daemon.Relay
use hitch.Daemon.Accept
use hitch.Daemon.Accept.{System, Accepting, Turn}
use hitch.Daemon.Accept.Owners.{IsOwned}
use hitch.Daemon.Accept.Owners.Shrinking.{
  Shrinks, write_to_channel_for-Shrinks, close_channel-Shrinks, close_channel_for-Shrinks,
}
use hitch.Daemon.Accept.Owners.Watched.{watch-IsOwned, disconnect-watched, op-watched}
use hitch.Daemon.Accept.Owners.Admitted.{admitted-IsOwned, sweep-IsOwned}

-- A turn that takes channels away, or none, and leaves the clients alone.
shrink-IsOwned :
    (s t : System)
    → Shrinks s.relay t.relay
    → t.registry ≡ s.registry
    → t.leaving ≡ s.leaving
    → t.drained ≡ s.drained
    → IsOwned s
    → IsOwned t
shrink-IsOwned s t sh registry leaving drained o = record {
  owners = rw (registry, leaving) (sh.kept _ o.owners);
  after_drain = λ e. sh.empty (o.after_drain (sym drained ∙ e));
  shut = λ e. sh.flag ∙ o.shut (sym drained ∙ e);
}

close-IsOwned :
    (channel : ℕ) (s t : System)
    → t.relay ≡ Relay.close_channel channel s.relay
    → t.registry ≡ s.registry
    → t.leaving ≡ s.leaving
    → t.drained ≡ s.drained
    → IsOwned s
    → IsOwned t
close-IsOwned channel s t e = shrink-IsOwned s t (rw e (close_channel-Shrinks channel s.relay))

send_open-IsOwned :
    (result : Accept.Opening) (channel owner : ℕ) (s : System)
    → IsOwned s
    → IsOwned (Accept.send_open result channel owner s)
unfolding Accept.send_open
send_open-IsOwned Accept.pumped channel owner s o = record {
  owners = o.owners;
  after_drain = o.after_drain;
  shut = o.shut;
}
send_open-IsOwned Accept.no_pump channel owner s o = close-IsOwned channel s _ refl refl refl refl o
send_open-IsOwned Accept.send_failed channel owner s o =
    close-IsOwned channel s _ refl refl refl refl o
send_open-IsOwned Accept.timed_out channel owner s o =
    let registry = Accept.disconnect owner (get owner s.registry.clients) s.registry in
    let seen : System = record s { registry = registry } in
    close-IsOwned channel seen (Accept.send_open Accept.timed_out channel owner s) refl refl refl
      refl
      (watch-IsOwned s registry s.leaving
        (λ id h. disconnect-watched owner id (get owner s.registry.clients) s.registry s.leaving h)
        o)

-- A turn that only moves the accept thread, or drops a stream.
same-IsOwned :
    (s t : System)
    → t.relay.channels ≡ s.relay.channels
    → t.relay.shutdown ≡ s.relay.shutdown
    → t.registry ≡ s.registry
    → t.leaving ≡ s.leaving
    → t.drained ≡ s.drained
    → IsOwned s
    → IsOwned t
same-IsOwned s t channels shutdown registry leaving drained o = record {
  owners = rw (channels, registry, leaving) o.owners;
  after_drain = λ e. channels ∙ o.after_drain (sym drained ∙ e);
  shut = λ e. shutdown ∙ o.shut (sym drained ∙ e);
}

accepts-IsOwned : (down : Bool) (s : System) → IsOwned s → IsOwned (Accept.accepts down s)
unfolding Accept.accepts
accepts-IsOwned true s o = same-IsOwned s _ refl refl refl refl refl o
accepts-IsOwned false s o = same-IsOwned s _ refl refl refl refl refl o

accept_fails-IsOwned : (down : Bool) (s : System) → IsOwned s → IsOwned (Accept.accept_fails down s)
unfolding Accept.accept_fails
accept_fails-IsOwned true s o = same-IsOwned s _ refl refl refl refl refl o
accept_fails-IsOwned false s o = same-IsOwned s _ refl refl refl refl refl o

resolve-IsOwned :
    (splits : Bool) (stream : ℕ) (routed : Accept.Routed) (s : System)
    → IsOwned s
    → IsOwned (Accept.resolve splits stream routed s)
unfolding Accept.resolve
resolve-IsOwned true stream (Accept.relay owner) s o = same-IsOwned s _ refl refl refl refl refl o
resolve-IsOwned false stream (Accept.relay owner) s o = same-IsOwned s _ refl refl refl refl refl o
resolve-IsOwned splits stream (Accept.local path) s o = same-IsOwned s _ refl refl refl refl refl o
resolve-IsOwned splits stream Accept.nobody s o = same-IsOwned s _ refl refl refl refl refl o

takes-IsOwned : (a : Accepting) (s : System) → IsOwned s → IsOwned (Accept.on_takes a s)
unfolding Accept.on_takes
takes-IsOwned Accept.listening s o = accepts-IsOwned s.relay.shutdown s o
takes-IsOwned other s o = o

fails-IsOwned : (a : Accepting) (s : System) → IsOwned s → IsOwned (Accept.on_fails a s)
unfolding Accept.on_fails
fails-IsOwned Accept.listening s o = accept_fails-IsOwned s.relay.shutdown s o
fails-IsOwned other s o = o

resolves-IsOwned :
    (splits : Bool) (a : Accepting) (s : System)
    → IsOwned s
    → IsOwned (Accept.on_resolves splits a s)
unfolding Accept.on_resolves
resolves-IsOwned splits (Accept.took stream) s o =
    resolve-IsOwned splits stream (Accept.route s.registry) s o
resolves-IsOwned splits other s o = o

admits-IsOwned : (a : Accepting) (s : System) → IsOwned s → IsOwned (Accept.on_admits a s)
unfolding Accept.on_admits Accept.admit
admits-IsOwned (Accept.split stream owner) s o = admitted-IsOwned _ _ stream owner s refl refl o
admits-IsOwned other s o = o

opens-IsOwned :
    (result : Accept.Opening) (a : Accepting) (s : System)
    → IsOwned s
    → IsOwned (Accept.on_opens result a s)
unfolding Accept.on_opens
opens-IsOwned result (Accept.opening channel owner) s o = send_open-IsOwned result channel owner s o
opens-IsOwned result other s o = o

drains-IsOwned :
    (down : Bool) (s : System)
    → s.relay.shutdown ≡ down
    → IsOwned s
    → IsOwned (Accept.on_drains down s)
unfolding Accept.on_drains Relay.drain
drains-IsOwned true s e o = record { owners = tt; after_drain = λ _. refl; shut = λ _. e }
drains-IsOwned false s e o = o

step-IsOwned : (t : Turn) (s : System) → IsOwned s → IsOwned (Accept.step t s)
unfolding Accept.step
step-IsOwned Accept.takes s o = takes-IsOwned s.accepting s o
step-IsOwned Accept.fails s o = fails-IsOwned s.accepting s o
step-IsOwned (Accept.resolves splits) s o = resolves-IsOwned splits s.accepting s o
step-IsOwned Accept.admits s o = admits-IsOwned s.accepting s o
step-IsOwned (Accept.opens result) s o = opens-IsOwned result s.accepting s o
step-IsOwned (Accept.pump_ends channel) s o = close-IsOwned channel s _ refl refl refl refl o
step-IsOwned (Accept.writes taken client channel bytes) s o =
    shrink-IsOwned s _ (write_to_channel_for-Shrinks taken client channel bytes s.relay) refl refl
      refl o
step-IsOwned (Accept.closes client channel) s o =
    shrink-IsOwned s _ (close_channel_for-Shrinks client channel s.relay) refl refl refl o
step-IsOwned (Accept.connection op) s o =
    watch-IsOwned s _ _ (λ id h. op-watched op id s.registry s.leaving h) o
step-IsOwned (Accept.sweeps id) s o = sweep-IsOwned id s o
step-IsOwned Accept.shuts s o = record {
  owners = o.owners;
  after_drain = o.after_drain;
  shut = λ e. refl;
}
step-IsOwned Accept.drains s o = drains-IsOwned s.relay.shutdown s refl o

-- Under any interleaving of the accept thread, the pumps, the connections of the GUIs and the
-- shutdown, every channel of the relay belongs to a registered client or to one whose
-- `unregister_client` has yet to close its channels; and once the table was drained, no channel is
-- in it again.
pub relay_run-IsOwned : (ts : List Turn) (s : System) → IsOwned s → IsOwned (Accept.run ts s)
relay_run-IsOwned [] s o = o
relay_run-IsOwned (t ∷ ts) s o = relay_run-IsOwned ts (Accept.step t s) (step-IsOwned t s o)
