-- ===== src/Daemon/Accept/Origin/Runs.antt =====
-- The bytes on every git-side stream under every interleaving.
use hitch.Prelude.{ℕ, ◌+◌, ◌<◌, ◌≡◌, Bool, true, false, some, List, [], ◌∷◌, arith, All, All-map}
use hitch.Prelude.Assoc.{get, insert, insert-All}
use hitch.Daemon.Relay
use hitch.Daemon.Clients.{ClientState}
use hitch.Daemon.Relay.{RelayChannel, SshAgentRelay, Written}
use hitch.Daemon.Accept
use hitch.Daemon.Accept.{System, Accepting, Turn}
use hitch.Daemon.Accept.Owners.Shrinking.{
  Shrinks, close_channel-Shrinks, close_channel_for-Shrinks, close_each-Shrinks,
  write_to_channel_for-Shrinks,
}
use hitch.Daemon.Accept.Owners.Admitted.{reaped-All}
use hitch.Daemon.Accept.Origin.{
  Routed, FromOwner, Held, IsRouted, insert-same, fresh-none, close_channel-git, close_each-git,
  close_channel_for-git, write-FromOwner, get-insert,
}

-- A turn that takes channels away and writes nothing.
shrink-IsRouted :
    (s : System) (r : SshAgentRelay)
    → Shrinks s.relay r
    → r.git ≡ s.relay.git
    → IsRouted s
    → IsRouted (record s { relay = r })
shrink-IsRouted s r sh git d = record {
  below = d.below;
  channels = sh.kept (Routed s.origin) d.channels;
  written = rw git d.written;
  held = d.held;
}

-- The accept thread moves to a place that asks for nothing.
move-IsRouted :
    (s : System) (a : Accepting) → Held s a → IsRouted s → IsRouted (record s { accepting = a })
move-IsRouted s a held d = record {
  below = d.below;
  channels = d.channels;
  written = d.written;
  held = held;
}

close-IsRouted :
    (channel : ℕ) (s : System)
    → IsRouted s
    → IsRouted (record s { relay = Relay.close_channel channel s.relay })
close-IsRouted channel s =
    shrink-IsRouted s (Relay.close_channel channel s.relay) (close_channel-Shrinks channel s.relay)
      (close_channel-git channel s.relay)

send_open-IsRouted :
    (result : Accept.Opening) (channel owner : ℕ) (s : System)
    → IsRouted s
    → IsRouted (Accept.send_open result channel owner s)
unfolding Accept.send_open
send_open-IsRouted Accept.pumped channel owner s d = move-IsRouted s Accept.listening tt d
send_open-IsRouted Accept.no_pump channel owner s d =
    move-IsRouted _ Accept.listening tt (close-IsRouted channel s d)
send_open-IsRouted Accept.send_failed channel owner s d =
    move-IsRouted _ Accept.listening tt (close-IsRouted channel s d)
send_open-IsRouted Accept.timed_out channel owner s d =
    let e = close-IsRouted channel s d in
    record { below = e.below; channels = e.channels; written = e.written; held = tt }

admitted-IsRouted :
    (down gone : Bool) (stream owner : ℕ) (s : System)
    → get stream s.origin ≡ some owner
    → IsRouted s
    → IsRouted (Accept.admitted down gone stream owner s)
unfolding Accept.admitted
admitted-IsRouted true gone stream owner s known d = record {
  below = d.below;
  channels = d.channels;
  written = d.written;
  held = tt;
}
admitted-IsRouted false true stream owner s known d = record {
  below = d.below;
  channels = reaped-All (Routed s.origin) stream owner s.relay d.channels;
  written =
      rw (close_channel-git s.relay.next_channel (Accept.inserted stream owner s.relay)) d.written;
  held = tt;
}
admitted-IsRouted false false stream owner s known d = record {
  below = d.below;
  channels = insert-All (Routed s.origin) s.relay.next_channel _ s.relay.channels known d.channels;
  written = d.written;
  held = tt;
}

-- A stream gets its client.
route-IsRouted :
    (stream owner : ℕ) (s : System)
    → Held s (Accept.took stream)
    → IsRouted s
    → IsRouted
        (record s { accepting = Accept.split stream owner; origin = insert stream owner s.origin })
route-IsRouted stream owner s (old, fresh) d =
    let same =
      λ (j k : ℕ) (h : get j s.origin ≡ some k). insert-same stream owner j k s.origin fresh h in
    record {
      below = insert-All (λ entry. entry.0 < s.next_stream) stream owner s.origin old d.below;
      channels =
          All-map (Routed s.origin) (Routed (insert stream owner s.origin))
            (λ entry h. same entry.1.writer entry.1.owner h) s.relay.channels d.channels;
      written =
          All-map (FromOwner s.origin) (FromOwner (insert stream owner s.origin))
            (λ w h. same w.stream w.client_id h) s.relay.git d.written;
      held = ground (arith, get-insert stream stream owner s.origin);
    }

resolve-IsRouted :
    (splits : Bool) (stream : ℕ) (routed : Accept.Routed) (s : System)
    → Held s (Accept.took stream)
    → IsRouted s
    → IsRouted (Accept.resolve splits stream routed s)
unfolding Accept.resolve
resolve-IsRouted true stream (Accept.relay owner) s held d = route-IsRouted stream owner s held d
resolve-IsRouted false stream (Accept.relay owner) s held d = record {
  below = d.below;
  channels = d.channels;
  written = d.written;
  held = tt;
}
resolve-IsRouted splits stream (Accept.local path) s held d = record {
  below = d.below;
  channels = d.channels;
  written = d.written;
  held = tt;
}
resolve-IsRouted splits stream Accept.nobody s held d = record {
  below = d.below;
  channels = d.channels;
  written = d.written;
  held = tt;
}

-- The number of streams grows.
widen :
    (s : System)
    → All (λ entry. entry.0 < s.next_stream) s.origin
    → All (λ entry. entry.0 < s.next_stream + 1) s.origin
widen s = All-map (λ entry. entry.0 < s.next_stream) _ (λ entry h. omega (arith, h)) s.origin

accepts-IsRouted : (down : Bool) (s : System) → IsRouted s → IsRouted (Accept.accepts down s)
unfolding Accept.accepts
accepts-IsRouted true s d = record {
  below = widen s d.below;
  channels = d.channels;
  written = d.written;
  held = tt;
}
accepts-IsRouted false s d = record {
  below = widen s d.below;
  channels = d.channels;
  written = d.written;
  held = (omega arith, fresh-none s.next_stream s.origin d.below);
}

accept_fails-IsRouted :
    (down : Bool) (s : System) → IsRouted s → IsRouted (Accept.accept_fails down s)
unfolding Accept.accept_fails
accept_fails-IsRouted true s d = move-IsRouted s Accept.stopped tt d
accept_fails-IsRouted false s d = record {
  below = d.below;
  channels = d.channels;
  written = d.written;
  held = d.held;
}

-- What the accept thread does where it stands; it finds there what it holds.
takes-IsRouted : (a : Accepting) (s : System) → IsRouted s → IsRouted (Accept.on_takes a s)
unfolding Accept.on_takes
takes-IsRouted Accept.listening s d = accepts-IsRouted s.relay.shutdown s d
takes-IsRouted other s d = d

fails-IsRouted : (a : Accepting) (s : System) → IsRouted s → IsRouted (Accept.on_fails a s)
unfolding Accept.on_fails
fails-IsRouted Accept.listening s d = accept_fails-IsRouted s.relay.shutdown s d
fails-IsRouted other s d = d

resolves-IsRouted :
    (splits : Bool) (a : Accepting) (s : System)
    → Held s a
    → IsRouted s
    → IsRouted (Accept.on_resolves splits a s)
unfolding Accept.on_resolves
resolves-IsRouted splits (Accept.took stream) s held d =
    resolve-IsRouted splits stream (Accept.route s.registry) s held d
resolves-IsRouted splits other s held d = d

admits-IsRouted :
    (a : Accepting) (s : System) → Held s a → IsRouted s → IsRouted (Accept.on_admits a s)
unfolding Accept.on_admits Accept.admit
admits-IsRouted (Accept.split stream owner) s held d = admitted-IsRouted _ _ stream owner s held d
admits-IsRouted other s held d = d

opens-IsRouted :
    (result : Accept.Opening) (a : Accepting) (s : System)
    → IsRouted s
    → IsRouted (Accept.on_opens result a s)
unfolding Accept.on_opens
opens-IsRouted result (Accept.opening channel owner) s d =
    send_open-IsRouted result channel owner s d
opens-IsRouted result other s d = d

drains-IsRouted : (down : Bool) (s : System) → IsRouted s → IsRouted (Accept.on_drains down s)
unfolding Accept.on_drains Relay.drain
drains-IsRouted true s d = record {
  below = d.below;
  channels = tt;
  written = d.written;
  held = d.held;
}
drains-IsRouted false s d = d

step-IsRouted : (t : Turn) (s : System) → IsRouted s → IsRouted (Accept.step t s)
unfolding Accept.step Relay.close_channels_for_client
step-IsRouted Accept.takes s d = takes-IsRouted s.accepting s d
step-IsRouted Accept.fails s d = fails-IsRouted s.accepting s d
step-IsRouted (Accept.resolves splits) s d = resolves-IsRouted splits s.accepting s d.held d
step-IsRouted Accept.admits s d = admits-IsRouted s.accepting s d.held d
step-IsRouted (Accept.opens result) s d = opens-IsRouted result s.accepting s d
step-IsRouted (Accept.pump_ends channel) s d = close-IsRouted channel s d
step-IsRouted (Accept.writes taken client channel bytes) s d = record {
  below = d.below;
  channels =
      (write_to_channel_for-Shrinks taken client channel bytes s.relay).kept (Routed s.origin)
        d.channels;
  written = write-FromOwner taken client channel bytes s.origin s.relay d.channels d.written;
  held = d.held;
}
step-IsRouted (Accept.closes client channel) s d =
    shrink-IsRouted s _ (close_channel_for-Shrinks client channel s.relay)
      (close_channel_for-git client channel s.relay) d
step-IsRouted (Accept.connection op) s d = record {
  below = d.below;
  channels = d.channels;
  written = d.written;
  held = d.held;
}
step-IsRouted (Accept.sweeps id) s d =
    let ids = Relay.owned_ids id s.relay.channels in
    let e = shrink-IsRouted s _ (close_each-Shrinks ids s.relay) (close_each-git ids s.relay) d in
    record { below = e.below; channels = e.channels; written = e.written; held = e.held }
step-IsRouted Accept.shuts s d = record {
  below = d.below;
  channels = d.channels;
  written = d.written;
  held = d.held;
}
step-IsRouted Accept.drains s d = drains-IsRouted s.relay.shutdown s d

run-IsRouted : (ts : List Turn) (s : System) → IsRouted s → IsRouted (Accept.run ts s)
run-IsRouted [] s d = d
run-IsRouted (t ∷ ts) s d = run-IsRouted ts (Accept.step t s) (step-IsRouted t s d)

start-IsRouted : (registry : ClientState) → IsRouted (Accept.start registry)
start-IsRouted registry = record { below = tt; channels = tt; written = tt; held = tt }

-- Under any interleaving from the start of the relay, all bytes that were written to a git-side
-- stream came from the one connection that the stream was routed to when it was accepted, however
-- the driving client changes and whatever channel ids the connections name.
pub relay_run-FromOwner :
    (ts : List Turn) (registry : ClientState)
    → let s = Accept.run ts (Accept.start registry) in All (FromOwner s.origin) s.relay.git
relay_run-FromOwner ts registry =
    (run-IsRouted ts (Accept.start registry) (start-IsRouted registry)).written
