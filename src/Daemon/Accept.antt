-- ===== src/Daemon/Accept.antt =====
-- `accept_loop` of the relay in crates/hitch-daemon/src/main.rs, cut where it gives up a lock, beside
-- the connections of the GUIs: a step is one critical section of one thread. A sink that the accept
-- thread still holds after `unregister_client` took it from the registry has its `disconnected` set,
-- since that is set before the sink is taken out.
pub mod Owners
pub mod Streams
pub mod Origin
use hitch.Prelude.{
  ℕ, ◌+◌, ◌*◌, min, Bool, true, false, Option, none, some, List, [], ◌∷◌, Bytes, ◌==◌,
  if◌then◌else◌,
}
use Prim.Native.String.{String}
use hitch.Prelude.Assoc.{Assoc, get, insert}
use hitch.Daemon.Clients.{ClientSink, ClientState}
use hitch.Daemon.Clients.Driving
use hitch.Daemon.Clients.Driving.{ClientOp}
use hitch.Daemon.Relay
use hitch.Daemon.Relay.{SshAgentRelay, force_close}

-- `RoutedDriver`, and what the loop does with a stream that has none.
pub data Routed : Type 0 where
  relay : ℕ → Routed
  local : String → Routed
  nobody : Routed

abbrev local_or_nobody : Option String → Routed
local_or_nobody none = nobody
local_or_nobody (some path) = local path

abbrev sink_route : ℕ → Option ClientSink → Routed
sink_route driver none = nobody
sink_route driver (some sink) =
    if sink.disconnected
    then nobody
    else if sink.relay_capable
    then relay driver
    else local_or_nobody sink.local_agent_sock

abbrev driver_route : ClientState → Option ℕ → Routed
driver_route st none = nobody
driver_route st (some driver) = sink_route driver (get driver st.clients)

-- The route of a stream, read under the state's lock.
unfoldable pub route : ClientState → Routed
route st = driver_route st st.driving_client

-- Where the accept thread is: it waits, it holds a stream, it holds a stream for a GUI, or it has
-- put the channel into the table and tells the GUI.
pub data Accepting : Type 0 where
  listening : Accepting
  took : ℕ → Accepting
  split : ℕ → ℕ → Accepting
  opening : ℕ → ℕ → Accepting
  stopped : Accepting

-- The daemon around the relay. `leaving` are the clients that `unregister_client` has taken from
-- the registry and whose channels it has not closed yet. `origin` has for each stream the client
-- that it was routed to. `bridged` are the streams that were handed to the local agent.
pub record System : Type 0 where
  pub registry : ClientState
  pub relay : SshAgentRelay
  pub accepting : Accepting
  pub backoff : ℕ
  pub leaving : List ℕ
  pub drained : Bool
  pub next_stream : ℕ
  pub origin : Assoc ℕ
  pub bridged : List ℕ

abbrev pub accept_backoff_min : ℕ
accept_backoff_min = 25

abbrev pub accept_backoff_max : ℕ
accept_backoff_max = 1000

-- Whether the captured sink of a client is disconnected. Here only `unregister_client`, which sets the
-- flag first, takes a sink out of the registry, so that a sink that is gone has the flag set. The
-- broadcasts, which take out the sinks of dead clients without it, are not modelled.
abbrev pub is_disconnected : Option ClientSink → Bool
is_disconnected none = true
is_disconnected (some sink) = sink.disconnected

-- What becomes of the message `SshAgentOpen` and of the pump's thread.
pub data Opening : Type 0 where
  pumped no_pump send_failed timed_out : Opening

-- The loop has a stream, and reads the shutdown.
unfoldable pub accepts : Bool → System → System
accepts true s = record s {
  backoff = accept_backoff_min;
  next_stream = s.next_stream + 1;
  relay = force_close s.next_stream s.relay;
  accepting = stopped;
}
accepts false s = record s {
  backoff = accept_backoff_min;
  next_stream = s.next_stream + 1;
  accepting = took s.next_stream;
}

-- The accept failed; the loop reads the shutdown after its sleep.
unfoldable pub accept_fails : Bool → System → System
accept_fails true s = record s { accepting = stopped }
accept_fails false s = record s { backoff = min (s.backoff * 2) accept_backoff_max }

-- `into_relay_channel` may fail, and drops the stream then.
unfoldable pub resolve : Bool → ℕ → Routed → System → System
resolve splits stream (relay owner) s =
    if splits
    then record s { accepting = split stream owner; origin = insert stream owner s.origin }
    else record s { accepting = listening; relay = force_close stream s.relay }
resolve splits stream (local path) s = record s {
  accepting = listening;
  bridged = stream ∷ s.bridged;
}
resolve splits stream nobody s = record s {
  accepting = listening;
  relay = force_close stream s.relay;
}

-- The channel's number is taken before the lock of the table.
abbrev pub numbered : SshAgentRelay → SshAgentRelay
numbered r = record r { next_channel = r.next_channel + 1 }

abbrev pub inserted : ℕ → ℕ → SshAgentRelay → SshAgentRelay
inserted stream owner r = record (numbered r) {
  channels = insert r.next_channel (record { writer = stream; owner = owner }) r.channels;
}

-- Under the lock of the table: the shutdown is read, the channel is inserted, and the sink's flag is
-- read again, which takes the channel out where the GUI has left since it was chosen.
unfoldable pub admitted : Bool → Bool → ℕ → ℕ → System → System
admitted true disconnected stream owner s = record s {
  relay = force_close stream (numbered s.relay);
  accepting = stopped;
}
admitted false true stream owner s = record s {
  relay = Relay.close_channel s.relay.next_channel (inserted stream owner s.relay);
  accepting = listening;
}
admitted false false stream owner s = record s {
  relay = inserted stream owner s.relay;
  accepting = opening s.relay.next_channel owner;
}

unfoldable pub admit : ℕ → ℕ → System → System
unfolding admitted
admit stream owner s =
    admitted s.relay.shutdown (is_disconnected (get owner s.registry.clients)) stream owner s

abbrev pub disconnect : ℕ → Option ClientSink → ClientState → ClientState
disconnect id none st = st
disconnect id (some sink) st = record st {
  clients = insert id (record sink { disconnected = true }) st.clients;
}

unfoldable pub send_open : Opening → ℕ → ℕ → System → System
send_open pumped channel owner s = record s { accepting = listening }
send_open no_pump channel owner s = record s {
  accepting = listening;
  relay = Relay.close_channel channel s.relay;
}
send_open send_failed channel owner s = record s {
  accepting = listening;
  relay = Relay.close_channel channel s.relay;
}
send_open timed_out channel owner s = record s {
  accepting = listening;
  registry = disconnect owner (get owner s.registry.clients) s.registry;
  relay = Relay.close_channel channel s.relay;
}

-- A critical section of the accept thread, of a channel's pump at its end, of a client's connection,
-- or of the shutdown.
pub data Turn : Type 0 where
  takes : Turn
  fails : Turn
  resolves : Bool → Turn
  admits : Turn
  opens : Opening → Turn
  pump_ends : ℕ → Turn
  writes : Bool → ℕ → ℕ → Bytes → Turn
  closes : ℕ → ℕ → Turn
  connection : ClientOp → Turn
  sweeps : ℕ → Turn
  shuts : Turn
  drains : Turn

unfoldable pub leave : ClientOp → List ℕ → List ℕ
leave (Driving.unregisters id) ids = id ∷ ids
leave Driving.registers ids = ids
leave (Driving.refreshes id) ids = ids
leave (Driving.relays id) ids = ids
leave (Driving.locals valid id path) ids = ids

unfoldable pub without : ℕ → List ℕ → List ℕ
without id [] = []
without id (j ∷ ids) = let rest = without id ids in if j == id then rest else j ∷ rest

unfoldable pub on_takes : Accepting → System → System
unfolding accepts
on_takes listening s = accepts s.relay.shutdown s
on_takes other s = s

unfoldable pub on_fails : Accepting → System → System
unfolding accept_fails
on_fails listening s = accept_fails s.relay.shutdown s
on_fails other s = s

unfoldable pub on_resolves : Bool → Accepting → System → System
unfolding resolve route
on_resolves splits (took stream) s = resolve splits stream (route s.registry) s
on_resolves splits other s = s

unfoldable pub on_admits : Accepting → System → System
unfolding admit
on_admits (split stream owner) s = admit stream owner s
on_admits other s = s

unfoldable pub on_opens : Opening → Accepting → System → System
unfolding send_open
on_opens result (opening channel owner) s = send_open result channel owner s
on_opens result other s = s

-- `teardown` drains the table once the flag is set.
unfoldable pub on_drains : Bool → System → System
on_drains true s = record s { relay = Relay.drain s.relay; drained = true }
on_drains false s = s

-- A turn of the accept thread that does not stand there changes nothing.
unfoldable pub step : Turn → System → System
unfolding leave on_drains on_takes on_fails on_resolves on_admits on_opens
step takes s = on_takes s.accepting s
step fails s = on_fails s.accepting s
step (resolves splits) s = on_resolves splits s.accepting s
step admits s = on_admits s.accepting s
step (opens result) s = on_opens result s.accepting s
step (pump_ends channel) s = record s { relay = (Relay.remove_channel channel s.relay).0 }
step (writes taken client_id channel bytes) s = record s {
  relay = Relay.write_to_channel_for taken client_id channel bytes s.relay;
}
step (closes client_id channel) s = record s {
  relay = Relay.close_channel_for client_id channel s.relay;
}
step (connection op) s = record s {
  registry = Driving.apply op s.registry;
  leaving = leave op s.leaving;
}
step (sweeps id) s = record s {
  relay = Relay.close_channels_for_client id s.relay;
  leaving = without id s.leaving;
}
step shuts s = record s { relay = Relay.shut s.relay }
step drains s = on_drains s.relay.shutdown s

abbrev pub run : List Turn → System → System
run [] s = s
run (t ∷ ts) s = run ts (step t s)

abbrev pub start : ClientState → System
start registry = record {
  registry = registry;
  relay = Relay.bound;
  accepting = listening;
  backoff = accept_backoff_min;
  leaving = [];
  drained = false;
  next_stream = 0;
  origin = [];
  bridged = [];
}
