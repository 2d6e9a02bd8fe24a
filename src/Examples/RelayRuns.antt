-- ===== src/Examples/RelayRuns.antt =====
-- Runs of the ssh-agent relay of crates/hitch-daemon/src/main.rs.
use hitch.Prelude.{◌<◌, ◌≡◌, refl, true, none, List, [], ◌∷◌, arith, All}
use hitch.Prelude.Assoc.{get, insert, remove}
use hitch.Daemon.Clients
use hitch.Daemon.Clients.{ClientState}
use hitch.Daemon.Clients.Driving
use hitch.Daemon.Relay
use hitch.Daemon.Accept
use hitch.Daemon.Accept.{System, Turn}
use hitch.Daemon.Accept.Owners.{IsOwned}
use hitch.Daemon.Accept.Owners.Runs.{relay_run-IsOwned}
use hitch.Daemon.Accept.Origin.{FromOwner}
use hitch.Daemon.Accept.Origin.Runs.{relay_run-FromOwner}
use hitch.Daemon.Accept.Streams.{is_accounted}
use hitch.Daemon.Accept.Streams.Runs.{relay_run-accounted}

abbrev nobody_yet : ClientState
nobody_yet = record { clients = []; next_client_id = 0; driving_client = none }

-- A GUI is chosen for a second stream, and leaves before the channel is put in.
abbrev race : List Turn
race =
    Accept.connection Driving.registers
    ∷ Accept.connection (Driving.relays 0)
    ∷ Accept.takes
    ∷ Accept.resolves true
    ∷ Accept.admits
    ∷ Accept.opens Accept.pumped
    ∷ Accept.writes true 0 1 (7 ∷ [])
    ∷ Accept.writes true 5 1 (8 ∷ [])
    ∷ Accept.takes
    ∷ Accept.resolves true
    ∷ Accept.connection (Driving.unregisters 0)
    ∷ Accept.sweeps 0
    ∷ Accept.admits
    ∷ []

abbrev raced : System
raced = Accept.run race (Accept.start nobody_yet)

-- Both streams are closed, no channel is left, and one of the writes went through.
raced_result :
    (raced.relay.closed ≡ 1 ∷ 0 ∷ [])
    × (raced.relay.channels ≡ [])
    × (raced.relay.git ≡ record { stream = 0; client_id = 0; bytes = 7 ∷ [] } ∷ [])
    × (1 < raced.next_stream)
unfolding Accept.step Clients.announce_relay Clients.refresh_driving_client get
    Clients.register_client insert Relay.write_to_channel_for Relay.close_channels_for_client
    Relay.owned_ids Relay.remove_channel Clients.unregister_client remove
raced_result = (refl, refl, refl, omega arith)

relay_run-IsOwned_example : IsOwned raced
relay_run-IsOwned_example =
    relay_run-IsOwned race (Accept.start nobody_yet)
      (record { owners = tt; after_drain = λ e. refl; shut = λ e. cc })

relay_run-FromOwner_example : All (FromOwner raced.origin) raced.relay.git
relay_run-FromOwner_example = relay_run-FromOwner race nobody_yet

relay_run-accounted_example : is_accounted 1 raced ≡ true
relay_run-accounted_example = relay_run-accounted race nobody_yet 1 raced_result.3
