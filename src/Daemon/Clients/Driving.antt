-- ===== src/Daemon/Clients/Driving.antt =====
-- The driving client is an eligible client, and there is one where a client is eligible.
pub mod Keys
pub mod Runs
use Prim.Native.String.{String}
use hitch.Prelude.{ℕ, ◌<◌, ◌≡◌, Bool, true, false, Option, none, some, List, [], ◌∷◌, ◌==◌, All}
use hitch.Prelude.Assoc.{Assoc, get, insert, remove, get-insert, get-remove, insert-All, remove-All}
use hitch.Prelude.Keys.{OneEach}
use hitch.Daemon.Clients.{
  ClientSink, ClientState, register_client, is_eligible, find_eligible, is_driving,
  unregister_client, refresh_driving_client, announce_relay, announce_local, new_sink,
}

-- What a client's connection does to the registry.
pub data ClientOp : Type 0 where
  registers : ClientOp
  unregisters refreshes relays : ℕ → ClientOp
  locals : Bool → ℕ → String → ClientOp

abbrev pub apply : ClientOp → ClientState → ClientState
apply registers st = (register_client st).0
apply (unregisters id) st = unregister_client id st
apply (refreshes id) st = refresh_driving_client id st
apply (relays id) st = announce_relay id st
apply (locals valid id path) st = announce_local valid id path st

abbrev pub run : List ClientOp → ClientState → ClientState
run [] st = st
run (op ∷ ops) st = run ops (apply op st)

abbrev pub Ineligible : ℕ × ClientSink → Type 0
Ineligible entry = is_eligible entry.1 ≡ false

-- The driver is a client that may drive; without a driver no client may.
abbrev pub Driven : Assoc ClientSink → Option ℕ → Type 0
Driven clients none = All (λ entry. is_eligible entry.1 ≡ false) clients
Driven clients (some id) =
    (sink : ClientSink) × (get id clients ≡ some sink) × (is_eligible sink ≡ true)

pub record IsDriven (st : ClientState) : Type 0 where
  pub keys : OneEach st.clients
  pub below : All (λ entry. entry.0 < st.next_client_id) st.clients
  pub driver : Driven st.clients st.driving_client
