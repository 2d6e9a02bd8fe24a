-- ===== src/Daemon/Clients.antt =====
-- The registry of clients and the driving client of crates/hitch-daemon/src/main.rs:
-- `register_client`, `unregister_client`, `refresh_driving_client`, and the preludes
-- `SshAgentRelay` and `ClientLocal` of `handle_client`. The gates of a client are in
-- Daemon/Replay.antt, its queue is in Daemon/Writer.antt, and its uploads are in
-- Daemon/Uploads.antt; a sink here is what the choice of the driving client reads. The relay's
-- channels are left out.
pub mod Driving
use Prim.Native.String.{String}
use hitch.Prelude.{
  ℕ, ◌+◌, Bool, true, false, not, ◌&&◌, ◌||◌, Option, none, some, [], ◌∷◌, ◌==◌, if◌then◌else◌,
  is_some,
}
use hitch.Prelude.Assoc.{Assoc, get, insert, remove}

pub record ClientSink : Type 0 where
  pub relay_capable : Bool
  pub local_agent_sock : Option String
  pub disconnected : Bool

pub record ClientState : Type 0 where
  pub clients : Assoc ClientSink
  pub next_client_id : ℕ
  pub driving_client : Option ℕ

abbrev pub new_sink : ClientSink
new_sink = record { relay_capable = false; local_agent_sock = none; disconnected = false }

unfoldable pub register_client : ClientState → ClientState × ℕ
register_client st = (
  record st {
    clients = insert st.next_client_id new_sink st.clients;
    next_client_id = st.next_client_id + 1;
  },
  st.next_client_id,
)

-- The test that `refresh_driving_client` and `unregister_client` both write out.
unfoldable pub is_eligible : ClientSink → Bool
is_eligible sink = not sink.disconnected && (sink.relay_capable || is_some sink.local_agent_sock)

-- `clients.iter().find(…).map(|(id, _)| *id)`
unfoldable pub find_eligible : Assoc ClientSink → Option ℕ
find_eligible [] = none
find_eligible ((id, sink) ∷ clients) = if is_eligible sink then some id else find_eligible clients

abbrev pub is_driving : ℕ → Option ℕ → Bool
is_driving id none = false
is_driving id (some driver) = driver == id

unfoldable pub unregister_client : ℕ → ClientState → ClientState
unfolding find_eligible
unregister_client id st =
    let clients = remove id st.clients in
    let driver =
      if is_driving id st.driving_client then find_eligible clients else st.driving_client in
    record st { clients = clients; driving_client = driver }

abbrev pub is_some_and : (ClientSink → Bool) → Option ClientSink → Bool
is_some_and p none = false
is_some_and p (some sink) = p sink

unfoldable pub refresh_driving_client : ℕ → ClientState → ClientState
unfolding is_eligible
refresh_driving_client id st =
    if is_some_and is_eligible (get id st.clients)
    then record st { driving_client = some id }
    else st

abbrev pub update :
    ℕ → (ClientSink → ClientSink) → Option ClientSink → Assoc ClientSink → Assoc ClientSink
update id f none clients = clients
update id f (some sink) clients = insert id (f sink) clients

-- The prelude `SshAgentRelay`.
unfoldable pub announce_relay : ℕ → ClientState → ClientState
announce_relay id st =
    let mark : ClientSink → ClientSink = λ sink. record sink { relay_capable = true } in
    refresh_driving_client id
      (record st { clients = update id mark (get id st.clients) st.clients })

-- The prelude `ClientLocal`; `valid` is what `validate_local_agent_path` answers.
-- The source tests the relay flag and writes the path under two locks. Only the client's own thread
-- sets its flag, so the two are one step.
unfoldable pub announce_local : Bool → ℕ → String → ClientState → ClientState
announce_local valid id path st =
    if is_some_and (λ sink. sink.relay_capable) (get id st.clients)
    then st
    else if not valid
    then st
    else let mark : ClientSink → ClientSink =
        λ sink. record sink { local_agent_sock = some path } in
      refresh_driving_client id
        (record st { clients = update id mark (get id st.clients) st.clients })
