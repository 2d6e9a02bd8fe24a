-- ===== src/Daemon/Accept/Owners/Watched.antt =====
-- What the connections of the GUIs do to the clients that are watched.
use Prim.Native.String.{String}
use hitch.Prelude.{
  ℕ, ◌≡◌, inl, inr, Bool, true, Option, none, some, List, ◌∷◌, arith, Bool-cases, All-map,
}
use hitch.Prelude.Assoc.{get, insert, get-insert, get-remove}
use hitch.Daemon.Clients.{
  ClientSink, ClientState, unregister_client, register_client, refresh_driving_client,
  announce_relay, announce_local, is_some_and, is_eligible, update, new_sink,
}
use hitch.Daemon.Clients.Driving
use hitch.Daemon.Clients.Driving.{ClientOp}
use hitch.Daemon.Accept
use hitch.Daemon.Accept.{System, Accepting, Turn}
use hitch.Daemon.Accept.Owners.{is_watched, HasOwner, IsOwned}

-- What keeps the watched clients keeps the owners.
pub watch-IsOwned :
    (s : System) (registry : ClientState) (leaving : List ℕ)
    → ((id : ℕ) → is_watched s.registry s.leaving id ≡ true → is_watched registry leaving id ≡ true)
    → IsOwned s
    → IsOwned (record s { registry = registry; leaving = leaving })
watch-IsOwned s registry leaving keeps o = record {
  owners =
      All-map (HasOwner s.registry s.leaving) _ (λ entry h. keeps entry.1.owner h) s.relay.channels
        o.owners;
  after_drain = o.after_drain;
  shut = o.shut;
}

insert-watched :
    (k id : ℕ) (sink : ClientSink) (st : ClientState) (leaving : List ℕ)
    → is_watched st leaving id ≡ true
    → is_watched (record st { clients = insert k sink st.clients }) leaving id ≡ true
insert-watched k id sink st leaving h = ground (arith, get-insert k id sink st.clients, h)

remove-watched :
    (k id : ℕ) (st : ClientState) (leaving : List ℕ)
    → is_watched st leaving id ≡ true
    → is_watched (unregister_client k st) (k ∷ leaving) id ≡ true
unfolding unregister_client
remove-watched k id st leaving h = ground (arith, get-remove k id st.clients, h)

refresh-watched :
    (k id : ℕ) (st : ClientState) (leaving : List ℕ)
    → is_watched st leaving id ≡ true
    → is_watched (refresh_driving_client k st) leaving id ≡ true
unfolding refresh_driving_client
refresh-watched k id st leaving h = elim (Bool-cases (is_some_and is_eligible (get k st.clients))) [
  | inl may ↦ rw may h
  | inr cannot ↦ rw cannot h
]

update-watched :
    (k id : ℕ) (f : ClientSink → ClientSink) (found : Option ClientSink) (st : ClientState)
    (leaving : List ℕ)
    → is_watched st leaving id ≡ true
    → is_watched (record st { clients = update k f found st.clients }) leaving id ≡ true
update-watched k id f none st leaving h = h
update-watched k id f (some sink) st leaving h = insert-watched k id (f sink) st leaving h

pub disconnect-watched :
    (k id : ℕ) (found : Option ClientSink) (st : ClientState) (leaving : List ℕ)
    → is_watched st leaving id ≡ true
    → is_watched (Accept.disconnect k found st) leaving id ≡ true
disconnect-watched k id none st leaving h = h
disconnect-watched k id (some sink) st leaving h = insert-watched k id _ st leaving h

local-watched :
    (valid : Bool) (k id : ℕ) (path : String) (st : ClientState) (leaving : List ℕ)
    → is_watched st leaving id ≡ true
    → is_watched (announce_local valid k path st) leaving id ≡ true
unfolding announce_local
local-watched valid k id path st leaving h =
    elim (Bool-cases (is_some_and (λ sink. sink.relay_capable) (get k st.clients))) [
      | inl relay ↦ rw relay h
      | inr alone ↦ elim (Bool-cases valid) [
        | inr bad ↦ rw (alone, bad) h
        | inl good ↦
            rw (alone, good)
              (refresh-watched k id _ leaving (
                update-watched k id (λ sink. record sink { local_agent_sock = some path })
                  (get k st.clients) st leaving h))
      ]
    ]

pub op-watched :
    (op : ClientOp) (id : ℕ) (st : ClientState) (leaving : List ℕ)
    → is_watched st leaving id ≡ true
    → is_watched (Driving.apply op st) (Accept.leave op leaving) id ≡ true
unfolding Accept.leave register_client announce_relay
op-watched Driving.registers id st leaving h =
    insert-watched st.next_client_id id new_sink st leaving h
op-watched (Driving.unregisters k) id st leaving h = remove-watched k id st leaving h
op-watched (Driving.refreshes k) id st leaving h = refresh-watched k id st leaving h
op-watched (Driving.relays k) id st leaving h = refresh-watched k id _ leaving (
    update-watched k id (λ sink. record sink { relay_capable = true }) (get k st.clients) st leaving
      h)
op-watched (Driving.locals valid k path) id st leaving h =
    local-watched valid k id path st leaving h
