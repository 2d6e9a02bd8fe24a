-- ===== src/Daemon/Clients/Driving/Runs.antt =====
-- Every operation on the registry keeps a driving client.
use Prim.Native.String.{String}
use hitch.Prelude.{
  ℕ, ◌+◌, ◌<◌, ◌≡◌, refl, sym, ◌∙◌, inl, inr, Bool, true, false, some, List, [], ◌∷◌, arith,
  Bool-cases, Option-cases, some-injective, All-map,
}
use hitch.Prelude.Assoc.{get, insert, get-insert, insert-All, remove-All}
use hitch.Prelude.Keys.{insert-OneEach, remove-OneEach, get-All}
use hitch.Daemon.Clients.{
  ClientSink, ClientState, register_client, is_eligible, unregister_client, refresh_driving_client,
  announce_relay, announce_local, new_sink,
}
use hitch.Daemon.Clients.Driving.{
  ClientOp, registers, unregisters, refreshes, relays, locals, apply, run, IsDriven,
}
use hitch.Daemon.Clients.Driving.Keys.{driver-remove, put-Driven}

register-IsDriven : (st : ClientState) → IsDriven st → IsDriven (register_client st).0
unfolding register_client
register-IsDriven st d =
    let next = st.next_client_id in
    record {
      below =
          insert-All (λ entry. entry.0 < next + 1) next new_sink st.clients (omega arith)
            (All-map (λ entry. entry.0 < next) _ (λ entry h. omega (arith, h)) st.clients d.below);
      keys = insert-OneEach st.next_client_id new_sink st.clients d.keys;
      driver =
          put-Driven st.next_client_id new_sink st.clients st.driving_client
            (unfold is_eligible in refl)
            (λ old there.
              absurd
                (omega (arith, get-All (λ entry. entry.0 < next) next st.clients d.below there)))
            d.driver;
    }

unregister-IsDriven : (id : ℕ) (st : ClientState) → IsDriven st → IsDriven (unregister_client id st)
unfolding unregister_client
unregister-IsDriven id st d = record {
  keys = remove-OneEach id st.clients d.keys;
  below = remove-All (λ entry. entry.0 < st.next_client_id) id st.clients d.below;
  driver = driver-remove id st.clients st.driving_client d.keys d.driver;
}

refresh-IsDriven :
    (id : ℕ) (st : ClientState) → IsDriven st → IsDriven (refresh_driving_client id st)
unfolding refresh_driving_client
refresh-IsDriven id st d = elim (Option-cases (get id st.clients)) [
  | inl unknown ↦ rw unknown d
  | inr (sink, there) ↦ elim (Bool-cases (is_eligible sink)) [
    | inr cannot ↦ rw (there, cannot) d
    | inl may ↦
        rw (there, may) (record { keys = d.keys; below = d.below; driver = (sink, there, may) })
  ]
]

-- A sink is put back so that it may drive if it could: the refresh that follows makes it the driver.
mark-IsDriven :
    (id : ℕ) (old sink : ClientSink) (st : ClientState)
    → get id st.clients ≡ some old
    → (is_eligible old ≡ true → is_eligible sink ≡ true)
    → IsDriven st
    → IsDriven (refresh_driving_client id (record st { clients = insert id sink st.clients }))
unfolding refresh_driving_client
mark-IsDriven id old sink st there still d =
    let put : get id (insert id sink st.clients) ≡ some sink =
      ground (arith, get-insert id id sink st.clients) in
    let below =
      insert-All (λ entry. entry.0 < st.next_client_id) id sink st.clients
        (get-All (λ entry. entry.0 < st.next_client_id) id st.clients d.below there) d.below in
    elim (Bool-cases (is_eligible sink)) [
      | inl may ↦
          rw (put, may)
            (record {
              keys = insert-OneEach id sink st.clients d.keys;
              below = below;
              driver = (sink, put, may);
            })
      | inr cannot ↦
          let was : is_eligible old ≡ false = elim (Bool-cases (is_eligible old)) [
            | inl could ↦ absurd (cc (still could, cannot))
            | inr could_not ↦ could_not
          ] in
          rw (put, cannot)
            (record {
              keys = insert-OneEach id sink st.clients d.keys;
              below = below;
              driver =
                  put-Driven id sink st.clients st.driving_client cannot
                    (λ before found. rw (← some-injective (sym there ∙ found)) was) d.driver;
            })
    ]

relay-IsDriven : (id : ℕ) (st : ClientState) → IsDriven st → IsDriven (announce_relay id st)
unfolding announce_relay
relay-IsDriven id st d = elim (Option-cases (get id st.clients)) [
  | inl unknown ↦ rw unknown (refresh-IsDriven id st d)
  | inr (old, there) ↦ rw there (
      mark-IsDriven id old (record old { relay_capable = true }) st there
        (unfold is_eligible in λ may. ground (arith, may)) d)
]

local_marks :
    (id : ℕ) (path : String) (old : ClientSink) (st : ClientState)
    → get id st.clients ≡ some old
    → old.relay_capable ≡ false
    → announce_local true id path st
      ≡ refresh_driving_client id (record st {
        clients = insert id (record old { local_agent_sock = some path }) st.clients;
      })
unfolding announce_local
local_marks id path old st there alone = rw (there, alone) refl

local-IsDriven :
    (valid : Bool) (id : ℕ) (path : String) (st : ClientState)
    → IsDriven st
    → IsDriven (announce_local valid id path st)
unfolding announce_local
local-IsDriven valid id path st d = elim (Option-cases (get id st.clients)) [
  | inl unknown ↦ elim (Bool-cases valid) [
    | inl good ↦ rw (unknown, good) (refresh-IsDriven id st d)
    | inr bad ↦ rw (unknown, bad) d
  ]
  | inr (old, there) ↦ elim (Bool-cases old.relay_capable) [
    | inl relay ↦ rw (there, relay) d
    | inr alone ↦ elim (Bool-cases valid) [
      | inr bad ↦ rw (there, alone, bad) d
      | inl good ↦
          rw (good, local_marks id path old st there alone)
            (mark-IsDriven id old (record old { local_agent_sock = some path }) st there
              (unfold is_eligible in λ may. ground (arith, may)) d)
    ]
  ]
]

apply-IsDriven : (op : ClientOp) (st : ClientState) → IsDriven st → IsDriven (apply op st)
apply-IsDriven registers st d = register-IsDriven st d
apply-IsDriven (unregisters id) st d = unregister-IsDriven id st d
apply-IsDriven (refreshes id) st d = refresh-IsDriven id st d
apply-IsDriven (relays id) st d = relay-IsDriven id st d
apply-IsDriven (locals valid id path) st d = local-IsDriven valid id path st d

-- Any sequence of registrations, disconnects, preludes and refreshes keeps: the client ids are
-- distinct and below the next one, the driving client is a registered client that is eligible, and
-- without a driving client no registered client is eligible.
pub client_run-IsDriven :
    (ops : List ClientOp) (st : ClientState) → IsDriven st → IsDriven (run ops st)
client_run-IsDriven [] st d = d
client_run-IsDriven (op ∷ ops) st d = client_run-IsDriven ops (apply op st) (apply-IsDriven op st d)
