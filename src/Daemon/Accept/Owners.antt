-- ===== src/Daemon/Accept/Owners.antt =====
-- No channel of the relay is left behind by a GUI that is gone, or by the shutdown.
pub mod Shrinking
pub mod Watched
pub mod Admitted
pub mod Runs
use hitch.Prelude.{ℕ, ◌≡◌, Bool, true, ◌||◌, List, [], All}
use hitch.Prelude.Keys.{elem}
use hitch.Prelude.Assoc.{contains_key}
use hitch.Daemon.Clients.{ClientState}
use hitch.Daemon.Relay.{RelayChannel, SshAgentRelay}
use hitch.Daemon.Accept.{System}

abbrev pub is_watched : ClientState → List ℕ → ℕ → Bool
is_watched registry leaving id = contains_key id registry.clients || elem id leaving

-- The channel's GUI is registered, or its `unregister_client` has yet to close its channels.
abbrev pub HasOwner : ClientState → List ℕ → ℕ × RelayChannel → Type 0
HasOwner registry leaving entry = is_watched registry leaving entry.1.owner ≡ true

pub record IsOwned (s : System) : Type 0 where
  pub owners : All (HasOwner s.registry s.leaving) s.relay.channels
  pub after_drain : s.drained ≡ true → s.relay.channels ≡ []
  pub shut : s.drained ≡ true → s.relay.shutdown ≡ true
