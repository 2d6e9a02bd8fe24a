-- ===== src/Daemon/Relay.antt =====
-- `SshAgentRelay` of crates/hitch-daemon/src/main.rs: the table of channels that connect git's ssh
-- clients with the GUI that drives. A git-side stream is the number of its accept. What was done to
-- a stream is kept in two lists, newest first: `closed` has the streams that were force-closed or
-- dropped, which git reads as the end, and `git` has the bytes written to a stream with the
-- connection that they came from. The bytes from git to the GUI are left out.
use hitch.Prelude.{
  ℕ, Bool, true, false, Option, none, some, List, [], ◌∷◌, ◌++◌, Bytes, ◌==◌, if◌then◌else◌,
}
use hitch.Prelude.Assoc.{Assoc, get, remove}

pub record RelayChannel : Type 0 where
  pub writer : ℕ
  pub owner : ℕ

pub record Written : Type 0 where
  pub stream : ℕ
  pub client_id : ℕ
  pub bytes : Bytes

pub record SshAgentRelay : Type 0 where
  pub channels : Assoc RelayChannel
  pub shutdown : Bool
  pub next_channel : ℕ
  pub closed : List ℕ
  pub git : List Written

-- The relay before its first accept: `SSH_AGENT_RELAY_CHANNEL_SEQ` starts at 1.
abbrev pub bound : SshAgentRelay
bound = record { channels = []; shutdown = false; next_channel = 1; closed = []; git = [] }

-- `force_close`, and a stream that goes out of scope.
abbrev pub force_close : ℕ → SshAgentRelay → SshAgentRelay
force_close stream r = record r { closed = stream ∷ r.closed }

abbrev pub removed : ℕ → Option RelayChannel → SshAgentRelay → SshAgentRelay × Bool
removed channel none r = (r, false)
removed channel (some chan) r =
    (force_close chan.writer (record r { channels = remove channel r.channels }), true)

unfoldable pub remove_channel : ℕ → SshAgentRelay → SshAgentRelay × Bool
remove_channel channel r = removed channel (get channel r.channels) r

abbrev pub close_channel : ℕ → SshAgentRelay → SshAgentRelay
close_channel channel r = (remove_channel channel r).0

abbrev pub owned_by : ℕ → Option RelayChannel → Bool
owned_by client_id none = false
owned_by client_id (some chan) = chan.owner == client_id

-- The check and the removal take the lock one after the other. Ids are not used twice, so that a
-- channel removed between them is not there for the second.
unfoldable pub close_channel_for : ℕ → ℕ → SshAgentRelay → SshAgentRelay
close_channel_for client_id channel r =
    if owned_by client_id (get channel r.channels) then close_channel channel r else r

-- The bounded write to the git-side stream; `taken` says whether it succeeded. A writer whose
-- channel was closed after the look-up fails, and then there is nothing to close.
abbrev write_writer : Bool → ℕ → ℕ → Option RelayChannel → Bytes → SshAgentRelay → SshAgentRelay
write_writer taken client_id channel none bytes r = r
write_writer taken client_id channel (some chan) bytes r =
    if taken
    then record r {
      git = record { stream = chan.writer; client_id = client_id; bytes = bytes } ∷ r.git;
    }
    else close_channel channel r

abbrev pub owned : ℕ → Option RelayChannel → Option RelayChannel
owned client_id none = none
owned client_id (some chan) = if chan.owner == client_id then some chan else none

unfoldable pub write_to_channel_for : Bool → ℕ → ℕ → Bytes → SshAgentRelay → SshAgentRelay
write_to_channel_for taken client_id channel bytes r =
    write_writer taken client_id channel (owned client_id (get channel r.channels)) bytes r

-- `channels.iter().filter(…)`: the ids of the channels of a client.
unfoldable pub owned_ids : ℕ → Assoc RelayChannel → List ℕ
owned_ids client_id [] = []
owned_ids client_id ((channel, chan) ∷ m) =
    let rest = owned_ids client_id m in if chan.owner == client_id then channel ∷ rest else rest

abbrev pub close_each : List ℕ → SshAgentRelay → SshAgentRelay
close_each [] r = r
close_each (channel ∷ ids) r = close_each ids (close_channel channel r)

unfoldable pub close_channels_for_client : ℕ → SshAgentRelay → SshAgentRelay
close_channels_for_client client_id r = close_each (owned_ids client_id r.channels) r

-- The two parts of `teardown`: the flag, and the drain under the lock of the table.
abbrev pub shut : SshAgentRelay → SshAgentRelay
shut r = record r { shutdown = true }

abbrev pub writers : Assoc RelayChannel → List ℕ
writers [] = []
writers ((channel, chan) ∷ m) = chan.writer ∷ writers m

unfoldable pub drain : SshAgentRelay → SshAgentRelay
drain r = record r { channels = []; closed = writers r.channels ++ r.closed }
