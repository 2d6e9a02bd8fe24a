-- ===== src/Desktop/Router.antt =====
-- `OutputRouter` of apps/desktop/src-tauri/src/lib.rs: the bytes of a session go to the channel of
-- its terminal, or wait for one. Whether a channel takes a message is an argument. `sent` has the
-- messages that a channel took, in order, with their session.
pub mod Delivery
use hitch.Prelude.{
  ℕ, ◌-◌, ◌*◌, Bool, Option, none, some, List, [], ◌∷◌, ◌++◌, Bytes, ltb, if◌then◌else◌, length,
  drop,
}
use hitch.Prelude.Assoc.{Assoc, get, insert, remove, contains_key}
use hitch.Prelude.Text.{unwrap_or}
use hitch.Core.Domain.{SessionId}

abbrev pub output_staging_capacity : ℕ
output_staging_capacity = 1024 * 1024

pub record Message : Type 0 where
  pub session_id : SessionId
  pub channel : ℕ
  pub bytes : Bytes

-- `opened_sessions` is a set: its elements are keys.
pub record OutputRouter : Type 0 where
  pub channels : Assoc ℕ
  pub staging : Assoc Bytes
  pub opened_sessions : Assoc (Unit {0})
  pub sent : List Message

abbrev pub new : OutputRouter
new = record { channels = []; staging = []; opened_sessions = []; sent = [] }

-- The head is dropped beyond the capacity.
abbrev pub trimmed : Bytes → Bytes
trimmed buf =
    if ltb output_staging_capacity (length buf)
    then drop (length buf - output_staging_capacity) buf
    else buf

unfoldable pub stage : SessionId → Bytes → OutputRouter → OutputRouter
stage id payload r = record r {
  staging = insert id (trimmed (unwrap_or [] (get id r.staging) ++ payload)) r.staging;
}

abbrev pub note : SessionId → ℕ → Bytes → OutputRouter → OutputRouter
note id channel bytes r = record r {
  sent = r.sent ++ record { session_id = id; channel = channel; bytes = bytes } ∷ [];
}

unfoldable pub prepare_fresh_registration : SessionId → OutputRouter → OutputRouter
prepare_fresh_registration id r =
    let already_opened = contains_key id r.opened_sessions in
    record r {
      opened_sessions = insert id tt r.opened_sessions;
      channels = remove id r.channels;
      staging = if already_opened then remove id r.staging else r.staging;
    }

unfoldable pub send_to : Bool → SessionId → Bytes → Option ℕ → OutputRouter → OutputRouter
send_to takes id payload none r = stage id payload r
send_to takes id payload (some channel) r =
    if takes
    then note id channel payload r
    else stage id payload (record r { channels = remove id r.channels })

unfoldable pub send_or_stage : Bool → SessionId → Bytes → OutputRouter → OutputRouter
unfolding send_to stage
send_or_stage takes id payload r = send_to takes id payload (get id r.channels) r

-- The staged bytes are taken out, and are put back if the channel does not take them.
unfoldable pub flush : Bool → SessionId → ℕ → Option Bytes → OutputRouter → OutputRouter
flush takes id channel none r = record r { channels = insert id channel r.channels }
flush takes id channel (some []) r = record r {
  channels = insert id channel r.channels;
  staging = remove id r.staging;
}
flush takes id channel (some (b ∷ bs)) r =
    if takes
    then note id channel (b ∷ bs)
        (record r { channels = insert id channel r.channels; staging = remove id r.staging })
    else record r {
      channels = remove id r.channels;
      staging = insert id (b ∷ bs) (remove id r.staging);
    }

unfoldable pub register_channel : Bool → SessionId → ℕ → OutputRouter → OutputRouter
unfolding flush
register_channel takes id channel r = flush takes id channel (get id r.staging) r

unfoldable pub unregister_channel : SessionId → OutputRouter → OutputRouter
unregister_channel id r = record r {
  channels = remove id r.channels;
  staging = remove id r.staging;
}

unfoldable pub close_session : SessionId → OutputRouter → OutputRouter
unfolding unregister_channel
close_session id r =
    let forgotten = unregister_channel id r in
    record forgotten { opened_sessions = remove id forgotten.opened_sessions }

-- What the reader of the connection and the terminal do.
pub data RouterOp : Type 0 where
  prepares : SessionId → RouterOp
  sends : Bool → SessionId → Bytes → RouterOp
  registers : Bool → SessionId → ℕ → RouterOp
  unregisters closes : SessionId → RouterOp

abbrev pub apply : RouterOp → OutputRouter → OutputRouter
apply (prepares id) r = prepare_fresh_registration id r
apply (sends takes id payload) r = send_or_stage takes id payload r
apply (registers takes id channel) r = register_channel takes id channel r
apply (unregisters id) r = unregister_channel id r
apply (closes id) r = close_session id r

abbrev pub run : List RouterOp → OutputRouter → OutputRouter
run [] r = r
run (op ∷ ops) r = run ops (apply op r)
