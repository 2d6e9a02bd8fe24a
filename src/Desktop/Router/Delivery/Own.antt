-- ===== src/Desktop/Router/Delivery/Own.antt =====
-- An operation on a session moves the line of that session.
use hitch.Prelude.{
  ℕ, ◌≡◌, refl, sym, ap, ◌∙◌, inl, inr, Bool, true, false, Option, none, some, [], ◌∷◌, ◌++◌, arith,
  Bytes, ltb, ◌==◌, if◌then◌else◌, ltb→ge, Bool-cases, is_some, length,
}
use hitch.Prelude.Assoc.{Assoc, get, remove}
use hitch.Prelude.Keys.{get-insert_self, get-remove_self}
use hitch.Prelude.Text.{unwrap_or}
use hitch.Core.Domain.{SessionId}
use hitch.Terminal.Scrollback.Latest.{latest, latest_all, latest-latest-append}
use hitch.Desktop.Router
use hitch.Desktop.Router.{Message, OutputRouter, RouterOp}
use hitch.Desktop.Router.Delivery.{
  Line, Follows, line_send, line_register, line_prepare, told_to, told_to-append,
}

trimmed-latest : (buf : Bytes) → Router.trimmed buf ≡ latest Router.output_staging_capacity buf
trimmed-latest buf = elim (Bool-cases (ltb Router.output_staging_capacity (length buf))) [
  | inl over ↦ rw over refl
  | inr fits ↦ rw fits (sym (latest_all Router.output_staging_capacity buf (ltb→ge _ _ fits)))
]

-- Staging keeps the latest of what waits.
stage-window :
    (buf payload pending : Bytes)
    → buf ≡ latest Router.output_staging_capacity pending
    → Router.trimmed (buf ++ payload) ≡ latest Router.output_staging_capacity (pending ++ payload)
stage-window buf payload pending e =
    trimmed-latest (buf ++ payload)
    ∙ rw e (latest-latest-append Router.output_staging_capacity pending payload)

stage-Follows :
    (id : SessionId) (payload : Bytes) (r : OutputRouter) (l : Line)
    → Follows id r l
    → Follows id (Router.stage id payload r) (record l { pending = l.pending ++ payload })
unfolding Router.stage
stage-Follows id payload r l f = record {
  channel = f.channel;
  staged =
      ap (unwrap_or []) (get-insert_self id _ r.staging)
      ∙ stage-window (unwrap_or [] (get id r.staging)) payload l.pending f.staged;
  opened = f.opened;
  told = f.told;
}

told-note :
    (id : SessionId) (channel : ℕ) (bytes : Bytes) (r : OutputRouter)
    → told_to id (Router.note id channel bytes r).sent ≡ told_to id r.sent ++ (channel, bytes) ∷ []
told-note id channel bytes r =
    let same : (id == id) ≡ true = ground arith in told_to-append id r.sent _ ∙ rw same refl

pub send_to-Follows :
    (takes : Bool) (id : SessionId) (payload : Bytes) (found : Option ℕ) (r : OutputRouter)
    (l : Line)
    → Follows id r l
    → Follows id (Router.send_to takes id payload found r) (line_send takes payload found l)
unfolding Router.send_to line_send
send_to-Follows takes id payload none r l f = stage-Follows id payload r l f
send_to-Follows true id payload (some channel) r l f = record {
  channel = f.channel;
  staged = f.staged;
  opened = f.opened;
  told = told-note id channel payload r ∙ rw f.told refl;
}
send_to-Follows false id payload (some channel) r l f =
    stage-Follows id payload (record r { channels = remove id r.channels })
      (record l { channel = none })
      (record {
        channel = get-remove_self id r.channels;
        staged = f.staged;
        opened = f.opened;
        told = f.told;
      })

-- What is staged is the window of what waits: both say whether there is something to flush.
pub flush-Follows :
    (takes : Bool) (id : SessionId) (channel : ℕ) (found : Option Bytes) (r : OutputRouter)
    (l : Line)
    → get id r.staging ≡ found
    → Follows id r l
    → Follows id
        (Router.flush takes id channel found r)
        (line_register takes channel (unwrap_or [] found) l)
unfolding Router.flush line_register
flush-Follows takes id channel none r l e f = record {
  channel = get-insert_self id channel r.channels;
  staged = ap (unwrap_or []) e;
  opened = f.opened;
  told = f.told;
}
flush-Follows takes id channel (some []) r l e f = record {
  channel = get-insert_self id channel r.channels;
  staged = ap (unwrap_or []) (get-remove_self id r.staging);
  opened = f.opened;
  told = f.told;
}
flush-Follows true id channel (some (b ∷ bs)) r l e f = record {
  channel = get-insert_self id channel r.channels;
  staged = ap (unwrap_or []) (get-remove_self id r.staging);
  opened = f.opened;
  told = told-note id channel (b ∷ bs) r ∙ rw f.told refl;
}
flush-Follows false id channel (some (b ∷ bs)) r l e f = record {
  channel = get-remove_self id r.channels;
  staged =
      ap (unwrap_or []) (get-insert_self id (b ∷ bs) (remove id r.staging))
      ∙ sym (ap (unwrap_or []) e)
      ∙ f.staged;
  opened = f.opened;
  told = f.told;
}

-- What was staged before the first opening is kept.
prepared-window :
    (again : Bool) (id : SessionId) (staging : Assoc Bytes) (pending : Bytes)
    → unwrap_or [] (get id staging) ≡ latest Router.output_staging_capacity pending
    → unwrap_or [] (get id (if again then remove id staging else staging))
      ≡ latest Router.output_staging_capacity (if again then [] else pending)
prepared-window true id staging pending e = ap (unwrap_or []) (get-remove_self id staging)
prepared-window false id staging pending e = e

pub prepare-Follows :
    (id : SessionId) (r : OutputRouter) (l : Line)
    → Follows id r l
    → Follows id (Router.prepare_fresh_registration id r) (line_prepare l.opened l)
unfolding Router.prepare_fresh_registration
prepare-Follows id r l f = record {
  channel = get-remove_self id r.channels;
  staged = rw f.opened (prepared-window l.opened id r.staging l.pending f.staged);
  opened = ap is_some (get-insert_self id tt r.opened_sessions);
  told = f.told;
}

pub drop-Follows :
    (id : SessionId) (r : OutputRouter) (l : Line)
    → Follows id r l
    → Follows id (Router.unregister_channel id r) (record l { channel = none; pending = [] })
unfolding Router.unregister_channel
drop-Follows id r l f = record {
  channel = get-remove_self id r.channels;
  staged = ap (unwrap_or []) (get-remove_self id r.staging);
  opened = f.opened;
  told = f.told;
}

pub close-Follows :
    (id : SessionId) (r : OutputRouter) (l : Line)
    → Follows id r l
    → Follows id
        (Router.close_session id r)
        (record l { channel = none; pending = []; opened = false })
unfolding Router.close_session
close-Follows id r l f = record {
  channel = get-remove_self id r.channels;
  staged = ap (unwrap_or []) (get-remove_self id r.staging);
  opened = ap is_some (get-remove_self id r.opened_sessions);
  told = f.told;
}
