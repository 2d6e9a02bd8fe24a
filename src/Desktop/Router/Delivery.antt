-- ===== src/Desktop/Router/Delivery.antt =====
-- What the terminal of one session is told, beside what all other sessions do.
pub mod Own
pub mod Runs
pub mod Lossless
use hitch.Prelude.{
  ℕ, ◌≡◌, Bool, true, false, Option, none, some, List, [], ◌∷◌, ◌++◌, arith, Bytes, ◌==◌,
  if◌then◌else◌,
}
use hitch.Prelude.Assoc.{Assoc, get, contains_key}
use hitch.Prelude.Text.{unwrap_or}
use hitch.Core.Domain.{SessionId}
use hitch.Terminal.Scrollback.Latest.{latest}
use hitch.Desktop.Router
use hitch.Desktop.Router.{Message, OutputRouter, RouterOp}

-- One session as its terminal sees it: all bytes that wait for a channel, however many.
pub record Line : Type 0 where
  pub channel : Option ℕ
  pub pending : Bytes
  pub opened : Bool
  pub told : List (ℕ × Bytes)

abbrev pub new_line : Line
new_line = record { channel = none; pending = []; opened = false; told = [] }

abbrev window : Bytes → Bytes
window pending = latest Router.output_staging_capacity pending

unfoldable pub line_send : Bool → Bytes → Option ℕ → Line → Line
line_send takes payload none l = record l { pending = l.pending ++ payload }
line_send true payload (some channel) l = record l { told = l.told ++ (channel, payload) ∷ [] }
line_send false payload (some channel) l = record l {
  channel = none;
  pending = l.pending ++ payload;
}

-- The latest bytes that wait go to the new channel, in one message if there are any.
unfoldable pub line_register : Bool → ℕ → Bytes → Line → Line
line_register takes channel [] l = record l { channel = some channel; pending = [] }
line_register true channel (b ∷ bs) l = record l {
  channel = some channel;
  pending = [];
  told = l.told ++ (channel, b ∷ bs) ∷ [];
}
line_register false channel (b ∷ bs) l = record l { channel = none }

abbrev pub line_prepare : Bool → Line → Line
line_prepare again l = record l {
  channel = none;
  opened = true;
  pending = if again then [] else l.pending;
}

-- What an operation is to the line of a session: nothing, if it is about another one.
unfoldable pub follow : SessionId → RouterOp → Line → Line
unfolding line_send line_register
follow id (Router.prepares k) l = if k == id then line_prepare l.opened l else l
follow id (Router.sends takes k payload) l =
    if k == id then line_send takes payload l.channel l else l
follow id (Router.registers takes k channel) l =
    if k == id then line_register takes channel (window l.pending) l else l
follow id (Router.unregisters k) l =
    if k == id then record l { channel = none; pending = [] } else l
follow id (Router.closes k) l =
    if k == id then record l { channel = none; pending = []; opened = false } else l

abbrev pub follow_all : SessionId → List RouterOp → Line → Line
follow_all id [] l = l
follow_all id (op ∷ ops) l = follow_all id ops (follow id op l)

unfoldable pub told_to : SessionId → List Message → List (ℕ × Bytes)
told_to id [] = []
told_to id (m ∷ ms) =
    let rest = told_to id ms in if m.session_id == id then (m.channel, m.bytes) ∷ rest else rest

pub record Follows (id : SessionId) (r : OutputRouter) (l : Line) : Type 0 where
  pub channel : get id r.channels ≡ l.channel
  pub staged : unwrap_or [] (get id r.staging) ≡ window l.pending
  pub opened : contains_key id r.opened_sessions ≡ l.opened
  pub told : told_to id r.sent ≡ l.told

pub told_to-append :
    (id : SessionId) (ms : List Message) (m : Message)
    → told_to id (ms ++ m ∷ [])
      ≡ told_to id ms ++ (if m.session_id == id then (m.channel, m.bytes) ∷ [] else [])
unfolding told_to
told_to-append id [] m = ground arith
told_to-append id (n ∷ ms) m = ground (arith, told_to-append id ms m)
