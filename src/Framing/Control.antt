-- ===== src/Framing/Control.antt =====
-- crates/hitch-proto/src/framing.rs: `encode_control_message` and `ControlLineDecoder`.
-- `serde_json` is a parameter: `to_vec` and `from_slice` on a type of messages.
pub mod Lines
pub mod Chunks
pub mod RoundTrip
use Prim.Native.String.{String}
use hitch.Prelude.{
  ℕ, ◌*◌, Bool, false, not, ◌||◌, Option, none, some, List, [], ◌∷◌, ◌++◌, Bytes, ltb, ◌==◌,
  if◌then◌else◌, length, Result, ok_if, ok, err, ◌>>=◌, ◌>>◌,
}
use hitch.Framing.Error.{FrameError, json, control_line_too_large, control_payload_contains_newline}
use hitch.Framing.Drain.{Round, stop, fail, taken, drain_all}

abbrev pub max_control_line_len : ℕ
max_control_line_len = 512 * 1024

-- `encoded.contains(&b'\n')`
unfoldable pub contains_newline : Bytes → Bool
contains_newline [] = false
contains_newline (c ∷ cs) = c == b'\n' || contains_newline cs

-- The bytes before the first newline, and those behind it.
unfoldable pub split_line : Bytes → Option (Bytes × Bytes)
split_line [] = none
split_line (c ∷ cs) =
    if c == b'\n'
    then some ([], cs)
    else elim (split_line cs) [ none ↦ none | some (line, rest) ↦ some (c ∷ line, rest) ]

-- `serde_json::Error` by `?`, as `From<serde_json::Error>` wraps it.
abbrev pub json_error : {M : Type 0} → Result String M → Result FrameError M
json_error (ok m) = ok m
json_error (err text) = err (json text)

pub record ControlLineDecoder : Type 0 where
  pub buffer : Bytes

abbrev pub new : ControlLineDecoder
new = record { buffer = [] }

module _ {M : Type 0} (to_vec : M → Result String Bytes) where
  unfoldable pub encode_control_message : M → Result FrameError Bytes
  encode_control_message m = do
    encoded ← json_error (to_vec m)
    ok_if (not (contains_newline encoded)) (encoded ++ b'\n' ∷ []) control_payload_contains_newline

module _ {M : Type 0} (from_slice : Bytes → Result String M) where
  -- One line, without its newline: blank ones are skipped, and one that does not parse ends `push`.
  unfoldable pub parsed_line : Bytes → Bytes → Round FrameError M
  parsed_line [] rest = taken [] rest
  parsed_line (c ∷ cs) rest = elim (from_slice (c ∷ cs)) [
    | ok m ↦ taken (m ∷ []) rest
    | err text ↦ fail (json text) rest
  ]

  -- The body of the loop of `push`.
  unfoldable pub round : Bytes → Round FrameError M
  round buffer = elim (split_line buffer) [
    | none ↦ stop
    | some (line, rest) ↦ parsed_line line rest
  ]

  abbrev pub Pushed : Type 0
  Pushed = Result FrameError (List M) × ControlLineDecoder

  -- The cap on what stays buffered, after the loop.
  abbrev pub capped : Result FrameError (List M) × Bytes → Pushed
  capped (ok messages, rest) =
      if ltb max_control_line_len (length rest)
      then (
        err (control_line_too_large (length rest) max_control_line_len),
        record { buffer = rest },
      )
      else (ok messages, record { buffer = rest })
  capped (err e, rest) = (err e, record { buffer = rest })

  unfoldable pub push : ControlLineDecoder → Bytes → Pushed
  push d bytes = capped (drain_all round (d.buffer ++ bytes))
