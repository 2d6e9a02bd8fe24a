-- ===== src/Framing/Error.antt =====
-- `FrameError` of crates/hitch-proto/src/framing.rs. A `serde_json::Error` is its message.
use Prim.Native.String.{String}
use hitch.Prelude.{ℕ}

pub data FrameError : Type 0 where
  frame_too_large : ℕ → ℕ → FrameError
  control_line_too_large : ℕ → ℕ → FrameError
  length_overflow : ℕ → FrameError
  json : String → FrameError
  control_payload_contains_newline : FrameError
