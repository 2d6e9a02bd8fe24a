-- ===== src/Framing/Pty.antt =====
-- crates/hitch-proto/src/framing.rs: `encode_pty_frame`, `decode_pty_frame`, `PtyFrameDecoder`.
-- `usize` is a natural number here: `LEN_PREFIX_BYTES + len` is at most 2 ^ 32 + 3, since `len` is
-- read from four bytes, and a buffer is bounded by the memory that holds it.
pub mod Rounds
pub mod Chunks
pub mod RoundTrip
pub mod Bounds
use hitch.Prelude.{
  ℕ, ◌+◌, ◌*◌, ◌/◌, ◌%◌, ◌^◌, Bool, Option, none, some, List, [], ◌∷◌, ◌++◌, Bytes, ltb,
  if◌then◌else◌, length, take, drop, Result, ok, err, ◌>>=◌, ◌>>◌,
}
use hitch.Framing.Error.{FrameError, frame_too_large, length_overflow}
use hitch.Framing.Drain.{Round, stop, fail, taken, drain_all}

abbrev pub max_pty_frame_len : ℕ
max_pty_frame_len = 16 * 1024 * 1024

abbrev pub len_prefix_bytes : ℕ
len_prefix_bytes = 4

-- `u32::to_be_bytes`
abbrev pub to_be_bytes : ℕ → Bytes
to_be_bytes n = (n / 2 ^ 24 % 256) ∷ (n / 2 ^ 16 % 256) ∷ (n / 2 ^ 8 % 256) ∷ (n % 256) ∷ []

-- `u32::from_be_bytes`
abbrev pub from_be_bytes : ℕ → ℕ → ℕ → ℕ → ℕ
from_be_bytes a b c d = a * 2 ^ 24 + b * 2 ^ 16 + c * 2 ^ 8 + d

unfoldable pub encode_pty_frame : Bytes → Result FrameError Bytes
encode_pty_frame payload =
    if ltb max_pty_frame_len (length payload)
    then err (frame_too_large (length payload) max_pty_frame_len)
    else if ltb (length payload) (2 ^ 32)
    then ok (to_be_bytes (length payload) ++ payload)
    else err (length_overflow (length payload))

pub record PtyFrameDecoder : Type 0 where
  pub buffer : Bytes
  pub max_frame_len : ℕ

abbrev pub with_max_frame_len : ℕ → PtyFrameDecoder
with_max_frame_len n = record { buffer = []; max_frame_len = n }

abbrev pub new : PtyFrameDecoder
new = with_max_frame_len max_pty_frame_len

abbrev pub buffered_len : PtyFrameDecoder → ℕ
buffered_len d = length d.buffer

-- The four indexed reads are in bounds: `round` reads the length of a buffer of four bytes or more.
unfoldable pub peek_len : Bytes → ℕ
peek_len (a ∷ b ∷ c ∷ d ∷ _) = from_be_bytes a b c d
peek_len _ = 0

-- The body of the loop of `push`.
pub round : ℕ → Bytes → Round FrameError Bytes
unfolding peek_len
round limit buffer =
    if ltb (length buffer) len_prefix_bytes
    then stop
    else if ltb limit (peek_len buffer)
    then fail (frame_too_large (peek_len buffer) limit) buffer
    else if ltb (length buffer) (len_prefix_bytes + peek_len buffer)
    then stop
    else taken (take (peek_len buffer) (drop len_prefix_bytes buffer) ∷ [])
        (drop (peek_len buffer) (drop len_prefix_bytes buffer))

-- What `push` returns, and the decoder that it leaves.
abbrev pub Pushed : Type 0
Pushed = Result FrameError (List Bytes) × PtyFrameDecoder

unfoldable pub push : PtyFrameDecoder → Bytes → Pushed
unfolding round
push d bytes =
    let (result, rest) = drain_all (round d.max_frame_len) (d.buffer ++ bytes) in
    (result, record d { buffer = rest })

first_frame : List Bytes → Bool → Option Bytes
first_frame [] pending = none
first_frame (f ∷ fs) pending = if pending then none else some f

unfoldable pub decode_pty_frame : Bytes → Result FrameError (Option Bytes)
unfolding first_frame
decode_pty_frame bytes =
    let (result, d) = push new bytes in
    do frames ← result; ok (first_frame frames (ltb 0 (buffered_len d)))
