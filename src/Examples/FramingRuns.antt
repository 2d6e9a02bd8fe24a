-- ===== src/Examples/FramingRuns.antt =====
-- Runs of the codecs of crates/hitch-proto/src/framing.rs and of the ring of crates/hitch-pty/src/lib.rs.
use Prim.Native.String.{String}
use mathlib.Core.List.{flatten, foldl}
use hitch.Prelude.{
  ℕ, ◌≤◌, ◌<◌, ◌≡◌, refl, ◌≢◌, Bool, true, false, List, [], ◌∷◌, ◌++◌, arith, Bytes, ◌==◌,
  if◌then◌else◌, length, Result, ok-injective, ok, err,
}
use hitch.Framing.Drain.{drain}
use hitch.Framing.Pty
use hitch.Framing.Pty.{
  encode_pty_frame, decode_pty_frame, push, max_pty_frame_len, buffered_len, peek_len,
}
use hitch.Framing.Pty.Chunks.{push-append, in_one_push}
use hitch.Framing.Error.{frame_too_large}
use hitch.Framing.Pty.Bounds.{push-oversized_header}
use hitch.Terminal.Scrollback.Latest.{latest, snapshot-append}
use hitch.Framing.Pty.RoundTrip.{encode_all, collect, collect-encode_all}
use hitch.Framing.Control
use hitch.Framing.Control.Chunks
use hitch.Framing.Control.Chunks.{push_lines-append, buffer-push-le}
use hitch.Framing.Control.RoundTrip
use hitch.Framing.Control.RoundTrip.{push-encode_lines}
use hitch.Terminal.Scrollback
use hitch.Terminal.Log.{replay_snapshot, record_stream, replay_snapshot-record_stream, chunks_of}

abbrev two_frames : Bytes
two_frames = 0 ∷ 0 ∷ 0 ∷ 2 ∷ 7 ∷ 8 ∷ 0 ∷ 0 ∷ 0 ∷ 1 ∷ 9 ∷ []

abbrev payloads : List Bytes
payloads = (7 ∷ 8 ∷ []) ∷ (9 ∷ []) ∷ []

abbrev reads : List Bytes
reads = (0 ∷ 0 ∷ []) ∷ (0 ∷ 2 ∷ 7 ∷ []) ∷ (8 ∷ 0 ∷ 0 ∷ 0 ∷ 1 ∷ 9 ∷ []) ∷ []

push-append_example :
    push Pty.new ((0 ∷ 0 ∷ 0 ∷ 1 ∷ []) ++ (9 ∷ 0 ∷ []))
    ≡ in_one_push (push Pty.new (0 ∷ 0 ∷ 0 ∷ 1 ∷ [])) (9 ∷ 0 ∷ [])
push-append_example = push-append Pty.new (0 ∷ 0 ∷ 0 ∷ 1 ∷ []) (9 ∷ 0 ∷ [])

encoded : encode_all payloads ≡ ok (flatten reads)
unfolding encode_all encode_pty_frame flatten
encoded = refl

collect-encode_all_example : collect [] Pty.new reads ≡ (ok payloads, Pty.new)
collect-encode_all_example = collect-encode_all payloads reads encoded

pushed : (push Pty.new two_frames).0 ≡ ok payloads
unfolding push drain
pushed = refl

abbrev oversized : Bytes
oversized = 2 ∷ 0 ∷ 0 ∷ 0 ∷ 5 ∷ []

oversized_len : max_pty_frame_len < peek_len oversized
unfolding peek_len
oversized_len = omega arith

accepted : encode_all payloads ≡ ok two_frames
unfolding encode_all encode_pty_frame
accepted = refl

push-oversized_header_example : push Pty.new (two_frames ++ oversized) ≡ (
  err (frame_too_large (peek_len oversized) max_pty_frame_len),
  record Pty.new { buffer = oversized },
)
push-oversized_header_example =
    push-oversized_header payloads two_frames oversized accepted (omega arith) oversized_len

snapshot-append_example :
    (Scrollback.snapshot (foldl Scrollback.append (Scrollback.new 2) payloads)
      ≡ latest 2 (flatten payloads))
    × (length (Scrollback.snapshot (foldl Scrollback.append (Scrollback.new 2) payloads)) ≤ 2)
snapshot-append_example = snapshot-append 2 payloads

-- Two messages, and a `serde_json` for them.
abbrev to_vec : Bool → Result String Bytes
to_vec true = ok (b'1' ∷ [])
to_vec false = ok (b'0' ∷ [])

abbrev from_slice : Bytes → Result String Bool
from_slice (c ∷ []) =
    if c == b'1' then ok true else if c == b'0' then ok false else err "no message"
from_slice _ = err "no message"

writes_text : (m : Bool) → to_vec m ≢ ok []
writes_text true = λ e. cc
writes_text false = λ e. cc

reads_back : (m : Bool) (text : Bytes) → to_vec m ≡ ok text → from_slice text ≡ ok m
reads_back true text e = rw (← ok-injective e) refl
reads_back false text e = rw (← ok-injective e) refl

abbrev wire : Bytes
wire = b'1' ∷ b'\n' ∷ b'0' ∷ b'\n' ∷ []

lines_encoded : RoundTrip.encode_all to_vec (true ∷ false ∷ []) ≡ ok wire
unfolding RoundTrip.encode_all Control.encode_control_message Control.contains_newline
lines_encoded = refl

push-encode_lines_example :
    Control.push from_slice Control.new wire ≡ (ok (true ∷ false ∷ []), Control.new)
push-encode_lines_example =
    push-encode_lines to_vec from_slice writes_text reads_back (true ∷ false ∷ []) wire
      lines_encoded

first_lines : (Control.push from_slice Control.new (b'1' ∷ b'\n' ∷ b'0' ∷ [])).0 ≡ ok (true ∷ [])
unfolding Control.push Control.round Control.split_line Control.parsed_line drain
first_lines = refl

push_lines-append_example :
    Control.push from_slice Control.new ((b'1' ∷ b'\n' ∷ b'0' ∷ []) ++ (b'\n' ∷ []))
    ≡ Chunks.behind from_slice (true ∷ []) (
        Control.push from_slice
          (Control.push from_slice Control.new (b'1' ∷ b'\n' ∷ b'0' ∷ [])).1
          (b'\n' ∷ []))
push_lines-append_example =
    push_lines-append from_slice Control.new (b'1' ∷ b'\n' ∷ b'0' ∷ []) (b'\n' ∷ []) first_lines

abbrev two_sessions : List (ℕ × Bytes)
two_sessions = (1, 5 ∷ []) ∷ (2, 6 ∷ []) ∷ (1, 7 ∷ []) ∷ []

replay_snapshot-record_stream_example :
    replay_snapshot 1 (4 ∷ []) (record_stream two_sessions [])
    ≡ (4 ∷ [])
      ++ Scrollback.snapshot (
          foldl Scrollback.append
            (Scrollback.new Scrollback.default_scrollback_capacity)
            (chunks_of 1 two_sessions))
replay_snapshot-record_stream_example = replay_snapshot-record_stream 1 (4 ∷ []) two_sessions
