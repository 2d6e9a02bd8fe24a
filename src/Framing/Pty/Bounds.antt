-- ===== src/Framing/Pty/Bounds.antt =====
-- What a peer can make the decoder buffer, and when it is cut off.
use hitch.Prelude.{◌+◌, ◌≤◌, ◌<◌, ◌≡◌, inl, inr, List, ◌++◌, arith, Bytes, length, ok, err}
use hitch.Framing.Pty.{PtyFrameDecoder, new, max_pty_frame_len, buffered_len, peek_len, push}
use hitch.Framing.Drain.{drain}
use hitch.Framing.Error.{frame_too_large}
use hitch.Framing.Pty.Chunks.{push-append, push_stops}
use hitch.Framing.Pty.Rounds.{round-stop, fail-round}
use hitch.Framing.Pty.RoundTrip.{encode_all, push-encode_all}

-- After a `push` that succeeds the decoder holds less than one frame of the greatest length,
-- whatever the peer sent.
pub buffered_len-push-lt :
    (d : PtyFrameDecoder) (bytes : Bytes) {frames : List Bytes}
    → (push d bytes).0 ≡ ok frames
    → buffered_len (push d bytes).1 < 4 + d.max_frame_len
buffered_len-push-lt d bytes e =
    elim (round-stop d.max_frame_len (push d bytes).1.buffer (push_stops d bytes e)) [
      | inl short ↦ omega (arith, short)
      | inr (allowed, short) ↦ omega (arith, allowed, short)
    ]

push-oversized :
    (bytes : Bytes)
    → 4 ≤ length bytes
    → max_pty_frame_len < peek_len bytes
    → push new bytes
      ≡ (err (frame_too_large (peek_len bytes) max_pty_frame_len), record new { buffer = bytes })
unfolding push drain
push-oversized bytes h k = rw (fail-round max_pty_frame_len bytes h k, drain)

-- Behind any frames that the encoder wrote, a header that announces more than 16 MiB is refused as
-- soon as its four bytes are there, whatever follows it: where all comes in one read, the answer is
-- the error alone, without the frames in front of it, and the buffer holds the header and what
-- follows.
pub push-oversized_header :
    (ps : List Bytes) (wire bytes : Bytes)
    → encode_all ps ≡ ok wire
    → 4 ≤ length bytes
    → max_pty_frame_len < peek_len bytes
    → push new (wire ++ bytes)
      ≡ (err (frame_too_large (peek_len bytes) max_pty_frame_len), record new { buffer = bytes })
push-oversized_header ps wire bytes e h k =
    rw (push-append new wire bytes, push-encode_all ps e, push-oversized bytes h k)
