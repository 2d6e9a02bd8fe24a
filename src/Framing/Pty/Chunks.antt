-- ===== src/Framing/Pty/Chunks.antt =====
-- `PtyFrameDecoder::push` is independent of how the byte stream is cut into reads.
use hitch.Prelude.{
  ℕ, ◌≡◌, refl, ap, ◌∙◌, List, [], ◌++◌, append-nil, append_assoc, Bytes, Result, map_ok, ok, err,
}
use hitch.Framing.Drain.{stop, drain_all}
use hitch.Framing.Drain.Laws.{drain_all-append, drain_all_stops, drain_all-stop, go_on}
use hitch.Framing.Pty.{PtyFrameDecoder, Pushed, round, push, FrameError}
use hitch.Framing.Pty.Rounds.{round-IsIncremental}

-- What one `push` of two reads answers, by what two answer: where the second read fails, its error
-- alone. The frames of the first read, which two calls deliver, are lost with it.
abbrev behind : List Bytes → Pushed → Pushed
behind frames (answer, d) = (map_ok (◌++◌ frames) answer, d)

abbrev pub in_one_push : Pushed → Bytes → Pushed
in_one_push (ok frames, d) more = behind frames (push d more)
in_one_push (err e, d) more = (err e, record d { buffer = d.buffer ++ more })

go_on-in_one_push :
    (limit : ℕ) (more : Bytes) (s : Result FrameError (List Bytes) × Bytes)
    → (let (r, rest) = go_on (round limit) (round-IsIncremental limit) more s in
        (r, record { buffer = rest; max_frame_len = limit }))
      ≡ in_one_push (s.0, record { buffer = s.1; max_frame_len = limit }) more
unfolding push
go_on-in_one_push limit more (ok fs, rest) = refl
go_on-in_one_push limit more (err x, rest) = refl

-- One `push` of two reads against a `push` of each: where both succeed, one call gives the frames of
-- both in order and leaves the same decoder. Where the second fails, one call gives its error, and
-- none of the frames that two calls have from the first; where the first fails, its error, with the
-- second read behind it in the buffer.
pub push-append :
    (d : PtyFrameDecoder) (first second : Bytes)
    → push d (first ++ second) ≡ in_one_push (push d first) second
unfolding push
push-append d first second =
    let limit = d.max_frame_len in
    let b = d.buffer ++ first in
    let whole = drain_all-append (round limit) (round-IsIncremental limit) b second in
    rw (← append_assoc d.buffer first second) (
      ap
        (λ (s : Result FrameError (List Bytes) × Bytes).
          (s.0, record { buffer = s.1; max_frame_len = limit }))
        whole
      ∙ go_on-in_one_push limit second (drain_all (round limit) b))

pub push_stops :
    (d : PtyFrameDecoder) (bytes : Bytes) {frames : List Bytes}
    → (push d bytes).0 ≡ ok frames
    → round d.max_frame_len (push d bytes).1.buffer ≡ stop
unfolding push
push_stops d bytes e =
    let limit = d.max_frame_len in
    drain_all_stops (round limit) (round-IsIncremental limit) (d.buffer ++ bytes) e

-- A `push` that succeeds leaves no whole frame behind: pushing nothing more gives nothing.
abbrev pub IsSettled : PtyFrameDecoder → Type 0
IsSettled d = push d [] ≡ (ok [], d)

IsSettled-stop : (d : PtyFrameDecoder) → round d.max_frame_len d.buffer ≡ stop → IsSettled d
unfolding push
IsSettled-stop d e =
    let settled = drain_all-stop (round d.max_frame_len) d.buffer e in rw (append-nil, settled)

pub push-IsSettled :
    (d : PtyFrameDecoder) (bytes : Bytes) {frames : List Bytes}
    → (push d bytes).0 ≡ ok frames
    → IsSettled (push d bytes).1
unfolding push
push-IsSettled d bytes e = IsSettled-stop (push d bytes).1 (push_stops d bytes e)
