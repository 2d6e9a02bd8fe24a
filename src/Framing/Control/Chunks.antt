-- ===== src/Framing/Control/Chunks.antt =====
-- `ControlLineDecoder::push`: reads, the cap on a partial line, and what stays buffered.
use hitch.Prelude.{
  ◌≤◌, ◌≡◌, refl, sym, ap, ◌∙◌, inl, inr, none, List, [], ◌∷◌, ◌++◌, append_assoc, arith, Bytes,
  ltb, Bool-cases, Option-cases, length, Result, map_ok, ok-ne-err, ok-injective, ok, err,
}
use hitch.Framing.Drain.{stop, drain_all}
use hitch.Framing.Drain.Laws.{drain_all-append, drain_all_stops, go_on}
use hitch.Framing.Control.{
  ControlLineDecoder, Pushed, round, capped, push, max_control_line_len, split_line, String,
  FrameError, parsed_line,
}
use hitch.Framing.Control.Lines.{round-IsIncremental}

module _ {M : Type 0} (from_slice : Bytes → Result String M) where
  -- What one `push` of two reads answers, by what two answer: where the second read fails, its
  -- error alone. The messages of the first read, which two calls deliver, are lost with it.
  abbrev pub behind : List M → Pushed from_slice → Pushed from_slice
  behind messages (answer, d) = (map_ok (◌++◌ messages) answer, d)

  capped-ok :
      (s : Result FrameError (List M) × Bytes) {messages : List M}
      → (capped from_slice s).0 ≡ ok messages
      → (s.0 ≡ ok messages)
        × (length s.1 ≤ max_control_line_len)
        × (capped from_slice s ≡ (ok messages, record { buffer = s.1 }))
  capped-ok (ok ms, rest) h = (ground arith, ground arith, ground arith)
  capped-ok (err e, rest) h = absurd (ok-ne-err (sym h))

  capped-prepend :
      (before : List M) (s : Result FrameError (List M) × Bytes)
      → capped from_slice (map_ok (◌++◌ before) s.0, s.1)
        ≡ (map_ok (◌++◌ before) (capped from_slice s).0, (capped from_slice s).1)
  capped-prepend before (ok ms, rest) = elim (Bool-cases (ltb max_control_line_len (length rest))) [
    | inl over ↦ rw over
    | inr fits ↦ rw fits
  ]
  capped-prepend before (err e, rest) = refl

  parsed_line-ne-stop : (l r : Bytes) → ¬ (parsed_line from_slice l r ≡ stop)
  unfolding parsed_line
  parsed_line-ne-stop [] r h = cc
  parsed_line-ne-stop (c ∷ cs) r h = ground arith

  capped-go_on :
      (s : Result FrameError (List M) × Bytes) (more : Bytes) {messages : List M}
      → (capped from_slice s).0 ≡ ok messages
      → capped from_slice (go_on (round from_slice) (round-IsIncremental from_slice) more s)
        ≡ behind messages (push from_slice (capped from_slice s).1 more)
  unfolding push
  capped-go_on (ok ms, rest) more h =
      let (same, fits, whole) = capped-ok (ok ms, rest) h in
      rw (whole, ← ok-injective same)
        (capped-prepend ms (drain_all (round from_slice) (rest ++ more)))
  capped-go_on (err e, rest) more h = absurd (ok-ne-err (sym h))

  -- Where a first `push` succeeds with some messages: if a second one succeeds, one `push` of both
  -- reads gives the messages of both in order, and if it fails, one `push` gives its error, and none
  -- of the messages that the two calls have from the first; the buffer is the second call's.
  pub push_lines-append :
      (d : ControlLineDecoder) (first second : Bytes) {messages : List M}
      → (push from_slice d first).0 ≡ ok messages
      → push from_slice d (first ++ second)
        ≡ behind messages (push from_slice (push from_slice d first).1 second)
  unfolding push
  push_lines-append d first second h =
      let b = d.buffer ++ first in
      let again = drain_all-append (round from_slice) (round-IsIncremental from_slice) b second in
      rw (← append_assoc d.buffer first second)
        (ap (capped from_slice) again ∙ capped-go_on (drain_all (round from_slice) b) second h)

  round-stop : (b : Bytes) → round from_slice b ≡ stop → split_line b ≡ none
  unfolding round
  round-stop b h = elim (Option-cases (split_line b)) [
    | inl e ↦ e
    | inr ((l, r), e) ↦ absurd (parsed_line-ne-stop l r (rw (e, round) at h))
  ]

  -- After a `push` that succeeds the buffer holds no newline, and at most 512 KiB.
  pub buffer-push-le :
      (d : ControlLineDecoder) (bytes : Bytes) {messages : List M}
      → (push from_slice d bytes).0 ≡ ok messages
      → (length (push from_slice d bytes).1.buffer ≤ max_control_line_len)
        × (split_line (push from_slice d bytes).1.buffer ≡ none)
  unfolding push
  buffer-push-le d bytes h =
      let b = d.buffer ++ bytes in
      let (drained, fits, whole) = capped-ok (drain_all (round from_slice) b) h in
      let left = ap (λ (p : Pushed from_slice). p.1.buffer) whole in
      rw left (
        fits,
        round-stop _
            (drain_all_stops (round from_slice) (round-IsIncremental from_slice) b drained),
      )
