-- ===== src/Framing/Pty/Rounds.antt =====
-- One round of the payload decoder's loop, on a buffer and with more bytes behind it.
use hitch.Prelude.{
  ℕ, ◌+◌, ◌≤◌, ◌<◌, ◌≡◌, refl, sym, ap, ◌∙◌, ◌⊎◌, List, [], ◌∷◌, ◌++◌, arith, Bytes, length, take,
  drop, length-append, length-drop, take-append_le, drop-append_le,
}
use hitch.Framing.Error.{FrameError, frame_too_large}
use hitch.Framing.Drain.{stop, fail, taken}
use hitch.Framing.Drain.Laws.{IsIncremental}
use hitch.Framing.Pty.{peek_len, round}

peek_len-append : (b more : Bytes) → 4 ≤ length b → peek_len (b ++ more) ≡ peek_len b
unfolding peek_len
peek_len-append (x ∷ y ∷ z ∷ w ∷ b) more h = refl
peek_len-append [] more h = absurd (omega arith)
peek_len-append (x ∷ []) more h = absurd (omega arith)
peek_len-append (x ∷ y ∷ []) more h = absurd (omega arith)
peek_len-append (x ∷ y ∷ z ∷ []) more h = absurd (omega arith)

-- A whole frame that is allowed stands at the front of the buffer.
pub record Taken (limit : ℕ) (buffer : Bytes) (frames : List Bytes) (rest : Bytes) : Type 0 where
  pub header : 4 + peek_len buffer ≤ length buffer
  pub allowed : peek_len buffer ≤ limit
  pub payload_is : frames ≡ take (peek_len buffer) (drop 4 buffer) ∷ []
  pub rest_is : rest ≡ drop (peek_len buffer) (drop 4 buffer)

module _ (limit : ℕ) (b : Bytes) where
  round-taken :
      {frames : List Bytes} {rest : Bytes}
      → round limit b ≡ taken frames rest
      → Taken limit b frames rest
  unfolding round
  round-taken h = record {
    header = ground arith;
    allowed = ground arith;
    payload_is = ground arith;
    rest_is = ground arith;
  }

  pub taken-round :
      {frames : List Bytes} {rest : Bytes}
      → Taken limit b frames rest
      → round limit b ≡ taken frames rest
  unfolding round
  taken-round t = ground arith

  round-fail :
      {e : FrameError} {rest : Bytes}
      → round limit b ≡ fail e rest
      → (4 ≤ length b)
        × (limit < peek_len b)
        × (e ≡ frame_too_large (peek_len b) limit)
        × (rest ≡ b)
  unfolding round
  round-fail h = (ground arith, ground arith, ground arith, ground arith)

  pub fail-round :
      4 ≤ length b
      → limit < peek_len b
      → round limit b ≡ fail (frame_too_large (peek_len b) limit) b
  unfolding round
  fail-round h k = ground arith

  -- The loop stops at a buffer that holds neither a whole frame nor a header that is refused.
  pub round-stop :
      round limit b ≡ stop → (length b < 4) ⊎ ((peek_len b ≤ limit) × (length b < 4 + peek_len b))
  unfolding round
  round-stop h = ground arith

round_shrinks :
    (limit : ℕ) (b : Bytes) {frames : List Bytes} {rest : Bytes}
    → round limit b ≡ taken frames rest
    → length rest < length b
round_shrinks limit b h =
    let t = round-taken limit b h in
    let rest_is = ap length t.rest_is in
    omega (arith, rest_is, length-drop (peek_len b) (drop 4 b), length-drop 4 b)

Taken-append :
    (limit : ℕ) (b more : Bytes) {frames : List Bytes} {rest : Bytes}
    → Taken limit b frames rest
    → Taken limit (b ++ more) frames (rest ++ more)
Taken-append limit b more t =
    let n = peek_len b in
    let e = peek_len-append b more (omega (arith, t.header)) in
    let d = drop-append_le 4 b more (omega (arith, t.header)) in
    let fits : n ≤ length (drop 4 b) = omega (arith, t.header, length-drop 4 b) in
    record {
      header = rw e (omega (arith, t.header, length-append b more));
      allowed = rw e t.allowed;
      payload_is =
          rw (e, d)
            (t.payload_is
              ∙ ap (λ (p : Bytes). p ∷ []) (sym (take-append_le n (drop 4 b) more fits)));
      rest_is =
          rw (e, d)
            (ap (λ (r : Bytes). r ++ more) t.rest_is ∙ sym (drop-append_le n (drop 4 b) more fits));
    }

round_fail-append :
    (limit : ℕ) (b more : Bytes) {e : FrameError} {rest : Bytes}
    → round limit b ≡ fail e rest
    → round limit (b ++ more) ≡ fail e (rest ++ more)
round_fail-append limit b more h =
    let (long, over, e_is, rest_is) = round-fail limit b h in
    let e = peek_len-append b more long in
    let again : round limit (b ++ more) ≡ fail (frame_too_large (peek_len b) limit) (b ++ more) =
      rw e at (fail-round limit (b ++ more) (omega (arith, length-append b more)) (rw e over)) in
    rw (again, e_is, rest_is)

pub round-IsIncremental : (limit : ℕ) → IsIncremental (round limit)
round-IsIncremental limit = record {
  shrinks = λ b h. round_shrinks limit b h;
  taken_append =
      λ b more h. taken-round limit (b ++ more) (Taken-append limit b more (round-taken limit b h));
  fail_append = λ b more h. round_fail-append limit b more h;
}
