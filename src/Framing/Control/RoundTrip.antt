-- ===== src/Framing/Control/RoundTrip.antt =====
-- What `encode_control_message` writes, `ControlLineDecoder` reads back.
use Prim.Native.String.{String}
use hitch.Prelude.{
  ℕ, zero, suc, ◌<◌, ◌≡◌, refl, sym, ap, ◌∙◌, ◌≢◌, inl, inr, false, not, List, [], ◌∷◌, ◌++◌,
  append-nil, append_assoc, arith, Bytes, Bool-cases, length, Result, ◌>>=◌, ok_if, >>=-eq-ok,
  ok-ne-err, ok-injective, ok, err,
}
use hitch.Framing.Error.{FrameError}
use hitch.Framing.Drain.{taken, drain}
use hitch.Framing.Control.{
  round, push, new, contains_newline, split_line, encode_control_message, parsed_line, json_error,
  control_payload_contains_newline,
}
use hitch.Framing.Control.Lines.{split_line-newline, round-IsIncremental}

json_error-eq-ok : {M : Type 0} (r : Result String M) {m : M} → json_error r ≡ ok m → r ≡ ok m
json_error-eq-ok (ok m) h = ground arith
json_error-eq-ok (err e) h = cc

module _ {M : Type 0} (to_vec : M → Result String Bytes) where
  -- An accepted message is one line, with the only newline at its end.
  pub record IsLine (m : M) (line : Bytes) : Type 0 where
    pub text : Bytes
    pub written : to_vec m ≡ ok text
    pub one_line : contains_newline text ≡ false
    pub line_is : line ≡ text ++ b'\n' ∷ []

  encode_control_message-IsLine :
      (m : M) {line : Bytes} → encode_control_message to_vec m ≡ ok line → IsLine m line
  unfolding encode_control_message
  encode_control_message-IsLine m h =
      let (text, e, f) =
        >>=-eq-ok (json_error (to_vec m))
          (λ (t : Bytes).
            ok_if (not (contains_newline t)) (t ++ b'\n' ∷ []) control_payload_contains_newline)
          h in
      let written = json_error-eq-ok (to_vec m) e in
      elim (Bool-cases (contains_newline text)) [
        | inl bad ↦ absurd (ok-ne-err (sym (rw bad at f)))
        | inr good ↦ record {
          text = text;
          written = written;
          one_line = good;
          line_is = sym (ok-injective (rw good at f));
        }
      ]

  unfoldable pub encode_all : List M → Result FrameError Bytes
  encode_all [] = ok []
  encode_all (m ∷ ms) = do l ← encode_control_message to_vec m; ls ← encode_all ms; ok (l ++ ls)

  encode_all-cons :
      (m : M) (ms : List M) {wire : Bytes}
      → encode_all (m ∷ ms) ≡ ok wire
      → (line w : Bytes) × IsLine m line × (encode_all ms ≡ ok w) × (wire ≡ line ++ w)
  unfolding encode_all
  encode_all-cons m ms e =
      let (line, l, f) =
        >>=-eq-ok (encode_control_message to_vec m)
          (λ (l : Bytes). encode_all ms >>= λ (w : Bytes). ok (l ++ w)) e in
      let (w, tail, g) = >>=-eq-ok (encode_all ms) (λ (w : Bytes). ok (line ++ w)) f in
      (line, w, encode_control_message-IsLine m l, tail, sym (ok-injective g))

-- `serde_json` writes no message as an empty text, and parses what it wrote.
module _ {M : Type 0} (to_vec : M → Result String Bytes) (from_slice : Bytes → Result String M)
    (writes_text : (m : M) → to_vec m ≢ ok [])
    (reads_back : (m : M) (text : Bytes) → to_vec m ≡ ok text → from_slice text ≡ ok m) where
  round-IsLine :
      (m : M) (line rest : Bytes)
      → IsLine to_vec m line
      → round from_slice (line ++ rest) ≡ taken (m ∷ []) rest
  unfolding round parsed_line
  round-IsLine m line rest l =
      let found = split_line-newline l.text rest l.one_line in
      rw (l.line_is, append_assoc, found, round) (parsed l.text l.written)
    where
      parsed :
          (text : Bytes)
          → to_vec m ≡ ok text
          → parsed_line from_slice text rest ≡ taken (m ∷ []) rest
      parsed [] w = absurd (writes_text m w)
      parsed (c ∷ cs) w = rw (reads_back m (c ∷ cs) w, parsed_line)

  drain-encode_all :
      (fuel : ℕ) (ms items : List M) {wire : Bytes}
      → encode_all to_vec ms ≡ ok wire
      → length wire < fuel
      → drain (round from_slice) fuel wire items ≡ (ok (items ++ ms), [])
  unfolding drain
  drain-encode_all zero ms items e h = absurd (omega arith)
  drain-encode_all (suc fuel) [] items {wire} e h =
      let w : wire ≡ [] = unfold encode_all in cc in
      rw (w, append-nil) (unfold round split_line in refl)
  drain-encode_all (suc fuel) (m ∷ ms) items {wire} e h =
      let (line, w, l, tail, whole) = encode_all-cons to_vec m ms e in
      let r = round-IsLine m line w l in
      let long = (round-IsIncremental from_slice).shrinks (line ++ w) r in
      rw (whole, r, drain)
        (drain-encode_all fuel ms (items ++ m ∷ []) tail (omega (arith, long, ap length whole))
          ∙ ap (λ (xs : List M). (ok xs, [])) (append_assoc items (m ∷ []) ms))

  -- Everything that a sender wrote, message after message, comes back from one `push` into a new
  -- decoder as the same messages in the same order, with nothing left in the buffer, given that
  -- `serde_json` writes no message as an empty text and parses what it wrote.
  pub push-encode_lines :
      (ms : List M) (wire : Bytes)
      → encode_all to_vec ms ≡ ok wire
      → push from_slice new wire ≡ (ok ms, new)
  unfolding push
  push-encode_lines ms wire e = rw (drain-encode_all (suc (length wire)) ms [] e (omega arith)) refl
