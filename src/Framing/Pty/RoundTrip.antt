-- ===== src/Framing/Pty/RoundTrip.antt =====
-- What `encode_pty_frame` writes, `PtyFrameDecoder` reads back, however the stream is cut.
use hitch.Prelude.{
  ℕ, zero, suc, ◌≤◌, ◌<◌, ◌≡◌, refl, sym, ap, ◌∙◌, ◌⊎◌, inl, inr, some, List, [], ◌∷◌, ◌++◌,
  append-nil, append_assoc, arith, Bytes, ltb, if◌then◌else◌, lt→ltb, ge→ltb, length, length-append,
  take-length-append, drop-length-append, Result, ◌>>=◌, map_ok, >>=-eq-ok, ok-ne-err, ok, err,
}
use hitch.Framing.Pty.{
  PtyFrameDecoder, Pushed, new, max_pty_frame_len, to_be_bytes, encode_pty_frame, peek_len, round,
  push, decode_pty_frame,
}
use hitch.Framing.Pty.Rounds.{taken-round, round-IsIncremental}
use hitch.Framing.Error.{FrameError, frame_too_large}
use hitch.Framing.Drain.{taken, drain}
use mathlib.Core.List.{flatten}
use hitch.Framing.Pty.Chunks.{push-append, in_one_push, IsSettled, push-IsSettled}

-- The bytes on the wire for one accepted payload.
abbrev framed : Bytes → Bytes
framed p = to_be_bytes (length p) ++ p

pub encode_pty_frame_cases :
    (p : Bytes)
    → ((length p ≤ max_pty_frame_len) × (encode_pty_frame p ≡ ok (framed p)))
      ⊎ ((max_pty_frame_len < length p)
          × (encode_pty_frame p ≡ err (frame_too_large (length p) max_pty_frame_len)))
unfolding encode_pty_frame
encode_pty_frame_cases p = ground arith

peek_len-framed :
    (p rest : Bytes) → length p ≤ max_pty_frame_len → peek_len (framed p ++ rest) ≡ length p
unfolding peek_len
peek_len-framed p rest h = omega arith

round-framed :
    (p rest : Bytes)
    → length p ≤ max_pty_frame_len
    → round max_pty_frame_len (framed p ++ rest) ≡ taken (p ∷ []) rest
round-framed p rest h =
    let e = peek_len-framed p rest h in
    taken-round max_pty_frame_len (framed p ++ rest) (record {
      header = rw e (omega (arith, length-append p rest));
      allowed = rw e h;
      payload_is = rw e (ap (λ (q : Bytes). q ∷ []) (sym (take-length-append p rest)));
      rest_is = rw e (sym (drop-length-append p rest));
    })

-- A sender that writes one frame after another.
unfoldable pub encode_all : List Bytes → Result FrameError Bytes
encode_all [] = ok []
encode_all (p ∷ ps) = do f ← encode_pty_frame p; fs ← encode_all ps; ok (f ++ fs)

encode_all-cons :
    (p : Bytes) (ps : List Bytes) {wire : Bytes}
    → encode_all (p ∷ ps) ≡ ok wire
    → (length p ≤ max_pty_frame_len) × (w : Bytes) × (encode_all ps ≡ ok w) × (wire ≡ framed p ++ w)
unfolding encode_all
encode_all-cons p ps e = elim (encode_pty_frame_cases p) [
  | inl (small, f) ↦
      let (w, tail, whole) =
        >>=-eq-ok (encode_all ps) (λ (w : Bytes). ok (framed p ++ w)) (rw f at e) in
      (small, w, tail, cc)
  | inr (large, f) ↦ absurd (ok-ne-err (sym (rw f at e)))
]

drain-encode_all :
    (fuel : ℕ) (ps : List Bytes) (frames : List Bytes) {wire : Bytes}
    → encode_all ps ≡ ok wire
    → length wire < fuel
    → drain (round max_pty_frame_len) fuel wire frames ≡ (ok (frames ++ ps), [])
unfolding drain
drain-encode_all zero ps frames e h = absurd (omega arith)
drain-encode_all (suc fuel) [] frames {wire} e h =
    let w : wire ≡ [] = unfold encode_all in cc in rw (w, append-nil) (unfold round in refl)
drain-encode_all (suc fuel) (p ∷ ps) frames {wire} e h =
    let (small, w, tail, whole) = encode_all-cons p ps e in
    let r = round-framed p w small in
    let long = (round-IsIncremental max_pty_frame_len).shrinks (framed p ++ w) r in
    rw (whole, r, drain)
      (drain-encode_all fuel ps (frames ++ p ∷ []) tail (omega (arith, long, ap length whole))
        ∙ ap (λ (fs : List Bytes). (ok fs, [])) (append_assoc frames (p ∷ []) ps))

-- One `push` of everything that a sender wrote gives its payloads, in order, and leaves nothing.
pub push-encode_all :
    (ps : List Bytes) {wire : Bytes} → encode_all ps ≡ ok wire → push new wire ≡ (ok ps, new)
unfolding push
push-encode_all ps {wire} e =
    ap (λ (s : Result FrameError (List Bytes) × Bytes). (s.0, record new { buffer = s.1 }))
      (drain-encode_all (suc (length wire)) ps [] e (omega arith))

-- A receiver that hands each read of the socket to `push`, and collects the frames.
unfoldable pub collect : List Bytes → PtyFrameDecoder → List Bytes → Pushed
collect frames d [] = (ok frames, d)
collect frames d (read ∷ reads) = elim (push d read).0 [
  | ok more ↦ collect (frames ++ more) (push d read).1 reads
  | err e ↦ (err e, (push d read).1)
]

prepended-ok :
    (first : List Bytes) (q : Pushed) {all : List Bytes} {d' : PtyFrameDecoder}
    → ◌≡◌ {A = Pushed} (map_ok (◌++◌ first) q.0, q.1) (ok all, d')
    → (f later : List Bytes) × (◌≡◌ {A = Result FrameError (List Bytes)} (ok first) (ok f))
      × (q ≡ (ok later, d'))
      × (all ≡ f ++ later)
prepended-ok first (ok later, d) e = (first, later, refl, cc, cc)
prepended-ok first (err x, d) e = absurd (ok-ne-err (sym (ap (λ (r : Pushed). r.0) e)))

-- What the first read gave, taken apart together with what the later reads give.
in_one_push-ok :
    (p : Pushed) (more : Bytes) {all : List Bytes} {d' : PtyFrameDecoder}
    → in_one_push p more ≡ (ok all, d')
    → (first later : List Bytes) × (p.0 ≡ ok first)
      × (push p.1 more ≡ (ok later, d'))
      × (all ≡ first ++ later)
in_one_push-ok (ok first, d) more e = prepended-ok first (push d more) e
in_one_push-ok (err x, d) more e = cc

collect-push :
    (frames : List Bytes) (d : PtyFrameDecoder) (reads : List Bytes) {all : List Bytes}
    {d' : PtyFrameDecoder}
    → IsSettled d
    → push d (flatten reads) ≡ (ok all, d')
    → collect frames d reads ≡ (ok (frames ++ all), d')
unfolding collect flatten
collect-push frames d [] {all} {d'} s e =
    let e' = sym s ∙ e in
    let none_more : [] ≡ all = cc in
    rw (← none_more, append-nil) (ap (λ (q : Pushed). (ok frames, q.1)) e')
collect-push frames d (read ∷ reads) {all} {d'} s e =
    let (first, later, now, then_, whole) =
      in_one_push-ok (push d read) (flatten reads) (sym (push-append d read (flatten reads)) ∙ e) in
    rw (now, collect, whole, ← append_assoc frames first later)
      (collect-push (frames ++ first) (push d read).1 reads (push-IsSettled d read now) then_)

pub IsSettled-new : IsSettled new
unfolding push drain round
IsSettled-new = refl

-- The payloads that a sender frames one after another reach the receiver whole and in order, and
-- leave an empty buffer, however the socket cuts the byte stream into reads.
pub collect-encode_all :
    (ps reads : List Bytes)
    → encode_all ps ≡ ok (flatten reads)
    → collect [] new reads ≡ (ok ps, new)
collect-encode_all ps reads e = collect-push [] new reads IsSettled-new (push-encode_all ps e)

decoded : (f p : Bytes) → push new f ≡ (ok (p ∷ []), new) → decode_pty_frame f ≡ ok (some p)
unfolding decode_pty_frame
decoded f p h = rw h

-- A payload of at most 16 MiB is read back by `decode_pty_frame` from what `encode_pty_frame`
-- returns for it; a longer one is refused by the encoder.
pub decode-encode_pty_frame :
    (p : Bytes)
    → (encode_pty_frame p >>= decode_pty_frame) ≡ (
        if ltb max_pty_frame_len (length p)
        then err (frame_too_large (length p) max_pty_frame_len)
        else ok (some p))
decode-encode_pty_frame p = elim (encode_pty_frame_cases p) [
  | inl (small, e) ↦
      let one : encode_all (p ∷ []) ≡ ok (framed p) = unfold encode_all in rw e (rw append-nil) in
      rw (e, ge→ltb _ _ small) (decoded (framed p) p (push-encode_all (p ∷ []) one))
  | inr (large, e) ↦ rw (e, lt→ltb _ _ large)
]
