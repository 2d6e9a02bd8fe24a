-- ===== src/Desktop/Router/Delivery/Lossless.antt =====
-- No byte of a session is lost between its operations.

use hitch.Prelude.{
  ℕ, ◌+◌, ◌≤◌, ◌≡◌, refl, sym, ap, ◌∙◌, inl, inr, Bool, true, false, not, ◌&&◌, Option, none, some,
  List, [], ◌∷◌, ◌++◌, append-nil, append_assoc, arith, Bytes, ◌==◌, if◌then◌else◌, Bool-cases,
  is_some, length, length-append,
}
use hitch.Core.Domain.{SessionId}
use hitch.Terminal.Scrollback.Latest.{latest, latest_all}
use hitch.Desktop.Router
use hitch.Desktop.Router.{RouterOp}
use hitch.Prelude.Text.{unwrap_or}
use hitch.Prelude.Assoc.{get}
use hitch.Desktop.Router.Delivery.Runs.{router_run-Follows}
use hitch.Desktop.Router.Delivery.{
  Line, line_send, line_register, line_prepare, follow, follow_all, told_to, new_line,
}

-- The bytes that the connection brought for a session.
unfoldable pub received : SessionId → List RouterOp → Bytes
received id [] = []
received id (Router.sends takes k payload ∷ ops) =
    let rest = received id ops in if k == id then payload ++ rest else rest
received id (op ∷ ops) = received id ops

-- The session is opened at most once, and its terminal is not taken down.
unfoldable pub is_flowing : SessionId → Bool → List RouterOp → Bool
is_flowing id opened [] = true
is_flowing id opened (Router.prepares k ∷ ops) =
    let again = is_flowing id true ops in
    let rest = is_flowing id opened ops in if k == id then not opened && again else rest
is_flowing id opened (Router.sends takes k payload ∷ ops) = is_flowing id opened ops
is_flowing id opened (Router.registers takes k channel ∷ ops) = is_flowing id opened ops
is_flowing id opened (Router.unregisters k ∷ ops) = not (k == id) && is_flowing id opened ops
is_flowing id opened (Router.closes k ∷ ops) = not (k == id) && is_flowing id opened ops

abbrev pub bytes_of : List (ℕ × Bytes) → Bytes
bytes_of [] = []
bytes_of ((channel, bytes) ∷ told) = bytes ++ bytes_of told

bytes_of-append :
    (told : List (ℕ × Bytes)) (channel : ℕ) (bytes : Bytes)
    → bytes_of (told ++ (channel, bytes) ∷ []) ≡ bytes_of told ++ bytes
bytes_of-append [] channel bytes = append-nil bytes
bytes_of-append ((c, b) ∷ told) channel bytes =
    ap (λ (rest : Bytes). b ++ rest) (bytes_of-append told channel bytes)
    ∙ sym (append_assoc b (bytes_of told) bytes)

-- What was told and what waits.
abbrev all : Line → Bytes
all l = bytes_of l.told ++ l.pending

-- The rest of a line's bytes, and whether a session that has a channel has nothing that waits.
abbrev Settled : Line → Type 0
Settled l = is_some l.channel ≡ true → l.pending ≡ []

send-all :
    (takes : Bool) (payload : Bytes) (found : Option ℕ) (l : Line)
    → l.channel ≡ found
    → Settled l
    → (all (line_send takes payload found l) ≡ all l ++ payload)
      × Settled (line_send takes payload found l)
      × ((line_send takes payload found l).opened ≡ l.opened)
unfolding line_send
send-all takes payload none l e s =
    (sym (append_assoc (bytes_of l.told) l.pending payload), λ h. absurd (cc (e, h)), refl)
send-all true payload (some channel) l e s =
    let nothing : l.pending ≡ [] = s (rw e refl) in
    (simp (bytes_of-append l.told channel payload, nothing, append-nil), s, refl)
send-all false payload (some channel) l e s =
    (sym (append_assoc (bytes_of l.told) l.pending payload), λ h. absurd (cc h), refl)

register-all :
    (takes : Bool) (channel : ℕ) (window : Bytes) (l : Line)
    → window ≡ l.pending
    → (all (line_register takes channel window l) ≡ all l)
      × Settled (line_register takes channel window l)
      × ((line_register takes channel window l).opened ≡ l.opened)
unfolding line_register
register-all takes channel [] l e = (rw (← e) refl, λ h. refl, refl)
register-all true channel (b ∷ bs) l e =
    (rw (bytes_of-append l.told channel (b ∷ bs), append-nil, e) refl, λ h. refl, refl)
register-all false channel (b ∷ bs) l e = (refl, λ h. absurd (cc h), refl)

send-length :
    (takes : Bool) (payload : Bytes) (found : Option ℕ) (l : Line)
    → length (line_send takes payload found l).pending ≤ length l.pending + length payload
unfolding line_send
send-length takes payload none l = omega (arith, length-append l.pending payload)
send-length true payload (some channel) l = omega arith
send-length false payload (some channel) l = omega (arith, length-append l.pending payload)

register-length :
    (takes : Bool) (channel : ℕ) (window : Bytes) (l : Line)
    → length (line_register takes channel window l).pending ≤ length l.pending
unfolding line_register
register-length takes channel [] l = omega arith
register-length true channel (b ∷ bs) l = omega arith
register-length false channel (b ∷ bs) l = omega arith

-- What holds of a line before the operations that are left.
record IsReady (id : SessionId) (ops : List RouterOp) (l : Line) : Type 0 where
  pub settled : Settled l
  pub flowing : is_flowing id l.opened ops ≡ true
  pub fits : length l.pending + length (received id ops) ≤ Router.output_staging_capacity

and-true : (a b : Bool) → (a && b) ≡ true → (a ≡ true) × (b ≡ true)
and-true true b h = (refl, h)
and-true false b h = cc

not-true : (b : Bool) → not b ≡ true → b ≡ false
not-true true h = cc
not-true false h = refl

-- One operation, and then the others.
step-all :
    (id : SessionId) (op : RouterOp) (ops : List RouterOp) (l m : Line) (rest : Bytes)
    → follow id op l ≡ m
    → received id (op ∷ ops) ≡ rest
    → all (follow_all id ops m) ≡ all l ++ rest
    → all (follow_all id (op ∷ ops) l) ≡ all l ++ received id (op ∷ ops)
step-all id op ops l m rest moved came h =
    ap (λ (n : Line). all (follow_all id ops n)) moved
    ∙ h
    ∙ ap (λ (b : Bytes). all l ++ b) (sym came)

follow-all :
    (id : SessionId) (ops : List RouterOp) (l : Line)
    → IsReady id ops l
    → all (follow_all id ops l) ≡ all l ++ received id ops
unfolding follow received is_flowing
follow-all id [] l ready = sym (append-nil (all l))
follow-all id (Router.sends takes k payload ∷ ops) l ready =
    let rest = received id ops in
    elim (Bool-cases (k == id)) [
      | inl same ↦
          let (bytes, settled, opened) = send-all takes payload l.channel l refl ready.settled in
          let next = line_send takes payload l.channel l in
          let room : length l.pending + length (payload ++ rest) ≤ Router.output_staging_capacity =
            rw same at ready.fits in
          step-all id (Router.sends takes k payload) ops l next (payload ++ rest)
            (ap (λ (b : Bool). if b then next else l) same)
            (ap (λ (b : Bool). if b then payload ++ rest else rest) same)
            (follow-all id ops next (record {
              settled = settled;
              flowing = rw opened ready.flowing;
              fits =
                  omega (
                    arith,
                    room,
                    send-length takes payload l.channel l,
                    length-append payload rest,
                  );
            })
              ∙ ap (λ (b : Bytes). b ++ rest) bytes
              ∙ append_assoc (all l) payload rest)
      | inr other ↦
          step-all id (Router.sends takes k payload) ops l l rest
            (ap (λ (b : Bool). if b then line_send takes payload l.channel l else l) other)
            (ap (λ (b : Bool). if b then payload ++ rest else rest) other)
            (follow-all id ops l (record {
              settled = ready.settled;
              flowing = ready.flowing;
              fits = rw other at ready.fits;
            }))
    ]
follow-all id (Router.registers takes k channel ∷ ops) l ready =
    let whole = latest Router.output_staging_capacity l.pending in
    let next = line_register takes channel whole l in
    elim (Bool-cases (k == id)) [
      | inl same ↦
          let (bytes, settled, opened) =
            register-all takes channel whole l
              (latest_all Router.output_staging_capacity l.pending (omega (arith, ready.fits))) in
          step-all id (Router.registers takes k channel) ops l next (received id ops)
            (ap (λ (b : Bool). if b then next else l) same) refl
            (follow-all id ops next (record {
              settled = settled;
              flowing = rw opened ready.flowing;
              fits = omega (arith, ready.fits, register-length takes channel whole l);
            })
              ∙ ap (λ (b : Bytes). b ++ received id ops) bytes)
      | inr other ↦
          step-all id (Router.registers takes k channel) ops l l (received id ops)
            (ap (λ (b : Bool). if b then next else l) other) refl
            (follow-all id ops l
              (record { settled = ready.settled; flowing = ready.flowing; fits = ready.fits }))
    ]
follow-all id (Router.prepares k ∷ ops) l ready = elim (Bool-cases (k == id)) [
  | inl same ↦
      let (first, flowing) =
        and-true (not l.opened) (is_flowing id true ops) (rw same at ready.flowing) in
      step-all id (Router.prepares k) ops l (line_prepare false l) (received id ops)
        (ap (λ (b : Bool). if b then line_prepare l.opened l else l) same
          ∙ ap (λ again. line_prepare again l) (not-true l.opened first))
        refl
        (follow-all id ops (line_prepare false l)
          (record { settled = λ h. absurd (cc h); flowing = flowing; fits = ready.fits }))
  | inr other ↦
      step-all id (Router.prepares k) ops l l (received id ops)
        (ap (λ (b : Bool). if b then line_prepare l.opened l else l) other) refl
        (follow-all id ops l (record {
          settled = ready.settled;
          flowing = rw other at ready.flowing;
          fits = ready.fits;
        }))
]
follow-all id (Router.unregisters k ∷ ops) l ready =
    let (kept, flowing) = and-true (not (k == id)) (is_flowing id l.opened ops) ready.flowing in
    step-all id (Router.unregisters k) ops l l (received id ops)
      (ap (λ (b : Bool). if b then record l { channel = none; pending = [] } else l)
        (not-true (k == id) kept))
      refl
      (follow-all id ops l
        (record { settled = ready.settled; flowing = flowing; fits = ready.fits }))
follow-all id (Router.closes k ∷ ops) l ready =
    let (kept, flowing) = and-true (not (k == id)) (is_flowing id l.opened ops) ready.flowing in
    step-all id (Router.closes k) ops l l (received id ops)
      (ap (λ (b : Bool). if b then record l { channel = none; pending = []; opened = false } else l)
        (not-true (k == id) kept))
      refl
      (follow-all id ops l
        (record { settled = ready.settled; flowing = flowing; fits = ready.fits }))

-- As long as a session is opened at most once and neither closed nor unregistered, and no more bytes
-- came for it than the staging holds, what its channels were told and then what is staged are
-- exactly the bytes that came, in order: failed messages, new channels, the opening and all other
-- sessions lose and double none.
pub router_run-lossless :
    (id : SessionId) (ops : List RouterOp)
    → is_flowing id false ops ≡ true
    → length (received id ops) ≤ Router.output_staging_capacity
    → let r = Router.run ops Router.new in
      bytes_of (told_to id r.sent) ++ unwrap_or [] (get id r.staging) ≡ received id ops
router_run-lossless id ops flowing fits =
    let f = router_run-Follows id ops in
    let l = follow_all id ops new_line in
    let whole =
      follow-all id ops new_line
        (record { settled = λ h. absurd (cc h); flowing = flowing; fits = omega (arith, fits) }) in
    let small : length l.pending ≤ Router.output_staging_capacity =
      omega (arith, length-append (bytes_of l.told) l.pending, ap length whole, fits) in
    rw (f.told, f.staged, latest_all Router.output_staging_capacity l.pending small) whole
