-- ===== src/Framing/Control/Lines.antt =====
-- Splitting at the first newline, and one round of the control decoder's loop.
use Prim.Native.String.{String}
use hitch.Prelude.{
  ◌<◌, ◌≡◌, refl, inl, inr, false, some, List, [], ◌∷◌, ◌++◌, arith, Bytes, ◌==◌, Bool-cases,
  Option-cases, length, Result,
}
use hitch.Framing.Error.{FrameError}
use hitch.Framing.Drain.{fail, taken}
use hitch.Framing.Drain.Laws.{IsIncremental}
use hitch.Framing.Control.{split_line, contains_newline, parsed_line, round}

split_line-append :
    (b more : Bytes) {line rest : Bytes}
    → split_line b ≡ some (line, rest)
    → split_line (b ++ more) ≡ some (line, rest ++ more)
unfolding split_line
split_line-append [] more h = cc
split_line-append (c ∷ cs) more {line} {rest} h = elim (Bool-cases (c == b'\n')) [
  | inl nl ↦ ground (arith, nl)
  | inr other ↦ elim (Option-cases (split_line cs)) [
    | inl e ↦ ground (arith, other, e)
    | inr ((l, r), e) ↦ ground (arith, other, e, split_line-append cs more {line = l} {rest = r} e)
  ]
]

split_line_shrinks :
    (b : Bytes) {line rest : Bytes} → split_line b ≡ some (line, rest) → length rest < length b
unfolding split_line
split_line_shrinks [] h = cc
split_line_shrinks (c ∷ cs) {line} {rest} h = elim (Bool-cases (c == b'\n')) [
  | inl nl ↦ ground (arith, nl)
  | inr other ↦ elim (Option-cases (split_line cs)) [
    | inl e ↦ ground (arith, other, e)
    | inr ((l, r), e) ↦ ground (arith, other, e, split_line_shrinks cs {line = l} {rest = r} e)
  ]
]

-- A line that holds no newline is found whole in front of its newline.
pub split_line-newline :
    (line rest : Bytes)
    → contains_newline line ≡ false
    → split_line (line ++ b'\n' ∷ rest) ≡ some (line, rest)
unfolding split_line contains_newline
split_line-newline [] rest h = refl
split_line-newline (c ∷ cs) rest h = ground (arith, split_line-newline cs rest)

module _ {M : Type 0} (from_slice : Bytes → Result String M) where
  parsed_line-rest :
      (line r : Bytes) {items : List M} {rest : Bytes}
      → parsed_line from_slice line r ≡ taken items rest
      → rest ≡ r
  unfolding parsed_line
  parsed_line-rest [] r h = cc
  parsed_line-rest (c ∷ cs) r h = ground arith

  parsed_line_taken-append :
      (line r more : Bytes) {items : List M} {rest : Bytes}
      → parsed_line from_slice line r ≡ taken items rest
      → parsed_line from_slice line (r ++ more) ≡ taken items (rest ++ more)
  unfolding parsed_line
  parsed_line_taken-append [] r more h = ground arith
  parsed_line_taken-append (c ∷ cs) r more h = ground arith

  parsed_line_fail-append :
      (line r more : Bytes) {e : FrameError} {rest : Bytes}
      → parsed_line from_slice line r ≡ fail e rest
      → parsed_line from_slice line (r ++ more) ≡ fail e (rest ++ more)
  unfolding parsed_line
  parsed_line_fail-append [] r more h = cc
  parsed_line_fail-append (c ∷ cs) r more h = ground arith

  pub round-IsIncremental : IsIncremental (round from_slice)
  unfolding round
  round-IsIncremental = record {
    shrinks = λ b {items} {rest} h. elim (Option-cases (split_line b)) [
      | inl e ↦ ground (arith, e)
      | inr ((l, r), e) ↦
          let whole = parsed_line-rest l r {items = items} {rest = rest} (rw (e, round) at h) in
          rw whole (split_line_shrinks b {line = l} e)
    ];
    taken_append = λ b more {items} {rest} h. elim (Option-cases (split_line b)) [
      | inl e ↦ ground (arith, e)
      | inr ((l, r), e) ↦
          rw (split_line-append b more {line = l} {rest = r} e, round)
            (parsed_line_taken-append l r more (rw (e, round) at h))
    ];
    fail_append = λ b more {e = x} {rest} h. elim (Option-cases (split_line b)) [
      | inl e ↦ ground (arith, e)
      | inr ((l, r), e) ↦
          rw (split_line-append b more {line = l} {rest = r} e, round)
            (parsed_line_fail-append l r more (rw (e, round) at h))
    ];
  }
