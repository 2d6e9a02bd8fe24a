-- ===== src/Framing/Drain/Laws.antt =====
-- The loop does not see how its bytes arrived, given what a round does with more bytes behind.
use hitch.Prelude.{
  ℕ, zero, suc, ◌<◌, ◌≡◌, refl, ◌∙◌, ◌⊎◌, inl, inr, List, [], ◌++◌, append-nil, append_assoc, arith,
  Bytes, length, length-append, Result, map_ok, ok, err,
}
use hitch.Framing.Drain.{Round, stop, fail, taken, drain, drain_all}

-- A round that took or refused something would do the same with more bytes behind the buffer.
pub record IsIncremental {E A : Type 0} (round : Bytes → Round E A) : Type 0 where
  pub shrinks :
      (b : Bytes) {items : List A} {rest : Bytes}
      → round b ≡ taken items rest
      → length rest < length b
  pub taken_append :
      (b more : Bytes) {items : List A} {rest : Bytes}
      → round b ≡ taken items rest
      → round (b ++ more) ≡ taken items (rest ++ more)
  pub fail_append :
      (b more : Bytes) {e : E} {rest : Bytes}
      → round b ≡ fail e rest
      → round (b ++ more) ≡ fail e (rest ++ more)

Round-cases :
    {E A : Type 0} (r : Round E A)
    → (r ≡ stop)
      ⊎ (((e : E) × (rest : Bytes) × (r ≡ fail e rest))
          ⊎ ((items : List A) × (rest : Bytes) × (r ≡ taken items rest)))
Round-cases stop = inl refl
Round-cases (fail e rest) = inr (inl (e, rest, refl))
Round-cases (taken items rest) = inr (inr (items, rest, refl))

module _ {E A : Type 0} (round : Bytes → Round E A) where
  -- The items taken earlier stand in front.
  abbrev pub prepend : List A → Result E (List A) × Bytes → Result E (List A) × Bytes
  prepend items (r, rest) = (map_ok (◌++◌ items) r, rest)

  drain-prepend :
      (f : ℕ) (b : Bytes) (before items : List A)
      → drain round f b (before ++ items) ≡ prepend before (drain round f b items)
  unfolding drain
  drain-prepend zero b before items = refl
  drain-prepend (suc f) b before items = elim (Round-cases (round b)) [
    | inl e ↦ rw (e, drain)
    | inr (inl (x, q, e)) ↦ rw (e, drain)
    | inr (inr (p, q, e)) ↦ rw (e, drain) (rw append_assoc (drain-prepend f q before (items ++ p)))
  ]

  module _ (law : IsIncremental round) where
    -- Any fuel above the length of the buffer gives the same result.
    drain_fuel :
        (f g : ℕ) (b : Bytes) (items : List A)
        → length b < f
        → length b < g
        → drain round f b items ≡ drain round g b items
    unfolding drain
    drain_fuel zero g b items h k = absurd (omega arith)
    drain_fuel (suc f) zero b items h k = absurd (omega arith)
    drain_fuel (suc f) (suc g) b items h k = elim (Round-cases (round b)) [
      | inl e ↦ rw (e, drain)
      | inr (inl (x, q, e)) ↦ rw (e, drain)
      | inr (inr (p, q, e)) ↦
          let s = law.shrinks b e in
          rw (e, drain) (drain_fuel f g q (items ++ p) (omega (arith, s)) (omega (arith, s)))
    ]

    -- After a success the loop has taken all that is complete.
    drain_stops :
        (f : ℕ) (b : Bytes) (items : List A) {all : List A} {rest : Bytes}
        → length b < f
        → drain round f b items ≡ (ok all, rest)
        → round rest ≡ stop
    unfolding drain
    drain_stops zero b items h e = absurd (omega arith)
    drain_stops (suc f) b items h e = elim (Round-cases (round b)) [
      | inl s ↦ ground (arith, s)
      | inr (inl (x, q, s)) ↦ ground (arith, s)
      | inr (inr (p, q, s)) ↦
          drain_stops f q (items ++ p) (omega (arith, law.shrinks b s)) (rw (s, drain) at e)
    ]

    -- Going on with more bytes from where the loop stopped.
    abbrev resume : Bytes → Result E (List A) × Bytes → Result E (List A) × Bytes
    resume more (ok items, rest) = drain round (suc (length (rest ++ more))) (rest ++ more) items
    resume more (err e, rest) = (err e, rest ++ more)

    drain-resume :
        (f : ℕ) (b more : Bytes) (items : List A)
        → length b < f
        → drain round (suc (length (b ++ more))) (b ++ more) items
          ≡ resume more (drain round f b items)
    unfolding drain
    drain-resume zero b more items h = absurd (omega arith)
    drain-resume (suc f) b more items h = elim (Round-cases (round b)) [
      | inl e ↦ rw (e, drain)
      | inr (inl (x, q, e)) ↦ rw (e, law.fail_append b more e, drain)
      | inr (inr (p, q, e)) ↦
          let s = law.shrinks b e in
          rw (e, law.taken_append b more e, drain)
            (drain_fuel (length (b ++ more)) (suc (length (q ++ more))) (q ++ more) (items ++ p)
                (omega (arith, s, length-append b more, length-append q more)) (omega arith)
              ∙ drain-resume f q more (items ++ p) (omega (arith, s)))
    ]

    -- The loop over two reads together, from the loop over the first: the same items in the same
    -- order, or the same error.
    abbrev pub go_on : Bytes → Result E (List A) × Bytes → Result E (List A) × Bytes
    go_on more (ok items, rest) = prepend items (drain_all round (rest ++ more))
    go_on more (err e, rest) = (err e, rest ++ more)

    go_on_lem : (more : Bytes) (s : Result E (List A) × Bytes) → resume more s ≡ go_on more s
    go_on_lem more (ok items, rest) =
        rw append-nil at (drain-prepend (suc (length (rest ++ more))) (rest ++ more) items [])
    go_on_lem more (err e, rest) = refl

    pub drain_all-append :
        (b more : Bytes) → drain_all round (b ++ more) ≡ go_on more (drain_all round b)
    drain_all-append b more =
        drain-resume (suc (length b)) b more [] (omega arith) ∙ go_on_lem more (drain_all round b)

    pub drain_all_stops :
        (b : Bytes) {items : List A}
        → (drain_all round b).0 ≡ ok items
        → round (drain_all round b).1 ≡ stop
    drain_all_stops b {items} e =
        let s = drain_all round b in
        drain_stops (suc (length b)) b [] {all = items} {rest = s.1} (omega arith) (λ i. (e i, s.1))

  pub drain_all-stop : (b : Bytes) → round b ≡ stop → drain_all round b ≡ (ok [], b)
  unfolding drain
  drain_all-stop b e = rw (e, drain)
