-- ===== src/Terminal/Scrollback/Latest.antt =====
-- The ring holds the latest bytes of all that was appended, as many as its capacity allows.
use hitch.Prelude.{
  ℕ, ◌+◌, ◌-◌, ◌≤◌, ◌≡◌, refl, sym, ap, ◌∙◌, inl, inr, List, [], ◌∷◌, ◌++◌, append-nil,
  append_assoc, arith, Bytes, leb, ◌==◌, Bool-cases, length, drop, length-append, length-drop,
  drop-append_le, drop_all, drop-append_ge, drop-drop,
}
use mathlib.Core.List.{foldl, flatten}
use hitch.Terminal.Scrollback.{ScrollbackBuffer, new, append, snapshot}

-- The last `n` bytes, or all of them where there are fewer.
abbrev pub latest : ℕ → Bytes → Bytes
latest n xs = drop (length xs - n) xs

pub length-latest : (n : ℕ) (xs : Bytes) → length (latest n xs) ≤ n
length-latest n xs = omega (arith, length-drop (length xs - n) xs)

pub latest_all : (n : ℕ) (xs : Bytes) → length xs ≤ n → latest n xs ≡ xs
latest_all n xs h = let e : length xs - n ≡ 0 = omega arith in rw e

-- Bytes that were dropped stay out of the window, whatever comes behind.
pub latest-latest-append :
    (n : ℕ) (xs ys : Bytes) → latest n (latest n xs ++ ys) ≡ latest n (xs ++ ys)
latest-latest-append n xs ys =
    let k = length xs - n in
    let cut = sym (drop-append_le k xs ys (omega arith)) in
    let size = length-append (drop k xs) ys in
    let sum : k + (length (drop k xs ++ ys) - n) ≡ length (xs ++ ys) - n =
      omega (arith, size, length-drop k xs, length-append xs ys) in
    ap (drop (length (drop k xs ++ ys) - n)) cut
    ∙ drop-drop (length (drop k xs ++ ys) - n) k (xs ++ ys)
    ∙ ap (λ (m : ℕ). drop m (xs ++ ys)) sum

module _ (n : ℕ) (xs chunk : Bytes) where
  -- A chunk that fills the window leaves nothing of what stood before it.
  latest_large : n ≤ length chunk → latest n (xs ++ chunk) ≡ drop (length chunk - n) chunk
  latest_large h =
      let size = length-append xs chunk in
      let cut : length (xs ++ chunk) - n - length xs ≡ length chunk - n = omega (arith, size) in
      drop-append_ge (length (xs ++ chunk) - n) xs chunk (omega (arith, size))
      ∙ ap (λ (k : ℕ). drop k chunk) cut

  latest_small :
      length chunk ≤ n → latest n (xs ++ chunk) ≡ drop (length xs + length chunk - n) xs ++ chunk
  latest_small h =
      rw (length-append xs chunk)
        (drop-append_le (length xs + length chunk - n) xs chunk (omega arith))

nil_of_length : (xs : Bytes) → length xs ≤ 0 → xs ≡ []
nil_of_length [] h = refl
nil_of_length (x ∷ xs) h = absurd (omega arith)

pub append-latest :
    (b : ScrollbackBuffer) (chunk : Bytes)
    → length b.bytes ≤ b.capacity
    → append b chunk ≡ record b { bytes = latest b.capacity (b.bytes ++ chunk) }
unfolding append
append-latest b [] h =
    let same = ap (latest b.capacity) (append-nil b.bytes) ∙ latest_all b.capacity b.bytes h in
    ground (arith, same)
append-latest b (c ∷ cs) h =
    let large = latest_large b.capacity b.bytes (c ∷ cs) in
    let small = latest_small b.capacity b.bytes (c ∷ cs) in
    let none_kept = drop_all (length (b.bytes ++ c ∷ cs) - b.capacity) (b.bytes ++ c ∷ cs) in
    elim (Bool-cases (b.capacity == 0)) [
      | inl zero_kept ↦ rw zero_kept (
          ap (λ (r : Bytes). record b { bytes = r })
            (nil_of_length b.bytes (ground arith) ∙ sym (none_kept (ground arith))))
      | inr some_kept ↦ elim (Bool-cases (leb b.capacity (length (c ∷ cs)))) [
        | inl full ↦
            rw (some_kept, full)
              (ap (λ (r : Bytes). record b { bytes = r }) (sym (large (ground arith))))
        | inr room ↦
            rw (some_kept, room)
              (ap (λ (r : Bytes). record b { bytes = r }) (sym (small (ground arith))))
      ]
    ]

foldl-append :
    (b : ScrollbackBuffer) (chunks : List Bytes)
    → length b.bytes ≤ b.capacity
    → foldl append b chunks ≡ record b { bytes = latest b.capacity (b.bytes ++ flatten chunks) }
unfolding flatten
foldl-append b [] h =
    ap (λ (r : Bytes). record b { bytes = r })
      (sym (ap (latest b.capacity) (append-nil b.bytes) ∙ latest_all b.capacity b.bytes h))
foldl-append b (chunk ∷ chunks) h =
    let kept = latest b.capacity (b.bytes ++ chunk) in
    rw (append-latest b chunk h) (
      foldl-append (record b { bytes = kept }) chunks (length-latest b.capacity (b.bytes ++ chunk))
      ∙ ap (λ (r : Bytes). record b { bytes = r })
          (latest-latest-append b.capacity (b.bytes ++ chunk) (flatten chunks)
            ∙ ap (latest b.capacity) (append_assoc b.bytes chunk (flatten chunks))))

-- After any appends to a new ring, its snapshot is the latest `capacity` bytes of all that was
-- appended, or all of them where there are fewer, in order; so it never exceeds the capacity.
pub snapshot-append :
    (capacity : ℕ) (chunks : List Bytes)
    → (snapshot (foldl append (new capacity) chunks) ≡ latest capacity (flatten chunks))
      × (length (snapshot (foldl append (new capacity) chunks)) ≤ capacity)
snapshot-append capacity chunks =
    let e = ap snapshot (foldl-append (new capacity) chunks (omega arith)) in
    (e, rw e (length-latest capacity (flatten chunks)))
