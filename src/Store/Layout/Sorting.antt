-- ===== src/Store/Layout/Sorting.antt =====
-- Ordering the rows loses none and adds none, and reading rows that are well formed succeeds.
use hitch.Prelude.{
  ℕ, ◌≡◌, refl, sym, ap, ◌∙◌, inl, inr, Bool, false, ◌||◌, List, [], ◌∷◌, arith, ◌==◌, Bool-cases,
  All, Result, ok-ne-err, ok-injective, Result-cases, ok,
}
use hitch.Prelude.Assoc.{Assoc, get, contains_key}
use hitch.Store.Rows.{StoreError}
use hitch.Store.Layout.{put_in, order_by, collect}

module _ {A : Type 0} (before : A → A → Bool) (P : A → Type 0) where
  put_in-All : (x : A) (xs : List A) → P x → All P xs → All P (put_in before x xs)
  unfolding put_in
  put_in-All x [] p h = (p, tt)
  put_in-All x (y ∷ ys) p h = elim (Bool-cases (before y x)) [
    | inl later ↦ rw later (h.0, put_in-All x ys p h.1)
    | inr here ↦ rw here (p, h)
  ]

  pub order_by-All : (xs : List A) → All P xs → All P (order_by before xs)
  unfolding order_by
  order_by-All [] h = tt
  order_by-All (x ∷ xs) h = put_in-All x (order_by before xs) h.0 (order_by-All xs h.1)

-- The list has an element that passes the test.
abbrev pub any : {A : Type 0} → (A → Bool) → List A → Bool
any test [] = false
any test (x ∷ xs) = test x || any test xs

module _ {A : Type 0} (before : A → A → Bool) (test : A → Bool) where
  put_in-any : (x : A) (xs : List A) → any test (put_in before x xs) ≡ (test x || any test xs)
  unfolding put_in
  put_in-any x [] = refl
  put_in-any x (y ∷ ys) = ground (arith, put_in-any x ys)

  pub order_by-any : (xs : List A) → any test (order_by before xs) ≡ any test xs
  unfolding order_by
  order_by-any [] = refl
  order_by-any (x ∷ xs) =
      put_in-any x (order_by before xs) ∙ ap (λ b. test x || b) (order_by-any xs)

pub contains_key-any :
    {V : Type 0} (k : ℕ) (m : Assoc V) → contains_key k m ≡ any (λ entry. entry.0 == k) m
unfolding get
contains_key-any k [] = refl
contains_key-any k ((j, v) ∷ m) = ground (arith, contains_key-any k m)

-- Rows that each read as an element with a property read as a list of such elements, and an element
-- that passes a test comes of a row that passes its test.
pub record Collected {A B : Type 0} (f : A → Result StoreError B) (Q : B → Type 0) (xs : List A)
    : Type 0 where
  pub items : List B
  pub read : collect f xs ≡ ok items
  pub each : All Q items

pub collect-Collected :
    {A B : Type 0} (f : A → Result StoreError B) (Q : B → Type 0) (xs : List A)
    → All (λ x. (y : B) × (f x ≡ ok y) × Q y) xs
    → Collected f Q xs
unfolding collect
collect-Collected f Q [] h = record { items = []; read = refl; each = tt }
collect-Collected f Q (x ∷ xs) ((y, here, q), h) =
    let r = collect-Collected f Q xs h in
    record { items = y ∷ r.items; read = rw (here, r.read) refl; each = (q, r.each) }

pub collect-any :
    {A B : Type 0} (f : A → Result StoreError B) (p : A → Bool) (q : B → Bool)
    → ((x : A) (y : B) → f x ≡ ok y → p x ≡ q y)
    → (xs : List A) (items : List B) → collect f xs ≡ ok items
    → any p xs ≡ any q items
unfolding collect
collect-any f p q same [] items e = ap (any q) (ok-injective e)
collect-any f p q same (x ∷ xs) items e = elim (Result-cases (f x)) [
  | inr (bad, failed) ↦ absurd (ok-ne-err (sym (rw failed at e)))
  | inl (y, here) ↦ elim (Result-cases (collect f xs)) [
    | inr (bad, failed) ↦ absurd (ok-ne-err (sym (rw (here, failed) at e)))
    | inl (ys, rest) ↦
        rw (← ok-injective (rw (here, rest) at e), same x y here, collect-any f p q same xs ys rest)
          refl
  ]
]
