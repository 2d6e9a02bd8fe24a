-- ===== src/Prelude/Fallible.antt =====
-- `std::result::Result`, with the error type first, and its `?` operator.
use mathlib.Core.Path.{◌≡◌, refl}
use mathlib.Core.Logic.{◌⊎◌, inl, inr}
use mathlib.Core.Bool.{Bool, true, false}

pub data Result {ℓ} (E A : Type ℓ) : Type ℓ where
  ok : A → Result E A
  err : E → Result E A

infixl 5 ◌>>=◌ ◌>>◌
abbrev pub ◌>>=◌ {ℓ} : {E A B : Type ℓ} → Result E A → (A → Result E B) → Result E B
ok a >>= f = f a
err e >>= f = err e

abbrev pub ◌>>◌ {ℓ} : {E A B : Type ℓ} → Result E A → Result E B → Result E B
m >> k = m >>= λ _. k

abbrev pub map_ok {ℓ} : {E A B : Type ℓ} → (A → B) → Result E A → Result E B
map_ok f (ok a) = ok (f a)
map_ok f (err e) = err e

-- `if !test { return Err(e); } Ok(a)`
abbrev pub ok_if {ℓ} : {E A : Type ℓ} → Bool → A → E → Result E A
ok_if true a e = ok a
ok_if false a e = err e

-- A successful chain took a successful first step.
pub >>=-eq-ok {ℓ} :
    {Err X Y : Type ℓ} (step : Result Err X) (next : X → Result Err Y) {out : Y}
    → (step >>= next) ≡ ok out
    → (x : X) × (step ≡ ok x) × (next x ≡ ok out)
>>=-eq-ok (err stopped) next went = cc
>>=-eq-ok (ok x) next went = (x, refl, went)

pub ok-ne-err {ℓ} : {E A : Type ℓ} {a : A} {e : E} → ¬ (ok a ≡ err e)
ok-ne-err h = cc

pub ok-injective {ℓ} : {E A : Type ℓ} {a b : A} → ◌≡◌ {A = Result E A} (ok a) (ok b) → a ≡ b
ok-injective h = cc

pub Result-cases {ℓ} :
    {E A : Type ℓ} (r : Result E A) → ((a : A) × (r ≡ ok a)) ⊎ ((e : E) × (r ≡ err e))
Result-cases (ok a) = inl (a, refl)
Result-cases (err e) = inr (e, refl)
