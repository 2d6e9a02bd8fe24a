-- ===== src/Prelude/Assoc.antt =====
-- `HashMap` with keys that are numbers, as an association list with one entry for each key.
-- Rust leaves the order of iteration open; here it is the order of insertion.
use Prim.Native.Nat.{ℕ}
use mathlib.Core.Path.{◌≡◌}
use mathlib.Core.Logic.{inl, inr}
use hitch.Prelude.Lists.{All}
use mathlib.Core.Bool.{Bool, true, false}
use mathlib.Core.Option.{Option, none, some}
use mathlib.Core.List.{List, [], ◌∷◌}
use native.Mathlib.Omega.{arith}
use hitch.Prelude.Tests.{◌==◌, if◌then◌else◌, is_some, Bool-cases}

abbrev pub Assoc {ℓ} : Type ℓ → Type ℓ
Assoc V = List (ℕ × V)

module _ {ℓ} {V : Type ℓ} where
  unfoldable pub get : ℕ → Assoc V → Option V
  get k [] = none
  get k ((j, v) ∷ m) = if j == k then some v else get k m

  unfoldable pub insert : ℕ → V → Assoc V → Assoc V
  insert key value [] = (key, value) ∷ []
  insert key value (entry ∷ m) =
      let kept = entry ∷ insert key value m in if entry.0 == key then (key, value) ∷ m else kept

  unfoldable pub remove : ℕ → Assoc V → Assoc V
  remove k [] = []
  remove k ((j, v) ∷ m) = let rest = remove k m in if j == k then rest else (j, v) ∷ rest

  abbrev pub contains_key : ℕ → Assoc V → Bool
  contains_key k m = is_some (get k m)

  pub get-insert :
      (k j : ℕ) (v : V) (m : Assoc V) → get j (insert k v m) ≡ (if k == j then some v else get j m)
  unfolding get insert
  get-insert k j v [] = ground arith
  get-insert k j v ((i, w) ∷ m) = ground (arith, get-insert k j v m)

  pub get-remove : (k j : ℕ) (m : Assoc V) → get j (remove k m) ≡ (if k == j then none else get j m)
  unfolding get remove
  get-remove k j [] = ground arith
  get-remove k j ((i, w) ∷ m) = ground (arith, get-remove k j m)

  -- `HashMap::retain`, on the values.
  unfoldable pub retain : (V → Bool) → Assoc V → Assoc V
  retain p [] = []
  retain p ((j, v) ∷ m) = let rest = retain p m in if p v then (j, v) ∷ rest else rest

  pub contains-insert :
      (j k : ℕ) (v : V) (m : Assoc V)
      → contains_key j m ≡ true
      → contains_key j (insert k v m) ≡ true
  contains-insert j k v m h = ground (arith, get-insert k j v m, h)

  pub contains-remove :
      (j k : ℕ) (m : Assoc V)
      → contains_key j m ≡ true
      → (k == j) ≡ false
      → contains_key j (remove k m) ≡ true
  contains-remove j k m h differs = ground (arith, get-remove k j m, h, differs)

-- A predicate on the entries.
module _ {V : Type 0} (P : ℕ × V → Type 0) where
  pub insert-All : (k : ℕ) (v : V) (m : Assoc V) → P (k, v) → All P m → All P (insert k v m)
  unfolding insert
  insert-All k v [] p h = (p, tt)
  insert-All k v ((j, w) ∷ m) p h = elim (Bool-cases (j == k)) [
    | inl same ↦ rw same (p, h.1)
    | inr differs ↦ rw differs (h.0, insert-All k v m p h.1)
  ]

  pub remove-All : (k : ℕ) (m : Assoc V) → All P m → All P (remove k m)
  unfolding remove
  remove-All k [] h = tt
  remove-All k ((j, w) ∷ m) h = elim (Bool-cases (j == k)) [
    | inl same ↦ rw same (remove-All k m h.1)
    | inr differs ↦ rw differs (h.0, remove-All k m h.1)
  ]

  pub retain-All :
      (test : V → Bool) (m : Assoc V)
      → All P m
      → All (λ entry. P entry × (test entry.1 ≡ true)) (retain test m)
  unfolding retain
  retain-All test [] h = tt
  retain-All test ((j, w) ∷ m) h = elim (Bool-cases (test w)) [
    | inl kept ↦ rw kept ((h.0, kept), retain-All test m h.1)
    | inr dropped ↦ rw dropped (retain-All test m h.1)
  ]

pub ruleset assoc_laws = (get-insert, get-remove)
