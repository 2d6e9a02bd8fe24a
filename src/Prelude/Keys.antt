-- ===== src/Prelude/Keys.antt =====
-- Association lists with one entry for each key, and membership of a number in a list.
use Prim.Native.Nat.{ℕ}
use mathlib.Core.Path.{◌≡◌, refl, ap₂, subst}
use mathlib.Core.Logic.{inl, inr}
use mathlib.Core.Bool.{Bool, true, false, ◌||◌}
use mathlib.Core.Option.{none, some}
use mathlib.Core.List.{List, [], ◌∷◌}
use native.Mathlib.Omega.{arith}
use hitch.Prelude.Tests.{◌==◌, Bool-cases}
use hitch.Prelude.Lists.{All}
use hitch.Prelude.Assoc.{Assoc, get, insert, remove, get-insert, get-remove, insert-All, remove-All}

-- `contains` of a list of numbers.
abbrev pub elem : ℕ → List ℕ → Bool
elem n [] = false
elem n (m ∷ ms) = m == n || elem n ms

module _ {V : Type 0} where
  abbrev pub Other : ℕ → ℕ × V → Type 0
  Other id entry = (entry.0 == id) ≡ false

  abbrev pub OneEach : Assoc V → Type 0
  OneEach [] = Unit
  OneEach ((id, v) ∷ m) = All (Other id) m × OneEach m

  pub insert-OneEach : (k : ℕ) (v : V) (m : Assoc V) → OneEach m → OneEach (insert k v m)
  unfolding insert
  insert-OneEach k v [] h = (tt, tt)
  insert-OneEach k v ((j, w) ∷ m) h = elim (Bool-cases (j == k)) [
    | inl same ↦ let e : j ≡ k = ground (arith, same) in rw (same, ← e) h
    | inr differs ↦
        rw differs
          (insert-All (Other j) k v m (ground (arith, differs)) h.0, insert-OneEach k v m h.1)
  ]

  pub remove-OneEach : (k : ℕ) (m : Assoc V) → OneEach m → OneEach (remove k m)
  unfolding remove
  remove-OneEach k [] h = tt
  remove-OneEach k ((j, w) ∷ m) h = elim (Bool-cases (j == k)) [
    | inl same ↦ rw same (remove-OneEach k m h.1)
    | inr differs ↦ rw differs (remove-All (Other j) k m h.0, remove-OneEach k m h.1)
  ]

  -- An entry of the rest has another key than one that the rest does not have.
  pub get-Other :
      (d id : ℕ) (v : V) (m : Assoc V) → All (Other d) m → get id m ≡ some v → (d == id) ≡ false
  unfolding get
  get-Other d id v [] h e = cc
  get-Other d id v ((j, w) ∷ m) h e = elim (Bool-cases (j == id)) [
    | inl same ↦ ground (arith, same, h.0)
    | inr differs ↦ get-Other d id v m h.1 (rw differs at e)
  ]

  pub remove-absent : (k : ℕ) (m : Assoc V) → All (Other k) m → remove k m ≡ m
  unfolding remove
  remove-absent k [] h = refl
  remove-absent k ((j, w) ∷ m) h = rw (h.0, remove-absent k m h.1) refl

  -- What holds of every entry holds of the one that is found.
  pub get-All :
      (P : ℕ × V → Type 0) (k : ℕ) {v : V} (m : Assoc V) → All P m → get k m ≡ some v → P (k, v)
  unfolding get
  get-All P k [] h e = cc
  get-All P k {v} ((j, w) ∷ m) h e = elim (Bool-cases (j == k)) [
    | inl same ↦
        let key : j ≡ k = ground (arith, same) in
        let value : w ≡ v = ground (arith, rw same at e) in
        subst (λ (entry : ℕ × V). P entry) (ap₂ (λ (a : ℕ) (b : V). (a, b)) key value) h.0
    | inr differs ↦ get-All P k m h.1 (rw differs at e)
  ]

  pub get-none-Other : (k : ℕ) (m : Assoc V) → get k m ≡ none → All (Other k) m
  unfolding get
  get-none-Other k [] e = tt
  get-none-Other k ((j, w) ∷ m) e = elim (Bool-cases (j == k)) [
    | inl same ↦ absurd (cc (rw same at e))
    | inr differs ↦ (differs, get-none-Other k m (rw differs at e))
  ]

  pub remove-Other : (k : ℕ) (m : Assoc V) → All (Other k) (remove k m)
  unfolding remove
  remove-Other k [] = tt
  remove-Other k ((j, w) ∷ m) = elim (Bool-cases (j == k)) [
    | inl same ↦ rw same (remove-Other k m)
    | inr differs ↦ rw differs (differs, remove-Other k m)
  ]

  -- An entry that is put in and taken out again leaves the others.
  pub remove-insert-All :
      (P : ℕ × V → Type 0) (k : ℕ) (v : V) (m : Assoc V) → All P m → All P (remove k (insert k v m))
  unfolding insert remove
  remove-insert-All P k v [] h = let same : (k == k) ≡ true = ground arith in rw same tt
  remove-insert-All P k v ((j, w) ∷ m) h = elim (Bool-cases (j == k)) [
    | inl same ↦ let self : (k == k) ≡ true = ground arith in rw (same, self) (remove-All P k m h.1)
    | inr differs ↦ rw (differs, differs) (h.0, remove-insert-All P k v m h.1)
  ]

  pub get-insert_self : (k : ℕ) (v : V) (m : Assoc V) → get k (insert k v m) ≡ some v
  get-insert_self k v m = ground (arith, get-insert k k v m)

  pub get-remove_self : (k : ℕ) (m : Assoc V) → get k (remove k m) ≡ none
  get-remove_self k m = ground (arith, get-remove k k m)

  pub get-insert_other :
      (k j : ℕ) (v : V) (m : Assoc V) → (k == j) ≡ false → get j (insert k v m) ≡ get j m
  get-insert_other k j v m e = ground (arith, get-insert k j v m, e)

  pub get-remove_other : (k j : ℕ) (m : Assoc V) → (k == j) ≡ false → get j (remove k m) ≡ get j m
  get-remove_other k j m e = ground (arith, get-remove k j m, e)
