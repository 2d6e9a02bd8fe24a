-- ===== src/Daemon/Clients/Driving/Keys.antt =====
-- What the removal and the change of one client do to the driver.
use hitch.Prelude.{
  ℕ, ◌≡◌, refl, inl, inr, true, false, Option, none, some, [], ◌∷◌, arith, ◌==◌, if◌then◌else◌,
  Bool-cases,
}
use hitch.Prelude.Assoc.{Assoc, get, insert, remove, get-insert, get-remove, insert-All, remove-All}
use hitch.Prelude.Keys.{OneEach, get-Other, remove-OneEach}
use hitch.Daemon.Clients.{ClientSink, is_eligible, find_eligible, is_driving}
use hitch.Daemon.Clients.Driving.{Driven}

-- The search finds a client that may drive, or there is none.
find_eligible-Driven : (m : Assoc ClientSink) → OneEach m → Driven m (find_eligible m)
unfolding find_eligible get
find_eligible-Driven [] h = tt
find_eligible-Driven ((j, w) ∷ m) h = elim (Bool-cases (is_eligible w)) [
  | inl may ↦ let same : (j == j) ≡ true = ground arith in rw may (w, rw same refl, may)
  | inr cannot ↦ rw cannot (behind j w m (find_eligible m) h cannot (find_eligible-Driven m h.1))
]
  where
    behind :
        (j : ℕ) (w : ClientSink) (m : Assoc ClientSink) (found : Option ℕ)
        → OneEach ((j, w) ∷ m)
        → is_eligible w ≡ false
        → Driven m found
        → Driven ((j, w) ∷ m) found
    behind j w m none h cannot d = (cannot, d)
    behind j w m (some id) h cannot (sink, there, may) =
        (sink, rw (get-Other j id sink m h.0 there) there, may)

pub driver-remove :
    (id : ℕ) (m : Assoc ClientSink) (driver : Option ℕ)
    → OneEach m
    → Driven m driver
    → Driven (remove id m) (if is_driving id driver then find_eligible (remove id m) else driver)
driver-remove id m none h d = remove-All (λ entry. is_eligible entry.1 ≡ false) id m d
driver-remove id m (some driver) h (sink, there, may) = elim (Bool-cases (driver == id)) [
  | inl same ↦ rw same (find_eligible-Driven (remove id m) (remove-OneEach id m h))
  | inr differs ↦ rw differs (sink, ground (arith, get-remove id driver m, there, differs), may)
]

pub put-Driven :
    (id : ℕ) (sink : ClientSink) (m : Assoc ClientSink) (driver : Option ℕ)
    → is_eligible sink ≡ false
    → ((old : ClientSink) → get id m ≡ some old → is_eligible old ≡ false)
    → Driven m driver
    → Driven (insert id sink m) driver
put-Driven id sink m none cannot was d =
    insert-All (λ entry. is_eligible entry.1 ≡ false) id sink m cannot d
put-Driven id sink m (some driver) cannot was (old, there, may) = elim (Bool-cases (id == driver)) [
  | inl same ↦
      let e : driver ≡ id = ground (arith, same) in absurd (cc (was old (rw e at there), may))
  | inr differs ↦ (old, ground (arith, get-insert id driver sink m, there, differs), may)
]
