-- ===== src/Desktop/Restart/Budget.antt =====
-- What the guard of apps/desktop/src-tauri/src/lib.rs counts, over any run.
use hitch.Prelude.{
  ℕ, suc, ◌-◌, ◌≤◌, ◌≡◌, refl, sym, ap, ◌∙◌, inl, inr, false, List, [], ◌∷◌, ◌++◌, arith, ltb, leb,
  if◌then◌else◌, Bool-cases, length, length-append,
}
use hitch.Desktop.Restart
use hitch.Desktop.Restart.{CrashLoopGuard, GuardOp}

-- All spawns since the last reset, whatever their age.
unfoldable pub spawned : List ℕ → List GuardOp → List ℕ
spawned times [] = times
spawned times (Restart.spawns now ∷ ops) = spawned (times ++ now ∷ []) ops
spawned times (Restart.resets ∷ ops) = spawned [] ops

-- The clock does not go back, and is at most `later` at the end.
unfoldable pub IsClocked : ℕ → List GuardOp → ℕ → Type 0
IsClocked time [] later = time ≤ later
IsClocked time (Restart.spawns now ∷ ops) later = (time ≤ now) × IsClocked now ops later
IsClocked time (Restart.resets ∷ ops) later = IsClocked time ops later

module _ (window : ℕ) where
  recent-append :
      (now : ℕ) (xs ys : List ℕ)
      → Restart.recent window now (xs ++ ys)
        ≡ Restart.recent window now xs ++ Restart.recent window now ys
  unfolding Restart.recent
  recent-append now [] ys = refl
  recent-append now (at ∷ xs) ys = elim (Bool-cases (ltb (now - at) window)) [
    | inl young ↦ rw young (ap (λ (rest : List ℕ). at ∷ rest) (recent-append now xs ys))
    | inr old ↦ rw old (recent-append now xs ys)
  ]

  -- What was too old once is too old later.
  recent-recent :
      (time now : ℕ) (xs : List ℕ)
      → time ≤ now
      → Restart.recent window now (Restart.recent window time xs) ≡ Restart.recent window now xs
  unfolding Restart.recent
  recent-recent time now [] le = refl
  recent-recent time now (at ∷ xs) le = elim (Bool-cases (ltb (time - at) window)) [
    | inl young ↦ rw young (
        ap (λ (rest : List ℕ). if ltb (now - at) window then at ∷ rest else rest)
          (recent-recent time now xs le))
    | inr old ↦
        let older : ltb (now - at) window ≡ false = ground (arith, old, le) in
        rw (old, older) (recent-recent time now xs le)
  ]

-- The guard counts the spawns as if it had kept all of them.
record Counts (times : List ℕ) (time : ℕ) (g : CrashLoopGuard) (start : CrashLoopGuard)
    : Type 0 where
  pub counted :
      (now : ℕ)
      → time ≤ now
      → Restart.recent start.window now g.attempts ≡ Restart.recent start.window now times
  pub window : g.window ≡ start.window
  pub max_attempts : g.max_attempts ≡ start.max_attempts

spawn-Counts :
    (times : List ℕ) (time now : ℕ) (g start : CrashLoopGuard)
    → time ≤ now
    → Counts times time g start
    → Counts (times ++ now ∷ []) now (Restart.allow now g).0 start
unfolding Restart.allow
spawn-Counts times time now g start le c = record {
  counted = λ later h.
      let w = start.window in
      rw c.window (
        recent-append w later (Restart.recent w now g.attempts) (now ∷ [])
        ∙ rw (recent-recent w now later g.attempts h, c.counted later (omega (arith, le, h)))
            (sym (recent-append w later times (now ∷ []))));
  window = c.window;
  max_attempts = c.max_attempts;
}

reset-Counts :
    (times : List ℕ) (time : ℕ) (g start : CrashLoopGuard)
    → Counts times time g start
    → Counts [] time (Restart.reset g) start
unfolding Restart.reset
reset-Counts times time g start c = record {
  counted = λ now h. refl;
  window = c.window;
  max_attempts = c.max_attempts;
}

run-Counts :
    (ops : List GuardOp) (times : List ℕ) (time later : ℕ) (g start : CrashLoopGuard)
    → IsClocked time ops later
    → Counts times time g start
    → Counts (spawned times ops) later (Restart.run ops g) start
unfolding spawned IsClocked
run-Counts [] times time later g start le c = record {
  counted = λ now h. c.counted now (omega (arith, le, h));
  window = c.window;
  max_attempts = c.max_attempts;
}
run-Counts (Restart.spawns now ∷ ops) times time later g start (le, clocked) c =
    run-Counts ops (times ++ now ∷ []) now later (Restart.allow now g).0 start clocked
      (spawn-Counts times time now g start le c)
run-Counts (Restart.resets ∷ ops) times time later g start clocked c =
    run-Counts ops [] time later (Restart.reset g) start clocked (reset-Counts times time g start c)

-- With a clock that does not go back, a spawn behind any run of spawns and resets is allowed exactly
-- if it and the earlier spawns since the last reset that are younger than the window are at most
-- `max_attempts`.
pub allow-run :
    (max_attempts window : ℕ) (ops : List GuardOp) (now : ℕ)
    → IsClocked 0 ops now
    → (Restart.allow now (Restart.run ops (Restart.new max_attempts window))).1
      ≡ leb (suc (length (Restart.recent window now (spawned [] ops)))) max_attempts
unfolding Restart.allow
allow-run max_attempts window ops now clocked =
    let start = Restart.new max_attempts window in
    let c =
      run-Counts ops [] 0 now start start clocked
        (record { counted = λ now h. refl; window = refl; max_attempts = refl }) in
    let one_more = length-append (Restart.recent window now (spawned [] ops)) (now ∷ []) in
    rw (c.window, c.max_attempts, c.counted now (omega arith))
      (ap (λ (n : ℕ). leb n max_attempts) (omega (arith, one_more)))
