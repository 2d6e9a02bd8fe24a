-- ===== src/Desktop/Restart.antt =====
-- `CrashLoopGuard` of apps/desktop/src-tauri/src/lib.rs: the daemon is spawned again only a bounded
-- number of times in a window. Times are milliseconds of one clock.
pub mod Budget
use hitch.Prelude.{ℕ, ◌-◌, ◌*◌, Bool, List, [], ◌∷◌, ◌++◌, ltb, leb, if◌then◌else◌, length}

abbrev pub crash_loop_max : ℕ
crash_loop_max = 4

abbrev pub crash_loop_window : ℕ
crash_loop_window = 60 * 1000

pub record CrashLoopGuard : Type 0 where
  pub window : ℕ
  pub max_attempts : ℕ
  pub attempts : List ℕ

abbrev pub new : ℕ → ℕ → CrashLoopGuard
new max_attempts window = record { window = window; max_attempts = max_attempts; attempts = [] }

-- `retain`: the attempts that are younger than the window.
unfoldable pub recent : ℕ → ℕ → List ℕ → List ℕ
recent window now [] = []
recent window now (at ∷ attempts) =
    let rest = recent window now attempts in if ltb (now - at) window then at ∷ rest else rest

unfoldable pub allow : ℕ → CrashLoopGuard → CrashLoopGuard × Bool
allow now g =
    let attempts = recent g.window now g.attempts ++ now ∷ [] in
    (record g { attempts = attempts }, leb (length attempts) g.max_attempts)

unfoldable pub reset : CrashLoopGuard → CrashLoopGuard
reset g = record g { attempts = [] }

-- A spawn, or a healthy handshake.
pub data GuardOp : Type 0 where
  spawns : ℕ → GuardOp
  resets : GuardOp

abbrev pub apply : GuardOp → CrashLoopGuard → CrashLoopGuard
apply (spawns now) g = (allow now g).0
apply resets g = reset g

abbrev pub run : List GuardOp → CrashLoopGuard → CrashLoopGuard
run [] g = g
run (op ∷ ops) g = run ops (apply op g)
