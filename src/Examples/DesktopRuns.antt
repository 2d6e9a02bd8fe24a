-- ===== src/Examples/DesktopRuns.antt =====
-- Runs of `OutputRouter` and `CrashLoopGuard` of apps/desktop/src-tauri/src/lib.rs, and of
-- `connect_once` and `connect_loop` of ssh_pool.rs.
use hitch.Prelude.{
  suc, none, some, ok, err, leb, ◌≤◌, ◌≡◌, refl, true, false, List, [], ◌∷◌, ◌++◌, arith, length,
}
use hitch.Prelude.Assoc.{get}
use hitch.Prelude.Text.{unwrap_or}
use hitch.Desktop.Router
use hitch.Desktop.Router.{RouterOp}
use hitch.Desktop.Router.Delivery.{Follows, follow_all, new_line, told_to}
use hitch.Desktop.Router.Delivery.Runs.{router_run-Follows}
use hitch.Desktop.Restart
use hitch.Desktop.Restart.{GuardOp}
use hitch.Desktop.Restart.Budget.{IsClocked, spawned, allow-run}
use hitch.Desktop.Connect
use hitch.Desktop.Connect.{ProxyCandidate, RemoteFailure, Attempted, LoopRound, Loop}
use hitch.Desktop.Connect.Walks.{plan, Walks, connect_once-Walks}
use hitch.Desktop.Connect.Paced.{Paced, answers, connect_loop-Paced}
use hitch.Desktop.Router.Delivery.Lossless.{received, is_flowing, bytes_of, router_run-lossless}

-- A prompt comes before the terminal of session 7 is there, a channel fails and is replaced, and
-- session 8 comes and goes.
abbrev ops : List RouterOp
ops =
    Router.prepares 7
    ∷ Router.sends true 7 (1 ∷ 2 ∷ [])
    ∷ Router.registers true 7 0
    ∷ Router.prepares 8
    ∷ Router.sends true 8 (9 ∷ [])
    ∷ Router.sends false 7 (3 ∷ [])
    ∷ Router.closes 8
    ∷ Router.registers false 7 1
    ∷ Router.registers true 7 2
    ∷ Router.sends true 7 (4 ∷ [])
    ∷ []

router_run-Follows_example : Follows 7 (Router.run ops Router.new) (follow_all 7 ops new_line)
router_run-Follows_example = router_run-Follows 7 ops

flowing : is_flowing 7 false ops ≡ true
unfolding is_flowing
flowing = refl

few : length (received 7 ops) ≤ Router.output_staging_capacity
unfolding received
few = omega arith

router_run-lossless_example :
    let r = Router.run ops Router.new in
    bytes_of (told_to 7 r.sent) ++ unwrap_or [] (get 7 r.staging) ≡ received 7 ops
router_run-lossless_example = router_run-lossless 7 ops flowing few

-- Two spawns, a healthy handshake, and three more, of which one is older than the window.
abbrev guard_ops : List GuardOp
guard_ops =
    Restart.spawns 10
    ∷ Restart.spawns 20
    ∷ Restart.resets
    ∷ Restart.spawns 100
    ∷ Restart.spawns 70000
    ∷ Restart.spawns 80000
    ∷ []

clocked : IsClocked 0 guard_ops 90000
unfolding IsClocked
clocked = (omega arith, (omega arith, (omega arith, (omega arith, (omega arith, omega arith)))))

allow-run_example :
    (Restart.allow 90000
      (Restart.run guard_ops (Restart.new Restart.crash_loop_max Restart.crash_loop_window))).1
    ≡ leb
        (suc (length (Restart.recent Restart.crash_loop_window 90000 (spawned [] guard_ops))))
        Restart.crash_loop_max
allow-run_example =
    allow-run Restart.crash_loop_max Restart.crash_loop_window guard_ops 90000 clocked

abbrev missing : RemoteFailure
missing = record { hello = false; protocol_mismatch = false; category = some Connect.missing_hitch }

-- hitch is only on the path.
abbrev on_path : ProxyCandidate → Attempted
on_path Connect.bare_path = record { result = ok tt; exe_path = some "/usr/bin/hitch" }
on_path Connect.known_location = record { result = err missing; exe_path = none }
on_path (Connect.cached_exe_path path) = record { result = err missing; exe_path = none }

connect_once-Walks_example :
    Walks on_path
      (plan (some Connect.unix) (some "/old/hitch"))
      (Connect.connect_once on_path (some Connect.unix) (some "/old/hitch"))
connect_once-Walks_example = connect_once-Walks on_path (some Connect.unix) (some "/old/hitch")

walked :
    (Connect.connect_once on_path (some Connect.unix) (some "/old/hitch")).tried
    ≡ Connect.cached_exe_path "/old/hitch" ∷ Connect.known_location ∷ Connect.bare_path ∷ []
unfolding Connect.connect_once
walked = refl

abbrev nowhere : ProxyCandidate → Attempted
nowhere candidate = record { result = err missing; exe_path = none }

-- The connect fails once, and then there is a daemon.
abbrev rounds : List LoopRound
rounds =
    record {
      attempt = nowhere;
      os_hint = none;
      shut_before = false;
      shut_behind = false;
      interrupted = false;
    }
    ∷ record {
      attempt = on_path;
      os_hint = none;
      shut_before = false;
      shut_behind = false;
      interrupted = false;
    }
    ∷ []

abbrev idle : Loop
idle = record { exe_path = none; attempt = 0; statuses = []; waits = [] }

connect_loop-Paced_example :
    Paced (answers rounds idle.exe_path) idle (Connect.connect_loop rounds idle)
connect_loop-Paced_example = connect_loop-Paced rounds idle

looped : (Connect.connect_loop rounds idle).waits ≡ 2 ∷ []
unfolding Connect.connect_loop
looped = refl
