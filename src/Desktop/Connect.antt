-- ===== src/Desktop/Connect.antt =====
-- The way to a remote daemon: `ProxyCandidate` and `connect_once` of
-- apps/desktop/src-tauri/src/ssh_pool.rs, and `FailureCategory` of ssh.rs beside it. What an attempt
-- over ssh answers is an argument; messages are left out.
pub mod Walks
pub mod Paced
use hitch.Prelude.{
  ℕ, zero, suc, ◌+◌, Bool, true, false, ◌||◌, Option, none, some, List, [], ◌∷◌, ◌++◌,
  if◌then◌else◌, Result, ok, err,
}
use Prim.Native.String.{String}

pub data OsFamily : Type 0 where
  unix windows : OsFamily

pub data FailureCategory : Type 0 where
  auth host_key missing_hitch protocol_mismatch proxy_startup network : FailureCategory

pub data ProxyCandidate : Type 0 where
  known_location bare_path : ProxyCandidate
  cached_exe_path : String → ProxyCandidate

abbrev program : ProxyCandidate → String
program known_location = "~/.local/bin/hitch"
program bare_path = "hitch"
program (cached_exe_path path) = path

abbrev pub remote_args : ProxyCandidate → List String
remote_args candidate = program candidate ∷ "daemon" ∷ "proxy" ∷ []

abbrev pub candidate_sequence : Option OsFamily → List ProxyCandidate
candidate_sequence (some windows) = bare_path ∷ known_location ∷ []
candidate_sequence (some unix) = known_location ∷ bare_path ∷ []
candidate_sequence none = known_location ∷ bare_path ∷ []

abbrev pub should_fall_through : Option FailureCategory → Bool
should_fall_through (some missing_hitch) = true
should_fall_through (some proxy_startup) = true
should_fall_through _ = false

abbrev pub should_rediscover_cached_path : Option FailureCategory → Bool
should_rediscover_cached_path (some missing_hitch) = true
should_rediscover_cached_path _ = false

-- `hello` says that the outcome of the handshake was a Hello.
pub record RemoteFailure : Type 0 where
  pub hello : Bool
  pub protocol_mismatch : Bool
  pub category : Option FailureCategory

-- What `connect_attempt` answers, and the path that a compatible Hello told, which
-- `read_remote_hello` puts into the cache.
pub record Attempted : Type 0 where
  pub result : Result RemoteFailure (Unit {0})
  pub exe_path : Option String

-- What `connect_once` answers, the cache behind it, and the candidates that it tried.
pub record Connected : Type 0 where
  pub result : Result RemoteFailure (Unit {0})
  pub exe_path : Option String
  pub tried : List ProxyCandidate

abbrev pub learned : Option String → Option String → Option String
learned none cached = cached
learned (some path) cached = some path

abbrev pub no_candidates : RemoteFailure
no_candidates = record { hello = false; protocol_mismatch = false; category = none }

abbrev last_failure : Option RemoteFailure → RemoteFailure
last_failure none = no_candidates
last_failure (some failure) = failure

abbrev pub behind : ProxyCandidate → Connected → Connected
behind candidate c = record c { tried = candidate ∷ c.tried }

-- What follows the result of an attempt: `goes` says for which failures there is a next one.
abbrev pub on_attempt :
    (RemoteFailure → Bool)
    → (RemoteFailure → Connected)
    → ProxyCandidate
    → Option String
    → Result RemoteFailure (Unit {0})
    → Connected
on_attempt goes next candidate cached (ok _) = record {
  result = ok tt;
  exe_path = cached;
  tried = candidate ∷ [];
}
on_attempt goes next candidate cached (err failure) =
    if goes failure
    then behind candidate (next failure)
    else record { result = err failure; exe_path = cached; tried = candidate ∷ [] }

abbrev pub falls_through : RemoteFailure → Bool
falls_through failure = should_fall_through failure.category

abbrev pub is_stale : RemoteFailure → Bool
is_stale failure = should_rediscover_cached_path failure.category

module _ (attempt : ProxyCandidate → Attempted) where
  -- The loop over the candidates.
  unfoldable pub try_candidates :
      List ProxyCandidate → Option RemoteFailure → Option String → Connected
  try_candidates [] last cached = record {
    result = err (last_failure last);
    exe_path = cached;
    tried = [];
  }
  try_candidates (candidate ∷ candidates) last cached =
      let cached' = learned (attempt candidate).exe_path cached in
      on_attempt falls_through (λ failure. try_candidates candidates (some failure) cached')
        candidate cached' (attempt candidate).result

  -- The cached path first, if there is one; a stale one is forgotten.
  unfoldable pub connect_once : Option OsFamily → Option String → Connected
  unfolding try_candidates
  connect_once os_hint none = try_candidates (candidate_sequence os_hint) none none
  connect_once os_hint (some path) =
      let candidate = cached_exe_path path in
      on_attempt is_stale (λ failure. try_candidates (candidate_sequence os_hint) none none)
        candidate (learned (attempt candidate).exe_path (some path)) (attempt candidate).result

abbrev pub backoff_base_secs : ℕ → ℕ
backoff_base_secs zero = 2
backoff_base_secs (suc zero) = 5
backoff_base_secs (suc (suc zero)) = 15
backoff_base_secs (suc (suc (suc zero))) = 30
backoff_base_secs _ = 60

pub data RemoteStatus : Type 0 where
  starting running unreachable failed : RemoteStatus

-- One round of `connect_loop`: what the attempts answer, and whether the connection is being shut
-- down at its three looks. `os_hint` is what `os_hint` answers for the target.
pub record LoopRound : Type 0 where
  pub attempt : ProxyCandidate → Attempted
  pub os_hint : Option OsFamily
  pub shut_before : Bool
  pub shut_behind : Bool
  pub interrupted : Bool

-- `attempt` is the connection's counter, `waits` are the bases of the delays in seconds; their jitter
-- is left out.
pub record Loop : Type 0 where
  pub exe_path : Option String
  pub attempt : ℕ
  pub statuses : List RemoteStatus
  pub waits : List ℕ

-- The round's connect, behind its first status.
unfoldable pub tries : LoopRound → Loop → Connected
unfolding connect_once
tries r l = connect_once r.attempt r.os_hint l.exe_path

abbrev pub tells : RemoteStatus → Loop → Loop
tells status l = record l { statuses = l.statuses ++ status ∷ [] }

unfoldable pub begun : LoopRound → Loop → Loop
unfolding tries
begun r l = record (tells starting l) { exe_path = (tries r l).exe_path }

abbrev pub backs_off : Loop → Loop
backs_off l = record (tells unreachable l) {
  attempt = l.attempt + 1;
  waits = l.waits ++ backoff_base_secs l.attempt ∷ [];
}

-- What the loop does with the answer of a round; `again` is the rest of the loop.
unfoldable pub after_connect : LoopRound → Loop → Loop → Result RemoteFailure (Unit {0}) → Loop
unfolding begun
after_connect r l again (ok _) = record (tells running (begun r l)) { attempt = 0 }
after_connect r l again (err failure) =
    if r.shut_behind
    then begun r l
    else if failure.hello || failure.protocol_mismatch
    then tells failed (begun r l)
    else if r.interrupted
    then backs_off (begun r l)
    else again

-- One round for each turn of the loop; the list ends where nobody looks further.
unfoldable pub connect_loop : List LoopRound → Loop → Loop
unfolding tries after_connect
connect_loop [] l = l
connect_loop (r ∷ rounds) l =
    let again = connect_loop rounds (backs_off (begun r l)) in
    if r.shut_before then l else after_connect r l again (tries r l).result
