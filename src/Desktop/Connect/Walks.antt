-- ===== src/Desktop/Connect/Walks.antt =====
-- Which candidates `connect_once` of apps/desktop/src-tauri/src/ssh_pool.rs tries.
use hitch.Prelude.{
  ◌≡◌, refl, sym, ap, ◌∙◌, inl, inr, Bool, true, false, Option, none, some, List, [], ◌∷◌, ◌++◌,
  Bool-cases, Result, ok, err, All,
}
use Prim.Native.String.{String}
use hitch.Desktop.Connect
use hitch.Desktop.Connect.{OsFamily, ProxyCandidate, RemoteFailure, Attempted, Connected}

-- The order of the candidates: the cached path, if there is one, and then the usual places.
abbrev pub plan : Option OsFamily → Option String → List ProxyCandidate
plan os_hint none = Connect.candidate_sequence os_hint
plan os_hint (some path) = Connect.cached_exe_path path ∷ Connect.candidate_sequence os_hint

-- Whether a failure of this candidate lets the next one have its turn.
abbrev pub goes_on : ProxyCandidate → RemoteFailure → Bool
goes_on (Connect.cached_exe_path path) failure =
    Connect.should_rediscover_cached_path failure.category
goes_on Connect.known_location failure = Connect.should_fall_through failure.category
goes_on Connect.bare_path failure = Connect.should_fall_through failure.category

abbrev pub passes : ProxyCandidate → Result RemoteFailure (Unit {0}) → Bool
passes candidate (ok _) = false
passes candidate (err failure) = goes_on candidate failure

abbrev pub Passed : (ProxyCandidate → Attempted) → ProxyCandidate → Type 0
Passed attempt candidate = passes candidate (attempt candidate).result ≡ true

-- A walk along the candidates: all before the last one pass, and the last one answers; behind it are
-- candidates only if it does not pass.
abbrev pub Walks : (ProxyCandidate → Attempted) → List ProxyCandidate → Connected → Type 0
Walks attempt candidates c =
    (before : List ProxyCandidate) × (last : ProxyCandidate) × (untried : List ProxyCandidate)
    × (candidates ≡ before ++ last ∷ untried)
    × (c.tried ≡ before ++ last ∷ [])
    × All (Passed attempt) before
    × (c.result ≡ (attempt last).result)
    × (Passed attempt last → untried ≡ [])

module _ (attempt : ProxyCandidate → Attempted) where
  pass-Walks :
      (candidate : ProxyCandidate) (candidates : List ProxyCandidate) (c : Connected)
      → Passed attempt candidate
      → Walks attempt candidates c
      → Walks attempt (candidate ∷ candidates) (record c { tried = candidate ∷ c.tried })
  pass-Walks candidate candidates c passed (before, last, untried, all, tried, ps, result, ends) = (
    candidate ∷ before,
    last,
    untried,
    ap (◌∷◌ candidate) all,
    ap (◌∷◌ candidate) tried,
    (passed, ps),
    result,
    ends,
  )

  stop-Walks :
      (candidate : ProxyCandidate) (candidates : List ProxyCandidate) (c : Connected)
      → c.tried ≡ candidate ∷ []
      → c.result ≡ (attempt candidate).result
      → (Passed attempt candidate → candidates ≡ [])
      → Walks attempt (candidate ∷ candidates) c
  stop-Walks candidate candidates c tried result ends =
      ([], candidate, candidates, refl, tried, tt, result, ends)

  on_attempt-Walks :
      (candidate : ProxyCandidate) (candidates : List ProxyCandidate) (goes : RemoteFailure → Bool)
      (next : RemoteFailure → Connected) (cached : Option String)
      (result : Result RemoteFailure (Unit {0}))
      → (attempt candidate).result ≡ result
      → ((failure : RemoteFailure) → goes failure ≡ goes_on candidate failure)
      → ((failure : RemoteFailure)
          → (attempt candidate).result ≡ err failure
          → goes failure ≡ true
          → Walks attempt (candidate ∷ candidates) (Connect.behind candidate (next failure)))
      → Walks attempt
          (candidate ∷ candidates)
          (Connect.on_attempt goes next candidate cached result)
  on_attempt-Walks candidate candidates goes next cached (ok _) e agrees rest =
      stop-Walks candidate candidates
        (record { result = ok tt; exe_path = cached; tried = candidate ∷ [] }) refl (sym e)
        (λ (passed : Passed attempt candidate). absurd (cc (passed, ap (passes candidate) e)))
  on_attempt-Walks candidate candidates goes next cached (err failure) e agrees rest =
      elim (Bool-cases (goes failure)) [
        | inl on ↦ rw on (rest failure e on)
        | inr off ↦ rw off (
            stop-Walks candidate candidates
              (record { result = err failure; exe_path = cached; tried = candidate ∷ [] }) refl
              (sym e)
              (λ (passed : Passed attempt candidate).
                absurd (cc (passed, ap (passes candidate) e, agrees failure, off))))
      ]

  -- A place that is no cached path.
  abbrev IsUsual : ProxyCandidate → Type 0
  IsUsual candidate =
      (failure : RemoteFailure) → Connect.falls_through failure ≡ goes_on candidate failure

  try_candidates-Walks :
      (candidate : ProxyCandidate) (candidates : List ProxyCandidate) (last : Option RemoteFailure)
      (cached : Option String)
      → IsUsual candidate
      → All IsUsual candidates
      → Walks attempt
          (candidate ∷ candidates)
          (Connect.try_candidates attempt (candidate ∷ candidates) last cached)
  unfolding Connect.try_candidates
  try_candidates-Walks candidate [] last cached usual us =
      let after = Connect.learned (attempt candidate).exe_path cached in
      on_attempt-Walks candidate [] Connect.falls_through
        (λ failure. Connect.try_candidates attempt [] (some failure) after) after
        (attempt candidate).result refl usual
        (λ failure e on.
          stop-Walks candidate []
            (record { result = err failure; exe_path = after; tried = candidate ∷ [] }) refl (sym e)
            (λ passed. refl))
  try_candidates-Walks candidate (second ∷ candidates) last cached usual (u, us) =
      let after = Connect.learned (attempt candidate).exe_path cached in
      let next : RemoteFailure → Connected =
        λ failure. Connect.try_candidates attempt (second ∷ candidates) (some failure) after in
      on_attempt-Walks candidate (second ∷ candidates) Connect.falls_through next after
        (attempt candidate).result refl usual
        (λ failure e on.
          pass-Walks candidate (second ∷ candidates) (next failure)
            (ap (passes candidate) e ∙ sym (usual failure) ∙ on)
            (try_candidates-Walks second candidates (some failure) after u us))

  sequence-Walks :
      (os_hint : Option OsFamily) (cached : Option String)
      → Walks attempt
          (Connect.candidate_sequence os_hint)
          (Connect.try_candidates attempt (Connect.candidate_sequence os_hint) none cached)
  sequence-Walks (some Connect.windows) cached =
      try_candidates-Walks Connect.bare_path (Connect.known_location ∷ []) none cached
        (λ failure. refl) ((λ failure. refl), tt)
  sequence-Walks (some Connect.unix) cached =
      try_candidates-Walks Connect.known_location (Connect.bare_path ∷ []) none cached
        (λ failure. refl) ((λ failure. refl), tt)
  sequence-Walks none cached =
      try_candidates-Walks Connect.known_location (Connect.bare_path ∷ []) none cached
        (λ failure. refl) ((λ failure. refl), tt)

-- `connect_once` walks along the cached path, if there is one, and the two usual places in the order
-- that the system's hint gives: it answers what the first candidate answered that connected or
-- failed in a way that is the host's and not the candidate's, or else what the last one answered,
-- and tries none behind it. A cached path is passed only if hitch is missing there, a usual place
-- also if its proxy did not start.
pub connect_once-Walks :
    (attempt : ProxyCandidate → Attempted) (os_hint : Option OsFamily) (cached : Option String)
    → Walks attempt (plan os_hint cached) (Connect.connect_once attempt os_hint cached)
unfolding Connect.connect_once
connect_once-Walks attempt os_hint none = sequence-Walks attempt os_hint none
connect_once-Walks attempt os_hint (some path) =
    let cached = Connect.cached_exe_path path in
    let next = Connect.try_candidates attempt (Connect.candidate_sequence os_hint) none none in
    on_attempt-Walks attempt cached (Connect.candidate_sequence os_hint) Connect.is_stale
      (λ failure. next) (Connect.learned (attempt cached).exe_path (some path))
      (attempt cached).result refl (λ failure. refl)
      (λ failure e on.
        pass-Walks attempt cached (Connect.candidate_sequence os_hint) next
          (ap (passes cached) e ∙ on) (sequence-Walks attempt os_hint none))
