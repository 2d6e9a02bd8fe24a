-- ===== src/Desktop/Connect/Paced.antt =====
-- What `connect_loop` of apps/desktop/src-tauri/src/ssh_pool.rs tells and how long it waits.
use Prim.Native.String.{String}
use hitch.Prelude.{
  ℕ, zero, suc, ◌+◌, ◌≡◌, refl, sym, ◌∙◌, Bool, true, false, ◌||◌, Option, List, [], ◌∷◌, ◌++◌,
  append-nil, append_assoc, if◌then◌else◌, Result, ok, err, arith,
}
use hitch.Desktop.Connect
use hitch.Desktop.Connect.{RemoteFailure, RemoteStatus, LoopRound, Loop, connect_once}

-- A round, and what its connect answers.
abbrev pub Answered : Type 0
Answered = LoopRound × Result RemoteFailure (Unit {0})

-- What the rounds' connects answer when each starts from the path that the one before it left.
abbrev pub answers : List LoopRound → Option String → List Answered
answers [] exe_path = []
answers (r ∷ rounds) exe_path =
    let connect = connect_once r.attempt r.os_hint exe_path in
    (r, connect.result) ∷ answers rounds connect.exe_path

-- A number of rounds that failed, in what they told.
abbrev pub failures : ℕ → List RemoteStatus
failures zero = []
failures (suc n) = Connect.starting ∷ Connect.unreachable ∷ failures n

-- The bases of that many delays, from an attempt on.
abbrev pub schedule : ℕ → ℕ → List ℕ
schedule attempt zero = []
schedule attempt (suc n) = Connect.backoff_base_secs attempt ∷ schedule (attempt + 1) n

-- The rounds begin with that many that fail in a way that may pass, with nobody closing the
-- connection, and go on with others.
pub data Retried : ℕ → List Answered → List Answered → Type 0 where
  none_yet : {rest : List Answered} → Retried 0 rest rest
  retried :
      {n : ℕ} {r : LoopRound} {failure : RemoteFailure} {rounds rest : List Answered}
      → r.shut_before ≡ false
      → r.shut_behind ≡ false
      → (failure.hello || failure.protocol_mismatch) ≡ false
      → r.interrupted ≡ false
      → Retried n rounds rest
      → Retried (suc n) ((r, err failure) ∷ rounds) rest

-- How the round behind those ends the loop: from the counter of attempts, what it tells, how many
-- delays it takes, and the counter behind it.
pub data Ending : List Answered → ℕ → List RemoteStatus → ℕ → ℕ → Type 0 where
  exhausted : {attempt : ℕ} → Ending [] attempt [] 0 attempt
  closed :
      {attempt : ℕ} {r : LoopRound} {answer : Result RemoteFailure (Unit {0})}
      {rest : List Answered}
      → r.shut_before ≡ true
      → Ending ((r, answer) ∷ rest) attempt [] 0 attempt
  connected :
      {attempt : ℕ} {r : LoopRound} {u : Unit {0}} {rest : List Answered}
      → r.shut_before ≡ false
      → Ending ((r, ok u) ∷ rest) attempt (Connect.starting ∷ Connect.running ∷ []) 0 0
  given_up :
      {attempt : ℕ} {r : LoopRound} {failure : RemoteFailure} {rest : List Answered}
      → r.shut_before ≡ false
      → r.shut_behind ≡ true
      → Ending ((r, err failure) ∷ rest) attempt (Connect.starting ∷ []) 0 attempt
  mismatched :
      {attempt : ℕ} {r : LoopRound} {failure : RemoteFailure} {rest : List Answered}
      → r.shut_before ≡ false
      → r.shut_behind ≡ false
      → (failure.hello || failure.protocol_mismatch) ≡ true
      → Ending ((r, err failure) ∷ rest) attempt (Connect.starting ∷ Connect.failed ∷ []) 0 attempt
  left :
      {attempt : ℕ} {r : LoopRound} {failure : RemoteFailure} {rest : List Answered}
      → r.shut_before ≡ false
      → r.shut_behind ≡ false
      → (failure.hello || failure.protocol_mismatch) ≡ false
      → r.interrupted ≡ true
      → Ending
          ((r, err failure) ∷ rest)
          attempt
          (Connect.starting ∷ Connect.unreachable ∷ [])
          1
          (attempt + 1)

-- From `l` to `l'` some rounds were retried, each with its delay, and the next one ended the loop.
abbrev pub Paced : List Answered → Loop → Loop → Type 0
Paced rounds l l' =
    (n delays : ℕ) × (rest : List Answered) × (ending : List RemoteStatus) × Retried n rounds rest
    × Ending rest (l.attempt + n) ending delays l'.attempt
    × (l'.statuses ≡ l.statuses ++ (failures n ++ ending))
    × (l'.waits ≡ l.waits ++ schedule l.attempt (n + delays))

-- The first round ends the loop.
end-Paced :
    (l l' : Loop) (rounds : List Answered) (ending : List RemoteStatus) (delays : ℕ)
    → Ending rounds l.attempt ending delays l'.attempt
    → l'.statuses ≡ l.statuses ++ ending
    → l'.waits ≡ l.waits ++ schedule l.attempt delays
    → Paced rounds l l'
end-Paced l l' rounds ending delays e statuses waits =
    let here : l.attempt ≡ l.attempt + 0 = omega arith in
    let delayed : 0 + delays ≡ delays = omega arith in
    (0, delays, rounds, ending, none_yet, rw (← here) e, statuses, rw delayed waits)

again-Paced :
    (l l' : Loop) (r : LoopRound) (failure : RemoteFailure) (rounds : List Answered)
    → r.shut_before ≡ false
    → r.shut_behind ≡ false
    → (failure.hello || failure.protocol_mismatch) ≡ false
    → r.interrupted ≡ false
    → Paced rounds (Connect.backs_off (Connect.begun r l)) l'
    → Paced ((r, err failure) ∷ rounds) l l'
unfolding Connect.begun
again-Paced l l' r failure rounds a b c d (n, delays, rest, ending, before, e, statuses, waits) =
    let counted : (l.attempt + 1) + n ≡ l.attempt + suc n = omega arith in
    let delayed : suc n + delays ≡ suc (n + delays) = omega arith in
    (
      suc n,
      delays,
      rest,
      ending,
      retried a b c d before,
      rw (← counted) e,
      statuses ∙ simp append_assoc,
      rw delayed (
          waits
          ∙ append_assoc l.waits (Connect.backoff_base_secs l.attempt ∷ [])
              (schedule (l.attempt + 1) (n + delays))),
    )

if-Paced :
    (b : Bool) (rounds : List Answered) (l x y : Loop)
    → (b ≡ true → Paced rounds l x)
    → (b ≡ false → Paced rounds l y)
    → Paced rounds l (if b then x else y)
if-Paced true rounds l x y p q = p refl
if-Paced false rounds l x y p q = q refl

round-Paced :
    (l again : Loop) (r : LoopRound) (result : Result RemoteFailure (Unit {0}))
    (rounds : List Answered)
    → r.shut_before ≡ false
    → Paced rounds (Connect.backs_off (Connect.begun r l)) again
    → Paced ((r, result) ∷ rounds) l (Connect.after_connect r l again result)
unfolding Connect.begun Connect.after_connect
round-Paced l again r (ok _) rounds a p =
    end-Paced l (record (Connect.tells Connect.running (Connect.begun r l)) { attempt = 0 }) _
      (Connect.starting ∷ Connect.running ∷ []) 0 (connected a)
      (append_assoc l.statuses (Connect.starting ∷ []) (Connect.running ∷ []))
      (sym (append-nil l.waits))
round-Paced l again r (err failure) rounds a p =
    let given = Connect.begun r l in
    let all = (r, err failure) ∷ rounds in
    if-Paced r.shut_behind all l _ _
      (λ b.
        end-Paced l given all (Connect.starting ∷ []) 0 (given_up a b) refl
          (sym (append-nil l.waits)))
      (λ b.
        if-Paced (failure.hello || failure.protocol_mismatch) all l _ _
          (λ c.
            end-Paced l (Connect.tells Connect.failed given) all
              (Connect.starting ∷ Connect.failed ∷ []) 0 (mismatched a b c)
              (append_assoc l.statuses (Connect.starting ∷ []) (Connect.failed ∷ []))
              (sym (append-nil l.waits)))
          (λ c.
            if-Paced r.interrupted all l _ _
              (λ d.
                end-Paced l (Connect.backs_off given) all
                  (Connect.starting ∷ Connect.unreachable ∷ []) 1 (left a b c d)
                  (append_assoc l.statuses (Connect.starting ∷ []) (Connect.unreachable ∷ [])) refl)
              (λ d. again-Paced l again r failure rounds a b c d p)))

-- The loop retries just the rounds, from the first on, that fail neither on the daemon's hello nor
-- on the protocol and in which nobody closes the connection; each tells `starting` and
-- `unreachable`, and each takes one delay, with the bases of `backoff_base_secs` in their order from
-- the connection's counter on. The next round ends the loop: it tells nothing where the connection
-- is closed before it, `running` where it connects, which sets the counter to 0, `starting` alone
-- where the connection is closed behind its failure, `failed` where the hello or the protocol does
-- not fit, and `unreachable` where the delay is interrupted.
pub connect_loop-Paced :
    (rounds : List LoopRound) (l : Loop)
    → Paced (answers rounds l.exe_path) l (Connect.connect_loop rounds l)
unfolding Connect.connect_loop Connect.tries Connect.begun
connect_loop-Paced [] l =
    end-Paced l l [] [] 0 exhausted (sym (append-nil l.statuses)) (sym (append-nil l.waits))
connect_loop-Paced (r ∷ rounds) l =
    let next = Connect.backs_off (Connect.begun r l) in
    if-Paced r.shut_before (answers (r ∷ rounds) l.exe_path) l _ _
      (λ a.
        end-Paced l l (answers (r ∷ rounds) l.exe_path) [] 0 (closed a)
          (sym (append-nil l.statuses)) (sym (append-nil l.waits)))
      (λ a.
        round-Paced l (Connect.connect_loop rounds next) r (Connect.tries r l).result
          (answers rounds next.exe_path) a (connect_loop-Paced rounds next))
