-- ===== src/Daemon/Replay/Chunks.antt =====
-- One session's bytes among the writes to a client.
use mathlib.Core.List.{flatten}
use hitch.Prelude.{
  ℕ, ◌≡◌, refl, sym, ap, ◌∙◌, inl, inr, true, false, List, [], ◌∷◌, ◌++◌, append-nil, append_assoc,
  arith, Bytes, ◌==◌, Bool-cases, length, All,
}
use hitch.Prelude.Assoc.{Assoc}
use hitch.Core.Domain.{SessionId}
use hitch.Terminal.Log.{replay_snapshot, chunks_of}
use hitch.Daemon.Replay.{replay_items}

chunks_of-append :
    (s : ℕ) (xs ys : List (ℕ × Bytes)) → chunks_of s (xs ++ ys) ≡ chunks_of s xs ++ chunks_of s ys
chunks_of-append s [] ys = refl
chunks_of-append s ((id, bytes) ∷ xs) ys = ground (arith, chunks_of-append s xs ys)

flatten-append : (xs ys : List Bytes) → flatten (xs ++ ys) ≡ flatten xs ++ flatten ys
unfolding flatten
flatten-append [] ys = refl
flatten-append (x ∷ xs) ys =
    rw (flatten-append xs ys) (sym (append_assoc x (flatten xs) (flatten ys)))

-- The bytes of one session.
abbrev pub bytes_of : SessionId → List (SessionId × Bytes) → Bytes
bytes_of s events = flatten (chunks_of s events)

pub bytes_of-append :
    (s : SessionId) (xs ys : List (SessionId × Bytes))
    → bytes_of s (xs ++ ys) ≡ bytes_of s xs ++ bytes_of s ys
bytes_of-append s xs ys =
    ap flatten (chunks_of-append s xs ys) ∙ flatten-append (chunks_of s xs) (chunks_of s ys)

-- No session of the list has this id.
abbrev pub Without : SessionId → List (SessionId × Bytes) → Type 0
Without s sessions = All (λ entry. (entry.0 == s) ≡ false) sessions

replay_items-append :
    (xs ys : List (SessionId × Bytes)) (logs : Assoc Bytes)
    → replay_items (xs ++ ys) logs ≡ replay_items xs logs ++ replay_items ys logs
unfolding replay_items
replay_items-append [] ys logs = refl
replay_items-append ((id, restored) ∷ xs) ys logs = ground (arith, replay_items-append xs ys logs)

bytes_of-Without :
    (s : SessionId) (sessions : List (SessionId × Bytes)) (logs : Assoc Bytes)
    → Without s sessions
    → bytes_of s (replay_items sessions logs) ≡ []
unfolding replay_items flatten
bytes_of-Without s [] logs w = refl
bytes_of-Without s ((id, restored) ∷ sessions) logs w =
    let scrollback = replay_snapshot id restored logs in
    elim (Bool-cases (length scrollback == 0)) [
      | inl none_there ↦ rw none_there (bytes_of-Without s sessions logs w.1)
      | inr some_there ↦ rw (some_there, w.0) (bytes_of-Without s sessions logs w.1)
    ]

empty_bytes : (bytes : Bytes) → (length bytes == 0) ≡ true → bytes ≡ []
empty_bytes [] e = refl
empty_bytes (b ∷ bytes) e = absurd (ground (arith, e))

bytes_of-one :
    (s : SessionId) (restored : Bytes) (logs : Assoc Bytes)
    → bytes_of s (replay_items ((s, restored) ∷ []) logs) ≡ replay_snapshot s restored logs
unfolding replay_items flatten
bytes_of-one s restored logs =
    let scrollback = replay_snapshot s restored logs in
    let same : (s == s) ≡ true = ground arith in
    elim (Bool-cases (length scrollback == 0)) [
      | inl none_there ↦ rw none_there (sym (empty_bytes scrollback none_there))
      | inr some_there ↦ rw (some_there, same) (append-nil scrollback)
    ]

pub bytes_of-replay_items :
    (s : SessionId) (restored : Bytes) (front back : List (SessionId × Bytes)) (logs : Assoc Bytes)
    → Without s front
    → Without s back
    → bytes_of s (replay_items (front ++ (s, restored) ∷ back) logs)
      ≡ replay_snapshot s restored logs
bytes_of-replay_items s restored front back logs f b =
    ap (bytes_of s) (replay_items-append front ((s, restored) ∷ back) logs)
    ∙ bytes_of-append s (replay_items front logs) (replay_items ((s, restored) ∷ back) logs)
    ∙ ap (λ xs. xs ++ bytes_of s (replay_items ((s, restored) ∷ back) logs))
        (bytes_of-Without s front logs f)
    ∙ ap (bytes_of s) (replay_items-append ((s, restored) ∷ []) back logs)
    ∙ bytes_of-append s (replay_items ((s, restored) ∷ []) logs) (replay_items back logs)
    ∙ ap (λ xs. bytes_of s (replay_items ((s, restored) ∷ []) logs) ++ xs)
        (bytes_of-Without s back logs b)
    ∙ append-nil _
    ∙ bytes_of-one s restored logs
