-- ===== src/Daemon/Writer/Shed.antt =====
-- What `enqueue` sheds under backpressure, and what it never sheds.
use hitch.Prelude.{
  ℕ, zero, suc, ◌+◌, ◌-◌, ◌≤◌, ◌<◌, ◌≡◌, refl, ap, ◌∙◌, ◌⊎◌, inl, inr, true, none, some, List, [],
  ◌∷◌, ◌++◌, arith, ltb, if◌then◌else◌, ltb→ge, ltb→lt, Bool-cases, Option-cases, length,
}
use mathlib.Core.List.{Sublist, sublist-cons_self}
use mathlib.Core.List.Sublist
use hitch.Daemon.Writer.{OutboundFrame, remove_droppable, shed, client_outbound_cap_bytes}

abbrev pub total : List OutboundFrame → ℕ
total [] = 0
total (f ∷ fs) = length f.bytes + total fs

pub total-append : (xs ys : List OutboundFrame) → total (xs ++ ys) ≡ total xs + total ys
total-append [] ys = omega arith
total-append (x ∷ xs) ys = omega (arith, total-append xs ys)

-- The frames that must be delivered, and those that may be shed, each in order.
abbrev pub controls : List OutboundFrame → List OutboundFrame
controls [] = []
controls (f ∷ fs) = let rest = controls fs in if f.droppable then rest else f ∷ rest

abbrev pub outputs : List OutboundFrame → List OutboundFrame
outputs [] = []
outputs (f ∷ fs) = let rest = outputs fs in if f.droppable then f ∷ rest else rest

pub controls-append :
    (xs ys : List OutboundFrame) → controls (xs ++ ys) ≡ controls xs ++ controls ys
controls-append [] ys = refl
controls-append (x ∷ xs) ys = ground (arith, controls-append xs ys)

outputs-append : (xs ys : List OutboundFrame) → outputs (xs ++ ys) ≡ outputs xs ++ outputs ys
outputs-append [] ys = refl
outputs-append (x ∷ xs) ys = ground (arith, outputs-append xs ys)

record Removed (frames : List OutboundFrame) (f : OutboundFrame) (rest : List OutboundFrame)
    : Type 0 where
  droppable : f.droppable ≡ true
  among : Sublist rest frames
  same_controls : controls rest ≡ controls frames
  oldest : outputs frames ≡ f ∷ outputs rest
  total_is : total frames ≡ length f.bytes + total rest
  shorter : length frames ≡ suc (length rest)

remove_droppable-Removed :
    (frames : List OutboundFrame) {f : OutboundFrame} {rest : List OutboundFrame}
    → remove_droppable frames ≡ some (f, rest)
    → Removed frames f rest
unfolding remove_droppable
remove_droppable-Removed [] e = cc
remove_droppable-Removed (g ∷ gs) {f} {rest} e = elim (Bool-cases g.droppable) [
  | inl here ↦ record {
    droppable = ground arith;
    among = ground (arith, sublist-cons_self g gs);
    same_controls = ground arith;
    oldest = ground arith;
    total_is = ground arith;
    shorter = ground arith;
  }
  | inr later ↦ elim (Option-cases (remove_droppable gs)) [
    | inl nothing ↦ ground (arith, later, nothing)
    | inr ((h, hs), found) ↦
        let r = remove_droppable-Removed gs {f = h} {rest = hs} found in
        record {
          droppable = ground (arith, r.droppable);
          among = ground (arith, Sublist.cons-cons g r.among);
          same_controls = ground (arith, r.same_controls);
          oldest = ground (arith, r.oldest);
          total_is = ground (arith, r.total_is);
          shorter = ground (arith, r.shorter);
        }
  ]
]

remove_droppable-none :
    (frames : List OutboundFrame) → remove_droppable frames ≡ none → outputs frames ≡ []
unfolding remove_droppable
remove_droppable-none [] e = refl
remove_droppable-none (g ∷ gs) e = elim (Option-cases (remove_droppable gs)) [
  | inl nothing ↦ ground (arith, remove_droppable-none gs nothing)
  | inr ((h, hs), found) ↦ ground (arith, found)
]

-- Shedding stopped no later than it had to: with the last dropped frame still there, the frames
-- would be over the cap.
abbrev pub IsNeeded : List OutboundFrame → ℕ → Type 0
IsNeeded [] bytes = Unit
IsNeeded (f ∷ []) bytes = client_outbound_cap_bytes < bytes + length f.bytes
IsNeeded (f ∷ g ∷ gs) bytes = IsNeeded (g ∷ gs) bytes

IsNeeded-cons :
    (f : OutboundFrame) (dropped : List OutboundFrame) (bytes : ℕ)
    → client_outbound_cap_bytes < bytes + (total dropped + length f.bytes)
    → IsNeeded dropped bytes
    → IsNeeded (f ∷ dropped) bytes
IsNeeded-cons f [] bytes over n = omega arith
IsNeeded-cons f (g ∷ gs) bytes over n = n

-- What `shed` keeps of the frames, and the oldest droppable frames that it drops.
pub record Shed (frames : List OutboundFrame) (kept : List OutboundFrame) (bytes : ℕ) : Type 0 where
  pub same_controls : controls kept ≡ controls frames
  pub dropped : List OutboundFrame
  pub oldest : outputs frames ≡ dropped ++ outputs kept
  pub among : Sublist kept frames
  pub needed : IsNeeded dropped bytes
  pub parted : total frames ≡ bytes + total dropped
  pub counted : bytes ≡ total kept
  pub bounded : (bytes ≤ client_outbound_cap_bytes) ⊎ (outputs kept ≡ [])

pub shed-Shed :
    (fuel : ℕ) (frames : List OutboundFrame) (bytes : ℕ)
    → bytes ≡ total frames
    → length frames < fuel
    → Shed frames ((shed fuel frames bytes).0) ((shed fuel frames bytes).1)
unfolding shed
shed-Shed zero frames bytes e p = absurd (omega (arith, p))
shed-Shed (suc fuel) frames bytes e p = elim (Bool-cases (ltb client_outbound_cap_bytes bytes)) [
  | inl over ↦ elim (Option-cases (remove_droppable frames)) [
    | inl nothing ↦
        rw (over, nothing)
          (record {
            same_controls = refl;
            dropped = [];
            among = Sublist.refl frames;
            needed = tt;
            parted = omega (arith, e);
            oldest = refl;
            counted = e;
            bounded = inr (remove_droppable-none frames nothing);
          })
    | inr ((f, rest), found) ↦
        let r = remove_droppable-Removed frames found in
        let bytes' = bytes - length f.bytes in
        let s =
          shed-Shed fuel rest bytes' (omega (arith, e, r.total_is)) (omega (arith, p, r.shorter)) in
        rw (over, found)
          (record {
            same_controls = s.same_controls ∙ r.same_controls;
            dropped = f ∷ s.dropped;
            among = Sublist.trans s.among r.among;
            needed =
                IsNeeded-cons f s.dropped _
                  (omega (arith, e, r.total_is, s.parted, ltb→lt _ _ over)) s.needed;
            parted = omega (arith, r.total_is, s.parted);
            oldest = r.oldest ∙ ap (λ xs. f ∷ xs) s.oldest;
            counted = s.counted;
            bounded = s.bounded;
          })
  ]
  | inr within ↦ rw (within) (record {
    same_controls = refl;
    dropped = [];
    among = Sublist.refl frames;
    needed = tt;
    parted = omega (arith, e);
    oldest = refl;
    counted = e;
    bounded = inl (ltb→ge client_outbound_cap_bytes bytes within);
  })
]
