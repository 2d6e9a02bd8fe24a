-- ===== src/Desktop/Router/Delivery/Runs.antt =====
-- The line of a session over all operations, and what a terminal loses.
use mathlib.Core.Path.{subst}
use hitch.Prelude.{
  ℕ, ◌≡◌, refl, ap, ◌∙◌, inl, inr, Bool, true, false, Option, none, some, List, [], ◌∷◌, append-nil,
  arith, Bytes, ◌==◌, if◌then◌else◌, Bool-cases, is_some,
}
use hitch.Prelude.Assoc.{get, remove, contains_key}
use hitch.Prelude.Keys.{get-insert_other, get-remove_other}
use hitch.Prelude.Text.{unwrap_or}
use hitch.Core.Domain.{SessionId}
use hitch.Desktop.Router
use hitch.Desktop.Router.{Message, OutputRouter, RouterOp}
use hitch.Desktop.Router.Delivery.{
  Line, new_line, Follows, follow, follow_all, told_to, told_to-append, line_send, line_register,
}
use hitch.Desktop.Router.Delivery.Own.{
  send_to-Follows, flush-Follows, prepare-Follows, drop-Follows, close-Follows,
}

-- What an operation on one session leaves to another.
record Spares (id : SessionId) (r r' : OutputRouter) : Type 0 where
  pub channel : get id r'.channels ≡ get id r.channels
  pub staged : get id r'.staging ≡ get id r.staging
  pub opened : get id r'.opened_sessions ≡ get id r.opened_sessions
  pub told : told_to id r'.sent ≡ told_to id r.sent

Spares-Follows :
    (id : SessionId) (r r' : OutputRouter) (l : Line)
    → Spares id r r'
    → Follows id r l
    → Follows id r' l
Spares-Follows id r r' l s f = record {
  channel = s.channel ∙ f.channel;
  staged = ap (unwrap_or []) s.staged ∙ f.staged;
  opened = ap is_some s.opened ∙ f.opened;
  told = s.told ∙ f.told;
}

module _ (k id : SessionId) (other : (k == id) ≡ false) where
  told-other :
      (channel : ℕ) (bytes : Bytes) (r : OutputRouter)
      → told_to id (Router.note k channel bytes r).sent ≡ told_to id r.sent
  told-other channel bytes r = told_to-append id r.sent _ ∙ rw (other, append-nil) refl

  stage-Spares : (payload : Bytes) (r : OutputRouter) → Spares id r (Router.stage k payload r)
  unfolding Router.stage
  stage-Spares payload r = record {
    channel = refl;
    staged = get-insert_other k id _ r.staging other;
    opened = refl;
    told = refl;
  }

  send_to-Spares :
      (takes : Bool) (payload : Bytes) (found : Option ℕ) (r : OutputRouter)
      → Spares id r (Router.send_to takes k payload found r)
  unfolding Router.send_to
  send_to-Spares takes payload none r = stage-Spares payload r
  send_to-Spares true payload (some channel) r = record {
    channel = refl;
    staged = refl;
    opened = refl;
    told = told-other channel payload r;
  }
  send_to-Spares false payload (some channel) r =
      let s = stage-Spares payload (record r { channels = remove k r.channels }) in
      record {
        channel = s.channel ∙ get-remove_other k id r.channels other;
        staged = s.staged;
        opened = s.opened;
        told = s.told;
      }

  flush-Spares :
      (takes : Bool) (channel : ℕ) (found : Option Bytes) (r : OutputRouter)
      → Spares id r (Router.flush takes k channel found r)
  unfolding Router.flush
  flush-Spares takes channel none r = record {
    channel = get-insert_other k id channel r.channels other;
    staged = refl;
    opened = refl;
    told = refl;
  }
  flush-Spares takes channel (some []) r = record {
    channel = get-insert_other k id channel r.channels other;
    staged = get-remove_other k id r.staging other;
    opened = refl;
    told = refl;
  }
  flush-Spares true channel (some (b ∷ bs)) r = record {
    channel = get-insert_other k id channel r.channels other;
    staged = get-remove_other k id r.staging other;
    opened = refl;
    told = told-other channel (b ∷ bs) r;
  }
  flush-Spares false channel (some (b ∷ bs)) r = record {
    channel = get-remove_other k id r.channels other;
    staged =
        get-insert_other k id (b ∷ bs) (remove k r.staging) other
        ∙ get-remove_other k id r.staging other;
    opened = refl;
    told = refl;
  }

  prepare-Spares : (r : OutputRouter) → Spares id r (Router.prepare_fresh_registration k r)
  unfolding Router.prepare_fresh_registration
  prepare-Spares r = record {
    channel = get-remove_other k id r.channels other;
    staged = staged (contains_key k r.opened_sessions);
    opened = get-insert_other k id tt r.opened_sessions other;
    told = refl;
  }
    where
      staged :
          (again : Bool)
          → get id (if again then remove k r.staging else r.staging) ≡ get id r.staging
      staged true = get-remove_other k id r.staging other
      staged false = refl

  close-Spares : (r : OutputRouter) → Spares id r (Router.close_session k r)
  unfolding Router.close_session
  close-Spares r = record {
    channel = get-remove_other k id r.channels other;
    staged = get-remove_other k id r.staging other;
    opened = get-remove_other k id r.opened_sessions other;
    told = refl;
  }

  unregister-Spares : (r : OutputRouter) → Spares id r (Router.unregister_channel k r)
  unfolding Router.unregister_channel
  unregister-Spares r = record {
    channel = get-remove_other k id r.channels other;
    staged = get-remove_other k id r.staging other;
    opened = refl;
    told = refl;
  }

apply-Follows :
    (id : SessionId) (op : RouterOp) (r : OutputRouter) (l : Line)
    → Follows id r l
    → Follows id (Router.apply op r) (follow id op l)
unfolding follow Router.send_or_stage Router.register_channel
apply-Follows id (Router.prepares k) r l f = elim (Bool-cases (k == id)) [
  | inl same ↦ let e : k ≡ id = ground (arith, same) in rw (same, e) (prepare-Follows id r l f)
  | inr other ↦ rw other (Spares-Follows id r _ l (prepare-Spares k id other r) f)
]
apply-Follows id (Router.sends takes k payload) r l f = elim (Bool-cases (k == id)) [
  | inl same ↦
      let e : k ≡ id = ground (arith, same) in
      rw (same, e)
        (subst
          (λ found.
            Follows id (Router.send_to takes id payload (get id r.channels) r)
              (line_send takes payload found l))
          f.channel (send_to-Follows takes id payload (get id r.channels) r l f))
  | inr other ↦
      rw other
        (Spares-Follows id r _ l (send_to-Spares k id other takes payload (get k r.channels) r) f)
]
apply-Follows id (Router.registers takes k channel) r l f = elim (Bool-cases (k == id)) [
  | inl same ↦
      let e : k ≡ id = ground (arith, same) in
      rw (same, e)
        (subst
          (λ staged.
            Follows id (Router.flush takes id channel (get id r.staging) r)
              (line_register takes channel staged l))
          f.staged (flush-Follows takes id channel (get id r.staging) r l refl f))
  | inr other ↦
      rw other
        (Spares-Follows id r _ l (flush-Spares k id other takes channel (get k r.staging) r) f)
]
apply-Follows id (Router.unregisters k) r l f = elim (Bool-cases (k == id)) [
  | inl same ↦ let e : k ≡ id = ground (arith, same) in rw (same, e) (drop-Follows id r l f)
  | inr other ↦ rw other (Spares-Follows id r _ l (unregister-Spares k id other r) f)
]
apply-Follows id (Router.closes k) r l f = elim (Bool-cases (k == id)) [
  | inl same ↦ let e : k ≡ id = ground (arith, same) in rw (same, e) (close-Follows id r l f)
  | inr other ↦ rw other (Spares-Follows id r _ l (close-Spares k id other r) f)
]

run-Follows :
    (id : SessionId) (ops : List RouterOp) (r : OutputRouter) (l : Line)
    → Follows id r l
    → Follows id (Router.run ops r) (follow_all id ops l)
run-Follows id [] r l f = f
run-Follows id (op ∷ ops) r l f =
    run-Follows id ops (Router.apply op r) (follow id op l) (apply-Follows id op r l f)

-- Over any operations on any sessions, each session's channel, its staged bytes, and what its
-- channels were told are those of its own line, which no other session moves, and of whose waiting
-- bytes the router holds the latest `OUTPUT_STAGING_CAPACITY`.
pub router_run-Follows :
    (id : SessionId) (ops : List RouterOp)
    → Follows id (Router.run ops Router.new) (follow_all id ops new_line)
router_run-Follows id ops = run-Follows id ops Router.new new_line (
    unfold get in
    unfold told_to in record { channel = refl; staged = refl; opened = refl; told = refl })
