-- ===== src/Daemon/Jobs/Lifecycle/Starting.antt =====
-- A turn of the thread that starts the job keeps the order.
use hitch.Prelude.{
  ℕ, ◌≡◌, refl, inl, inr, Bool, true, false, Option, List, [], ◌∷◌, ◌++◌, append-nil, arith, Result,
  ok, err,
}
use hitch.Prelude.Assoc.{Assoc, insert, remove, contains_key, get-insert, get-remove}
use hitch.Core.Domain.{JobId}
use hitch.Daemon.Jobs
use hitch.Daemon.Jobs.{
  Work, Event, Response, JobStatus, Starter, Worker, JobRun, ProtocolError, ActiveJob,
  CompositeJobState, Turn,
}
use hitch.Daemon.Jobs.Lifecycle.{reports, Told, IsOrderly}

pub reports-append :
    (es : List Event) (e : Event) → reports (es ++ e ∷ []) ≡ reports es ++ reports (e ∷ [])
unfolding reports
reports-append [] e = refl
reports-append (Jobs.job_progress id Jobs.running ∷ es) e = reports-append es e
reports-append (Jobs.job_progress id Jobs.queued ∷ es) e = cc (reports-append es e)
reports-append (Jobs.job_progress id Jobs.succeeded ∷ es) e = cc (reports-append es e)
reports-append (Jobs.job_progress id Jobs.failed ∷ es) e = cc (reports-append es e)
reports-append (Jobs.job_progress id Jobs.cancelled ∷ es) e = cc (reports-append es e)
reports-append (Jobs.job_completed id response ∷ es) e = cc (reports-append es e)

-- A job does not end as running.
pub outcome_reported :
    (id : JobId) (b : Bool) (result : Result ProtocolError Response)
    → reports (Jobs.job_progress id (Jobs.outcome b result).0 ∷ [])
      ≡ Jobs.job_progress id (Jobs.outcome b result).0 ∷ []
unfolding reports Jobs.outcome
outcome_reported id b (ok response) = refl
outcome_reported id true (err e) = refl
outcome_reported id false (err e) = refl

module _ (id : JobId) (work : Work) where
  -- A cancel that comes later changes nothing of what was told.
  pub Told-cancel :
      (before after : Bool) (worker : Worker) (es : List Event)
      → (before ≡ true → after ≡ true)
      → Told id work before worker es
      → Told id work after worker es
  Told-cancel before after Jobs.unborn es grows t = t
  Told-cancel before after Jobs.waiting es grows t = t
  Told-cancel before after Jobs.working es grows t = t
  Told-cancel before after (Jobs.finished result) es grows t = t
  Told-cancel before after (Jobs.unregistered result) es grows t = t
  Told-cancel before after (Jobs.completing response) es grows (status, (b, c, e), told) =
      (status, (b, λ h. grows (c h), e), told)
  Told-cancel before after Jobs.ended es grows (status, response, (b, c, e), told) =
      (status, response, (b, λ h. grows (c h), e), told)
  Told-cancel before after Jobs.abandoned es grows t = t

contains-insert_self :
    (k : ℕ) (v : ActiveJob) (m : Assoc ActiveJob) → contains_key k (insert k v m) ≡ true
contains-insert_self k v m = ground (arith, get-insert k k v m)

pub contains-remove_self : (k : ℕ) (m : Assoc ActiveJob) → contains_key k (remove k m) ≡ false
contains-remove_self k m = ground (arith, get-remove k k m)

abbrev pub state :
    Assoc ActiveJob → Bool → Bool → Option Bool → Starter → Worker → List Event → JobRun
state jobs cancelled held release starter worker events = record {
  jobs = jobs;
  cancelled = cancelled;
  held = held;
  release = release;
  starter = starter;
  worker = worker;
  events = events;
}

module _ (id : JobId) (composite : Option CompositeJobState) (work : Work) (jobs : Assoc ActiveJob)
    (cancelled held : Bool) where
  pub start_fields :
      (succeeds : Bool) (release : Option Bool) (starter : Starter) (worker : Worker)
      (events : List Event)
      → IsOrderly id work (state jobs cancelled held release starter worker events)
      → IsOrderly id work (
          Jobs.start_step id composite succeeds starter
            (state jobs cancelled held release starter worker events))
  unfolding Jobs.start_step reports
  start_fields succeeds release Jobs.registering worker events o = record {
    phase = o.phase;
    entry = contains-insert_self id _ jobs;
    told = o.told;
  }
  start_fields true release Jobs.spawning worker events o = record {
    phase = (refl, o.phase.1);
    entry = o.entry;
    told = rw o.phase.0 at o.told;
  }
  start_fields false release Jobs.spawning worker events o = record {
    phase = inl o.phase;
    entry = contains-remove_self id jobs;
    told = o.told;
  }
  start_fields true release Jobs.replying worker events o = record {
    phase = o.phase;
    entry = o.entry;
    told = o.told;
  }
  start_fields false release Jobs.replying worker events o = record {
    phase = o.phase;
    entry = contains-remove_self id jobs;
    told = o.told;
  }
  start_fields succeeds release Jobs.refusing worker events o = record {
    phase = inr (inl (o.phase.0, refl));
    entry = o.entry;
    told = o.told;
  }
  start_fields succeeds release Jobs.releasing worker events o = rw o.phase.0 (record {
    phase = (tt, refl);
    entry = rw o.phase.0 at o.entry;
    told = rw o.phase.0 at o.told;
  })
  start_fields succeeds release Jobs.announcing worker events o = record {
    phase = o.phase;
    entry = o.entry;
    told = rw (reports-append events (Jobs.job_progress id Jobs.running), append-nil) o.told;
  }
  start_fields succeeds release Jobs.launched worker events o = o
  start_fields succeeds release Jobs.refused worker events o = o
