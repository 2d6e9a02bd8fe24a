-- ===== src/Daemon/Jobs/Lifecycle/Ends.antt =====
-- What is told of a job, and that it is told, under every interleaving.
use hitch.Prelude.{
  ◌≡◌, refl, ap, ◌∙◌, inl, inr, Bool, true, false, ◌||◌, Option, List, [], ◌∷◌, arith, ◌==◌,
  Bool-cases, is_some,
}
use hitch.Prelude.Assoc.{Assoc, contains_key, get-insert, get-remove}
use hitch.Core.Domain.{JobId}
use hitch.Daemon.Jobs
use hitch.Daemon.Jobs.{
  Work, Event, Response, JobStatus, Starter, Worker, JobRun, ProtocolError, ActiveJob,
  CompositeJobState, Turn,
}
use hitch.Daemon.Jobs.Lifecycle.{reports, IsOrderly}
use hitch.Daemon.Jobs.Lifecycle.Starting.{Told-cancel, start_fields}
use hitch.Daemon.Jobs.Lifecycle.Working.{work_fields}

or-left : (a b : Bool) → a ≡ true → (a || b) ≡ true
or-left a b h = ground (arith, h)

step-IsOrderly :
    (id : JobId) (composite : Option CompositeJobState) (work : Work) (t : Turn) (r : JobRun)
    → IsOrderly id work r
    → IsOrderly id work (Jobs.step id composite work t r)
unfolding Jobs.step
step-IsOrderly id composite work (Jobs.starts succeeds) r o =
    start_fields id composite work r.jobs r.cancelled r.held succeeds r.release r.starter r.worker
      r.events o
step-IsOrderly id composite work Jobs.works r o =
    work_fields id work r.jobs r.cancelled r.held r.release r.starter r.worker r.events o
step-IsOrderly id composite work Jobs.finds r o = record {
  phase = o.phase;
  entry = o.entry;
  told = o.told;
}
step-IsOrderly id composite work Jobs.cancels r o = record {
  phase = o.phase;
  entry = o.entry;
  told =
      Told-cancel id work r.cancelled (r.cancelled || r.held) r.worker (reports r.events)
        (or-left r.cancelled r.held) o.told;
}
step-IsOrderly id composite work (Jobs.adds k job) r o = elim (Bool-cases (k == id)) [
  | inl same ↦ rw same o
  | inr differs ↦ rw differs (record {
    phase = o.phase;
    entry = ap is_some (get-insert k id job r.jobs) ∙ rw differs o.entry;
    told = o.told;
  })
]
step-IsOrderly id composite work (Jobs.drops k) r o = elim (Bool-cases (k == id)) [
  | inl same ↦ rw same o
  | inr differs ↦ rw differs (record {
    phase = o.phase;
    entry = ap is_some (get-remove k id r.jobs) ∙ rw differs o.entry;
    told = o.told;
  })
]

pub run-IsOrderly :
    (id : JobId) (composite : Option CompositeJobState) (work : Work) (ts : List Turn) (r : JobRun)
    → IsOrderly id work r
    → IsOrderly id work (Jobs.run id composite work ts r)
run-IsOrderly id composite work [] r o = o
run-IsOrderly id composite work (t ∷ ts) r o =
    run-IsOrderly id composite work ts (Jobs.step id composite work t r)
      (step-IsOrderly id composite work t r o)

pub start-IsOrderly :
    (id : JobId) (work : Work) (jobs : Assoc ActiveJob)
    → contains_key id jobs ≡ false
    → IsOrderly id work (Jobs.start_job jobs)
unfolding reports
start-IsOrderly id work jobs fresh = record { phase = (refl, refl); entry = fresh; told = refl }

-- Under any interleaving of the thread that starts a job with a new id, its worker, those who cancel
-- and the other jobs: the registry has the job from its registration to the end of its work or its
-- refusal, and the events of its worker are none, or its terminal status, or that and then its
-- answer, as `outcome` gives them for the work; the status is `Cancelled` only if the job was
-- cancelled and its work failed.
pub job_run-IsOrderly :
    (id : JobId) (composite : Option CompositeJobState) (work : Work) (jobs : Assoc ActiveJob)
    (ts : List Turn)
    → contains_key id jobs ≡ false
    → IsOrderly id work (Jobs.run id composite work ts (Jobs.start_job jobs))
job_run-IsOrderly id composite work jobs ts fresh =
    run-IsOrderly id composite work ts (Jobs.start_job jobs) (start-IsOrderly id work jobs fresh)
