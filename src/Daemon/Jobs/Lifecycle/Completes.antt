-- ===== src/Daemon/Jobs/Lifecycle/Completes.antt =====
-- A job that was started comes to its end.
use hitch.Prelude.{
  ℕ, suc, ◌-◌, ◌≤◌, ◌≡◌, refl, ◌∙◌, Bool, true, false, Option, some, List, [], ◌∷◌, ◌++◌, arith,
}
use hitch.Prelude.Assoc.{Assoc, contains_key, insert, get, remove}
use hitch.Core.Domain.{JobId}
use hitch.Daemon.Jobs
use hitch.Daemon.Jobs.{
  Work, Event, Response, JobStatus, Starter, Worker, JobRun, ActiveJob, CompositeJobState, Turn,
}
use hitch.Daemon.Jobs.Lifecycle.{reports, Released, Phase, is_registered, Outcome, Told, IsOrderly}
use hitch.Daemon.Jobs.Lifecycle.Ends.{run-IsOrderly, start-IsOrderly}

-- The turns that a worker has left.
abbrev pub remaining : Worker → ℕ
remaining Jobs.unborn = 0
remaining Jobs.waiting = 5
remaining Jobs.working = 4
remaining (Jobs.finished result) = 3
remaining (Jobs.unregistered result) = 2
remaining (Jobs.completing response) = 1
remaining Jobs.ended = 0
remaining Jobs.abandoned = 0

abbrev pub worker_turns : List Turn → ℕ
worker_turns [] = 0
worker_turns (Jobs.works ∷ ts) = suc (worker_turns ts)
worker_turns (t ∷ ts) = worker_turns ts

-- The thread that starts the job has let its worker go.
abbrev HasReleased : Starter → Type 0
HasReleased Jobs.announcing = Unit
HasReleased Jobs.launched = Unit
HasReleased _ = ⊥

record IsGoing (r : JobRun) : Type 0 where
  pub worker : Released r.worker
  pub release : r.release ≡ some true
  pub starter : HasReleased r.starter

start-IsGoing :
    (id : JobId) (composite : Option CompositeJobState) (succeeds : Bool) (starter : Starter)
    (r : JobRun)
    → HasReleased starter
    → Released r.worker
    → r.release ≡ some true
    → HasReleased
        (Jobs.start_step id composite succeeds starter (record r { starter = starter })).starter
      × ((Jobs.start_step id composite succeeds starter (record r { starter = starter })).worker
          ≡ r.worker)
      × ((Jobs.start_step id composite succeeds starter (record r { starter = starter })).release
          ≡ r.release)
unfolding Jobs.start_step
start-IsGoing id composite succeeds Jobs.announcing r h w e = (tt, refl, refl)
start-IsGoing id composite succeeds Jobs.launched r h w e = (tt, refl, refl)
start-IsGoing id composite succeeds Jobs.registering r h w e = absurd h
start-IsGoing id composite succeeds Jobs.spawning r h w e = absurd h
start-IsGoing id composite succeeds Jobs.replying r h w e = absurd h
start-IsGoing id composite succeeds Jobs.refusing r h w e = absurd h
start-IsGoing id composite succeeds Jobs.releasing r h w e = absurd h
start-IsGoing id composite succeeds Jobs.refused r h w e = absurd h

-- A turn of the released worker brings it one nearer to its end.
work_step-remaining :
    (id : JobId) (work : Work) (worker : Worker) (r : JobRun)
    → Released worker
    → r.release ≡ some true
    → let after = Jobs.work_step id work worker (record r { worker = worker }) in
      Released after.worker
      × (after.release ≡ some true)
      × (after.starter ≡ r.starter)
      × (remaining after.worker ≤ remaining worker - 1)
unfolding Jobs.work_step
work_step-remaining id work Jobs.unborn r h e = absurd h
work_step-remaining id work Jobs.waiting r h e = rw e (tt, refl, refl, omega arith)
work_step-remaining id work Jobs.working r h e = (tt, e, refl, omega arith)
work_step-remaining id work (Jobs.finished result) r h e = (tt, e, refl, omega arith)
work_step-remaining id work (Jobs.unregistered result) r h e = (tt, e, refl, omega arith)
work_step-remaining id work (Jobs.completing response) r h e = (tt, e, refl, omega arith)
work_step-remaining id work Jobs.ended r h e = (tt, e, refl, omega arith)
work_step-remaining id work Jobs.abandoned r h e = absurd h

no_more : (worker : Worker) → Released worker → remaining worker ≤ 0 → worker ≡ Jobs.ended
no_more Jobs.unborn h le = absurd h
no_more Jobs.waiting h le = absurd (omega arith)
no_more Jobs.working h le = absurd (omega arith)
no_more (Jobs.finished result) h le = absurd (omega arith)
no_more (Jobs.unregistered result) h le = absurd (omega arith)
no_more (Jobs.completing response) h le = absurd (omega arith)
no_more Jobs.ended h le = refl
no_more Jobs.abandoned h le = absurd h

remaining-le : (worker : Worker) → remaining worker ≤ 5
remaining-le Jobs.unborn = omega arith
remaining-le Jobs.waiting = omega arith
remaining-le Jobs.working = omega arith
remaining-le (Jobs.finished result) = omega arith
remaining-le (Jobs.unregistered result) = omega arith
remaining-le (Jobs.completing response) = omega arith
remaining-le Jobs.ended = omega arith
remaining-le Jobs.abandoned = omega arith

-- The turns of the others leave the worker where it is.
other-IsGoing :
    (r t : JobRun)
    → t.worker ≡ r.worker
    → t.release ≡ r.release
    → t.starter ≡ r.starter
    → IsGoing r
    → IsGoing t
other-IsGoing r t worker release starter g = record {
  worker = rw worker g.worker;
  release = release ∙ g.release;
  starter = rw starter g.starter;
}

run-ended :
    (id : JobId) (composite : Option CompositeJobState) (work : Work) (ts : List Turn) (r : JobRun)
    → IsGoing r
    → remaining r.worker ≤ worker_turns ts
    → let after = Jobs.run id composite work ts r in
      (after.worker ≡ Jobs.ended) × HasReleased after.starter
unfolding Jobs.step
run-ended id composite work [] r g le = (no_more r.worker g.worker le, g.starter)
run-ended id composite work (Jobs.works ∷ ts) r g le =
    let (worker, release, starter, fewer) =
      work_step-remaining id work r.worker r g.worker g.release in
    run-ended id composite work ts (Jobs.work_step id work r.worker r)
      (record { worker = worker; release = release; starter = rw starter g.starter })
      (omega (arith, fewer, le))
run-ended id composite work (Jobs.starts succeeds ∷ ts) r g le =
    let (starter, worker, release) =
      start-IsGoing id composite succeeds r.starter r g.starter g.worker g.release in
    run-ended id composite work ts (Jobs.start_step id composite succeeds r.starter r)
      (record { worker = rw worker g.worker; release = release ∙ g.release; starter = starter })
      (rw worker le)
run-ended id composite work (Jobs.finds ∷ ts) r g le =
    run-ended id composite work ts _ (other-IsGoing r _ refl refl refl g) le
run-ended id composite work (Jobs.cancels ∷ ts) r g le =
    run-ended id composite work ts _ (other-IsGoing r _ refl refl refl g) le
run-ended id composite work (Jobs.adds k job ∷ ts) r g le =
    let after = Jobs.step id composite work (Jobs.adds k job) r in
    let worker : after.worker ≡ r.worker = ground arith in
    run-ended id composite work ts after
      (other-IsGoing r after worker (ground arith) (ground arith) g) (rw worker le)
run-ended id composite work (Jobs.drops k ∷ ts) r g le =
    let after = Jobs.step id composite work (Jobs.drops k) r in
    let worker : after.worker ≡ r.worker = ground arith in
    run-ended id composite work ts after
      (other-IsGoing r after worker (ground arith) (ground arith) g) (rw worker le)

launched-IsGoing :
    (r : JobRun) → r.starter ≡ Jobs.launched → Phase r.starter r.worker r.release → IsGoing r
launched-IsGoing r e p =
    let (worker, release) : Phase Jobs.launched r.worker r.release = rw e at p in
    record { worker = worker; release = release; starter = rw e tt }

-- What is there at the end of a job.
abbrev pub HasEnded : JobId → Work → JobRun → Type 0
HasEnded id work r =
    (contains_key id r.jobs ≡ false)
    × (status : JobStatus) × (response : Response) × Outcome work r.cancelled status response
    × (reports r.events ≡ Jobs.job_progress id status ∷ Jobs.job_completed id response ∷ [])

released_ended :
    (starter : Starter) → HasReleased starter → is_registered starter Jobs.ended ≡ false
released_ended Jobs.announcing h = refl
released_ended Jobs.launched h = refl
released_ended Jobs.registering h = absurd h
released_ended Jobs.spawning h = absurd h
released_ended Jobs.replying h = absurd h
released_ended Jobs.refusing h = absurd h
released_ended Jobs.releasing h = absurd h
released_ended Jobs.refused h = absurd h

ended-HasEnded :
    (id : JobId) (work : Work) (r : JobRun)
    → HasReleased r.starter
    → r.worker ≡ Jobs.ended
    → IsOrderly id work r
    → HasEnded id work r
ended-HasEnded id work r released ended o =
    let told : Told id work r.cancelled Jobs.ended (reports r.events) = rw ended at o.told in
    let (status, response, outcome, es) = told in
    (o.entry ∙ rw ended (released_ended r.starter released), status, response, outcome, es)

-- Once a job was started, whatever the work answers and however the turns of all threads follow,
-- five turns of its worker bring its end: it is no longer in the registry, and its one answer was
-- broadcast behind its terminal status.
pub job_run-completes :
    (id : JobId) (composite : Option CompositeJobState) (work : Work) (jobs : Assoc ActiveJob)
    (before after : List Turn)
    → contains_key id jobs ≡ false
    → (Jobs.run id composite work before (Jobs.start_job jobs)).starter ≡ Jobs.launched
    → 5 ≤ worker_turns after
    → HasEnded id work
        (Jobs.run id composite work after (Jobs.run id composite work before (Jobs.start_job jobs)))
job_run-completes id composite work jobs before after fresh launched enough =
    let r = Jobs.run id composite work before (Jobs.start_job jobs) in
    let o =
      run-IsOrderly id composite work before (Jobs.start_job jobs)
        (start-IsOrderly id work jobs fresh) in
    let g = launched-IsGoing r launched o.phase in
    let (ended, released) =
      run-ended id composite work after r g (omega (arith, remaining-le r.worker, enough)) in
    ended-HasEnded id work (Jobs.run id composite work after r) released ended
      (run-IsOrderly id composite work after r o)

-- Whatever the work answers, the event that says that the job is running can come behind its
-- answer: the worker is released before that event is sent, and may end first.
pub job_run-running_last :
    (id : JobId) (composite : Option CompositeJobState) (work : Work)
    → (ts : List Turn) × (response : Response) × (before : List Event) × ((Jobs.run id composite
          work ts
          (Jobs.start_job [])).events
        ≡ before ++ Jobs.job_completed id response ∷ Jobs.job_progress id Jobs.running ∷ [])
unfolding Jobs.step insert get remove
job_run-running_last id composite work =
    let ok_turn = Jobs.starts true in
    let end = Jobs.outcome false (Jobs.caught work) in
    (
      ok_turn ∷ ok_turn ∷ ok_turn ∷ ok_turn ∷ Jobs.works ∷ Jobs.works ∷ Jobs.works ∷ Jobs.works
          ∷ Jobs.works ∷ ok_turn ∷ [],
      end.1,
      Jobs.job_progress id end.0 ∷ [],
      refl,
    )
