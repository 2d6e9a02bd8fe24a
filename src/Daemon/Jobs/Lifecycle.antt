-- ===== src/Daemon/Jobs/Lifecycle.antt =====
-- What the threads around one job of crates/hitch-daemon/src/main.rs keep, whatever their order.
pub mod Starting
pub mod Working
pub mod Ends
pub mod Completes
use hitch.Prelude.{◌≡◌, ◌⊎◌, Bool, true, false, Option, none, some, List, [], ◌∷◌}
use hitch.Prelude.Assoc.{Assoc, contains_key}
use hitch.Core.Domain.{JobId}
use hitch.Daemon.Jobs
use hitch.Daemon.Jobs.{Work, Event, Response, JobStatus, Starter, Worker, JobRun}

-- The events but that which says that the job is running.
unfoldable pub reports : List Event → List Event
reports [] = []
reports (Jobs.job_progress id Jobs.running ∷ es) = reports es
reports (e ∷ es) = e ∷ reports es

-- The worker was released, and is neither gone before it was nor not there.
abbrev pub Released : Worker → Type 0
Released Jobs.unborn = ⊥
Released Jobs.abandoned = ⊥
Released _ = Unit

-- Where the worker can be, and what it was sent, for where the starter is.
abbrev pub Phase : Starter → Worker → Option Bool → Type 0
Phase Jobs.registering worker release = (worker ≡ Jobs.unborn) × (release ≡ none)
Phase Jobs.spawning worker release = (worker ≡ Jobs.unborn) × (release ≡ none)
Phase Jobs.replying worker release = (worker ≡ Jobs.waiting) × (release ≡ none)
Phase Jobs.refusing worker release = (worker ≡ Jobs.waiting) × (release ≡ none)
Phase Jobs.releasing worker release = (worker ≡ Jobs.waiting) × (release ≡ none)
Phase Jobs.announcing worker release = Released worker × (release ≡ some true)
Phase Jobs.launched worker release = Released worker × (release ≡ some true)
Phase Jobs.refused worker release =
    ((worker ≡ Jobs.unborn) × (release ≡ none))
    ⊎ ((worker ≡ Jobs.waiting) × (release ≡ some false))
    ⊎ (worker ≡ Jobs.abandoned)

-- Whether the registry has the job.
abbrev pub is_busy : Worker → Bool
is_busy Jobs.waiting = true
is_busy Jobs.working = true
is_busy (Jobs.finished result) = true
is_busy _ = false

abbrev pub is_registered : Starter → Worker → Bool
is_registered Jobs.registering worker = false
is_registered Jobs.spawning worker = true
is_registered Jobs.refusing worker = false
is_registered Jobs.refused worker = false
is_registered _ worker = is_busy worker

-- The end of the job: what `outcome` makes of the work, as cancelled only if somebody cancelled.
abbrev pub Outcome : Work → Bool → JobStatus → Response → Type 0
Outcome work was_cancelled status response =
    (b : Bool) × (b ≡ true → was_cancelled ≡ true)
    × (Jobs.outcome b (Jobs.caught work) ≡ (status, response))

-- The events of the worker, for where it is.
abbrev pub Told : JobId → Work → Bool → Worker → List Event → Type 0
Told id work was_cancelled (Jobs.finished result) es = (es ≡ []) × (result ≡ Jobs.caught work)
Told id work was_cancelled (Jobs.unregistered result) es = (es ≡ []) × (result ≡ Jobs.caught work)
Told id work was_cancelled (Jobs.completing response) es =
    (status : JobStatus) × Outcome work was_cancelled status response
    × (es ≡ Jobs.job_progress id status ∷ [])
Told id work was_cancelled Jobs.ended es =
    (status : JobStatus) × (response : Response) × Outcome work was_cancelled status response
    × (es ≡ Jobs.job_progress id status ∷ Jobs.job_completed id response ∷ [])
Told id work was_cancelled _ es = es ≡ []

pub record IsOrderly (id : JobId) (work : Work) (r : JobRun) : Type 0 where
  pub phase : Phase r.starter r.worker r.release
  pub entry : contains_key id r.jobs ≡ is_registered r.starter r.worker
  pub told : Told id work r.cancelled r.worker (reports r.events)
