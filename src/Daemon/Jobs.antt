-- ===== src/Daemon/Jobs.antt =====
-- The harness of a job in crates/hitch-daemon/src/main.rs: `start_job_inner` and its worker's thread,
-- `CancelJob`, `cancel_active_jobs`, and the types of crates/hitch-proto/src/message.rs that a job
-- answers with. A step is what a thread does between two locks. Messages are left out of errors, and
-- the process tree that a cancel ends is not modelled: what the work answers is an argument.
pub mod Lifecycle
use hitch.Prelude.{
  ℕ, Bool, true, false, ◌||◌, Option, none, some, List, [], ◌∷◌, ◌++◌, ◌==◌, if◌then◌else◌, Result,
  ok, err,
}
use Prim.Native.String.{String}
use hitch.Prelude.Assoc.{Assoc, get, insert, remove, contains_key}
use hitch.Prelude.Text.{Text}
use hitch.Core.Domain.{JobId, WorktreeId}
use hitch.Daemon.Uploads.{ErrorCode}
use hitch.Daemon.Uploads

pub record ProtocolError : Type 0 where
  pub code : ErrorCode
  pub retryable : Bool

pub data CompositeStep : Type 0 where
  staging drafting committing pushing creating_pr : CompositeStep

pub data CompositeJobKind : Type 0 where
  commit_and_push create_pr : CompositeJobKind

pub record CommitAndPushResult : Type 0 where
  pub subject : String
  pub short_sha : Text
  pub pushed_commits : ℕ
  pub file_count : ℕ

pub record CompositeJobResult : Type 0 where
  pub commit : Option CommitAndPushResult

-- `Response`; the answers that no composite chain gives are numbered.
pub data Response : Type 0 where
  error : ProtocolError → Response
  commit_and_pushed : CommitAndPushResult → Response
  pull_request_created : String → Response
  composite_job_failed :
      CompositeJobKind → CompositeStep → ErrorCode → CompositeJobResult → Response
  other : ℕ → Response

pub data JobStatus : Type 0 where
  queued running succeeded failed cancelled : JobStatus

pub data Event : Type 0 where
  job_progress : JobId → JobStatus → Event
  job_completed : JobId → Response → Event

pub record CompositeJobState : Type 0 where
  pub worktree_id : WorktreeId
  pub kind : CompositeJobKind
  pub step : CompositeStep

-- The control that the registry shares with the worker is `JobRun.cancelled`.
pub record ActiveJob : Type 0 where
  pub composite : Option CompositeJobState

-- What `work` did: it answered, or it panicked.
pub data Work : Type 0 where
  returned : Result ProtocolError Response → Work
  panicked : Work

-- `catch_unwind`
unfoldable pub caught : Work → Result ProtocolError Response
caught (returned result) = result
caught panicked = err (record { code = Uploads.internal; retryable = false })

unfoldable pub outcome : Bool → Result ProtocolError Response → JobStatus × Response
outcome was_cancelled (ok response) = (succeeded, response)
outcome true (err e) = (cancelled, error (record { code = Uploads.unavailable; retryable = true }))
outcome false (err e) = (failed, error e)

-- The thread that starts the job.
pub data Starter : Type 0 where
  registering spawning replying refusing releasing announcing : Starter
  launched refused : Starter

-- The worker: not there, waiting for its release, and on its way.
pub data Worker : Type 0 where
  unborn waiting working : Worker
  finished : Result ProtocolError Response → Worker
  unregistered : Result ProtocolError Response → Worker
  completing : Response → Worker
  ended abandoned : Worker

-- One job among the others of the registry. `release` is what `start_tx` was sent, `held` whether
-- somebody who wants to cancel has the job's control, and `events` what was broadcast for the job.
pub record JobRun : Type 0 where
  pub jobs : Assoc ActiveJob
  pub cancelled : Bool
  pub held : Bool
  pub release : Option Bool
  pub starter : Starter
  pub worker : Worker
  pub events : List Event

-- The worker's end of the channel is there.
abbrev pub is_listening : Worker → Bool
is_listening unborn = false
is_listening ended = false
is_listening abandoned = false
is_listening _ = true

unfoldable pub start_step : JobId → Option CompositeJobState → Bool → Starter → JobRun → JobRun
start_step id composite succeeds registering r = record r {
  jobs = insert id (record { composite = composite }) r.jobs;
  starter = spawning;
}
start_step id composite true spawning r = record r { worker = waiting; starter = replying }
start_step id composite false spawning r = record r { jobs = remove id r.jobs; starter = refused }
start_step id composite true replying r = record r { starter = releasing }
start_step id composite false replying r = record r { jobs = remove id r.jobs; starter = refusing }
start_step id composite succeeds refusing r = record r { release = some false; starter = refused }
start_step id composite succeeds releasing r =
    if is_listening r.worker
    then record r { release = some true; starter = announcing }
    else record r { jobs = remove id r.jobs; starter = refused }
start_step id composite succeeds announcing r = record r {
  events = r.events ++ job_progress id running ∷ [];
  starter = launched;
}
start_step id composite succeeds launched r = r
start_step id composite succeeds refused r = r

-- The worker's receive: it waits for as long as nothing was sent.
unfoldable pub receive : JobId → Option Bool → JobRun → JobRun
receive id none r = r
receive id (some true) r = record r { worker = working }
receive id (some false) r = record r { jobs = remove id r.jobs; worker = abandoned }

unfoldable pub report : JobId → JobStatus × Response → JobRun → JobRun
report id (status, response) r = record r {
  events = r.events ++ job_progress id status ∷ [];
  worker = completing response;
}

unfoldable pub work_step : JobId → Work → Worker → JobRun → JobRun
unfolding receive report
work_step id work unborn r = r
work_step id work waiting r = receive id r.release r
work_step id work working r = record r { worker = finished (caught work) }
work_step id work (finished result) r = record r {
  jobs = remove id r.jobs;
  worker = unregistered result;
}
work_step id work (unregistered result) r = report id (outcome r.cancelled result) r
work_step id work (completing response) r = record r {
  events = r.events ++ job_completed id response ∷ [];
  worker = ended;
}
work_step id work ended r = r
work_step id work abandoned r = r

-- A turn of the starter, of the worker, of one who cancels, or of another job.
pub data Turn : Type 0 where
  starts : Bool → Turn
  works : Turn
  finds : Turn
  cancels : Turn
  adds : JobId → ActiveJob → Turn
  drops : JobId → Turn

-- The job has its own id: the turns of the others do not touch its entry.
unfoldable pub step : JobId → Option CompositeJobState → Work → Turn → JobRun → JobRun
unfolding start_step work_step
step id composite work (starts succeeds) r = start_step id composite succeeds r.starter r
step id composite work works r = work_step id work r.worker r
step id composite work finds r = record r { held = r.held || contains_key id r.jobs }
step id composite work cancels r = record r { cancelled = r.cancelled || r.held }
step id composite work (adds k job) r =
    if k == id then r else record r { jobs = insert k job r.jobs }
step id composite work (drops k) r = if k == id then r else record r { jobs = remove k r.jobs }

abbrev pub run : JobId → Option CompositeJobState → Work → List Turn → JobRun → JobRun
run id composite work [] r = r
run id composite work (t ∷ ts) r = run id composite work ts (step id composite work t r)

abbrev pub start_job : Assoc ActiveJob → JobRun
start_job jobs = record {
  jobs = jobs;
  cancelled = false;
  held = false;
  release = none;
  starter = registering;
  worker = unborn;
  events = [];
}
