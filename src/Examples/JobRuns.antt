-- ===== src/Examples/JobRuns.antt =====
-- Runs of the jobs and of the composite chains of crates/hitch-daemon/src/main.rs.
use hitch.Prelude.Assoc.{get, insert}
use hitch.Prelude.{◌≡◌, refl, true, false, none, some, List, [], ◌∷◌, ◌++◌, arith, ok, err}
use hitch.Daemon.Uploads
use hitch.Daemon.Jobs
use hitch.Daemon.Jobs.{ProtocolError, Work, Turn, JobRun, Event, Response}
use hitch.Daemon.Jobs.Lifecycle.{IsOrderly}
use hitch.Daemon.Jobs.Lifecycle.Ends.{job_run-IsOrderly}
use hitch.Daemon.Jobs.Lifecycle.Completes.{HasEnded, job_run-completes, job_run-running_last}
use hitch.Daemon.Composite
use hitch.Daemon.Composite.{Answers}
use hitch.Daemon.Composite.Order.Push
use hitch.Daemon.Composite.Order.Base.{is_blank}
use hitch.Daemon.Composite.Order.CreatePr.{WithBase, run_create_pr-tells}

abbrev git_failed : ProtocolError
git_failed = record { code = Uploads.git_failed; retryable = false }

abbrev fails : Work
fails = Jobs.returned (err git_failed)

abbrev up_to_launch : List Turn
up_to_launch =
    Jobs.starts true
    ∷ Jobs.starts true
    ∷ Jobs.starts true
    ∷ Jobs.finds
    ∷ Jobs.starts true
    ∷ Jobs.cancels
    ∷ Jobs.starts true
    ∷ []

abbrev five_turns : List Turn
five_turns = Jobs.works ∷ Jobs.works ∷ Jobs.drops 9 ∷ Jobs.works ∷ Jobs.works ∷ Jobs.works ∷ []

abbrev launched_run : JobRun
launched_run = Jobs.run 4 none fails up_to_launch (Jobs.start_job [])

launched_run-launched : launched_run.starter ≡ Jobs.launched
unfolding Jobs.step
launched_run-launched = refl

job_run-IsOrderly_example : IsOrderly 4 fails launched_run
unfolding get
job_run-IsOrderly_example = job_run-IsOrderly 4 none fails [] up_to_launch refl

job_run-completes_example : HasEnded 4 fails (Jobs.run 4 none fails five_turns launched_run)
unfolding get
job_run-completes_example =
    job_run-completes 4 none fails [] up_to_launch five_turns refl launched_run-launched
      (omega arith)

-- A job that was cancelled and whose work failed is told as cancelled.
cancelled_run :
    (Jobs.run 4 none fails five_turns launched_run).events
    ≡ Jobs.job_progress 4 Jobs.running
      ∷ Jobs.job_progress 4 Jobs.cancelled
      ∷ Jobs.job_completed 4 (Jobs.error (record { code = Uploads.unavailable; retryable = true }))
      ∷ []
unfolding Jobs.step Jobs.outcome Jobs.caught get insert
cancelled_run = refl

job_run-running_last_example :
    (ts : List Turn) × (response : Response) × (before : List Event) × ((Jobs.run 4 none fails ts
        (Jobs.start_job [])).events
      ≡ before ++ Jobs.job_completed 4 response ∷ Jobs.job_progress 4 Jobs.running ∷ [])
job_run-running_last_example = job_run-running_last 4 none fails

-- Everything works but the push.
abbrev no_push : Answers
no_push = record {
  context = ok tt;
  status = ok (false ∷ false ∷ []);
  stages = ok tt;
  draft = ok (record { subject = "fix"; body = [] });
  commits = ok tt;
  head = ok (record { head_commit_id = none; files = none; ahead = 0 });
  pushes = err git_failed;
  pr_draft = ok tt;
  creates = ok "url";
  cancelled_first = false;
  cancelled_second = false;
  cancelled_third = false;
}

run_create_pr-tells_example :
    WithBase (is_blank (some (b' ' ∷ []))) (Composite.run_create_pr (some (b' ' ∷ [])) no_push)
run_create_pr-tells_example = run_create_pr-tells (some (b' ' ∷ [])) no_push
