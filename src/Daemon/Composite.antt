-- ===== src/Daemon/Composite.antt =====
-- The composite chains of crates/hitch-daemon/src/main.rs: `CompositeContext::run_step`,
-- `run_commit_and_push`, `run_create_pr`, and the steps that they call. What git, gh, the disk and
-- the draft provider answer is an argument; what the chain does is recorded in order.
pub mod Order
use hitch.Prelude.{
  ℕ, ◌-◌, ◌^◌, min, Bool, true, false, ◌||◌, Option, none, some, List, [], ◌∷◌, ◌++◌, ◌==◌,
  if◌then◌else◌, take, Result, ok, err,
}
use Prim.Native.String.{String}
use hitch.Prelude.Text.{Text, is_empty, is_whitespace, trim_start, trim_end}
use hitch.Daemon.Uploads
use hitch.Daemon.Jobs
use hitch.Daemon.Jobs.{
  ProtocolError, CompositeStep, CompositeJobKind, CommitAndPushResult, CompositeJobResult, Response,
}

pub data StepPhase : Type 0 where
  started finished : StepPhase

-- What a chain does: it tells of a step, tells that a worktree changed, or has git, gh or the
-- provider do something that succeeds.
pub data Effect : Type 0 where
  composite_job_progress : CompositeStep → StepPhase → Effect
  dirty staged committed pushed pr_created : Effect

-- A chain goes on with a value, or returns early with its answer.
abbrev pub Chain : Type 0 → Type 0
Chain A = List Effect → Result (Result ProtocolError Response) A × List Effect

abbrev after :
    {A B : Type 0}
    → (A → Chain B)
    → Result (Result ProtocolError Response) A × List Effect
    → Result (Result ProtocolError Response) B × List Effect
after f (ok a, effects) = f a effects
after f (err answer, effects) = (err answer, effects)

infixl 5 ◌>>=◌ ◌>>◌
abbrev pub ◌>>=◌ : {A B : Type 0} → Chain A → (A → Chain B) → Chain B
◌>>=◌ m f effects = after f (m effects)

abbrev pub ◌>>◌ : {A B : Type 0} → Chain A → Chain B → Chain B
m >> k = m >>= λ _. k

abbrev emit : Effect → Chain (Unit {0})
emit e effects = (ok tt, effects ++ e ∷ [])

abbrev yield_value : {A : Type 0} → A → Chain A
yield_value a effects = (ok a, effects)

-- The chain's value becomes its answer; an early return is one.
abbrev answered :
    {A : Type 0}
    → (A → Response)
    → Result (Result ProtocolError Response) A × List Effect
    → Result ProtocolError Response × List Effect
answered f (ok a, effects) = (ok (f a), effects)
answered f (err result, effects) = (result, effects)

-- A step's own work, with what it does.
abbrev pub Rung : Type 0 → Type 0
Rung A = List Effect → Result ProtocolError A × List Effect

abbrev pub composite_failed :
    CompositeJobKind → CompositeStep → ProtocolError → CompositeJobResult → Response
composite_failed kind failed_step reason result =
    Jobs.composite_job_failed kind failed_step reason.code result

step_result :
    {A : Type 0}
    → CompositeJobKind
    → CompositeStep
    → CompositeJobResult
    → Result ProtocolError A × List Effect
    → Result (Result ProtocolError Response) A × List Effect
step_result kind step on_error (ok value, effects) =
    (ok value, effects ++ composite_job_progress step finished ∷ [])
step_result kind step on_error (err e, effects) =
    (err (ok (composite_failed kind step e on_error)), effects)

-- `run_step` and the macro `step!`.
unfoldable pub run_step :
    {A : Type 0} → CompositeJobKind → CompositeStep → CompositeJobResult → Rung A → Chain A
unfolding step_result
run_step kind step on_error work effects =
    step_result kind step on_error (work (effects ++ composite_job_progress step started ∷ []))

-- `if ctx.is_cancelled() { return Err(cancelled_error()); }`
unfoldable pub check_cancel : Bool → Chain (Unit {0})
check_cancel false effects = (ok tt, effects)
check_cancel true effects =
    (err (err (record { code = Uploads.unavailable; retryable = true })), effects)

abbrev pub default_result : CompositeJobResult
default_result = record { commit = none }

-- An external call: it fails, or it succeeds and is recorded.
unfoldable pub act : {A : Type 0} → Result ProtocolError A → Effect → Rung A
act (ok a) e effects = (ok a, effects ++ e ∷ [])
act (err error) e effects = (err error, effects)

unfoldable pub any_staged : List Bool → Bool
any_staged [] = false
any_staged (is_staged ∷ entries) = is_staged || any_staged entries

-- For each entry of the status whether it is staged; and what `stage_files` answers.
unfoldable pub stage_for_commit_and_push :
    Result ProtocolError (List Bool) → Result ProtocolError (Unit {0}) → Rung (Unit {0})
unfolding any_staged act
stage_for_commit_and_push (err e) stages effects = (err e, effects)
stage_for_commit_and_push (ok []) stages effects =
    (err (record { code = Uploads.invalid_request; retryable = false }), effects)
stage_for_commit_and_push (ok (entry ∷ entries)) stages effects =
    if any_staged (entry ∷ entries) then (ok tt, effects) else act stages staged effects

-- The repository behind the commit: the head, the number of files of its diff where that can be
-- read, and the commits ahead of upstream, 0 where there is none.
pub record Head : Type 0 where
  pub head_commit_id : Option Text
  pub files : Option ℕ
  pub ahead : ℕ

pub record CommitDraft : Type 0 where
  pub subject : String
  pub body : Text

abbrev short : Option Text → Text
short none = []
short (some sha) = take 7 sha

abbrev file_count : Option Text → Option ℕ → ℕ
file_count none files = 0
file_count (some sha) none = 0
file_count (some sha) (some n) = min n (2 ^ 32 - 1)

abbrev describe : CommitDraft → Head → CommitAndPushResult
describe draft head = record {
  subject = draft.subject;
  short_sha = short head.head_commit_id;
  pushed_commits = if head.ahead == 0 then 1 else head.ahead;
  file_count = file_count head.head_commit_id head.files;
}

abbrev described :
    CommitDraft → Result ProtocolError Head → Result ProtocolError CommitAndPushResult
described draft (ok head) = ok (describe draft head)
described draft (err e) = err e

-- The commit, and then the reading back, which can fail when the commit is made.
unfoldable pub commit_and_describe :
    Result ProtocolError (Unit {0})
    → Result ProtocolError Head
    → CommitDraft
    → Rung CommitAndPushResult
commit_and_describe (err e) head draft effects = (err e, effects)
commit_and_describe (ok _) head draft effects = (described draft head, effects ++ committed ∷ [])

-- What the world answers to a chain; `is_cancelled` are the answers at its cancel checks.
pub record Answers : Type 0 where
  pub context : Result ProtocolError (Unit {0})
  pub status : Result ProtocolError (List Bool)
  pub stages : Result ProtocolError (Unit {0})
  pub draft : Result ProtocolError CommitDraft
  pub commits : Result ProtocolError (Unit {0})
  pub head : Result ProtocolError Head
  pub pushes : Result ProtocolError (Unit {0})
  pub pr_draft : Result ProtocolError (Unit {0})
  pub creates : Result ProtocolError String
  pub cancelled_first : Bool
  pub cancelled_second : Bool
  pub cancelled_third : Bool

-- A step that only reads: nothing is recorded.
abbrev reads : {A : Type 0} → Result ProtocolError A → Rung A
reads result effects = (result, effects)

unfoldable pub in_context : {A : Type 0} → Result ProtocolError (Unit {0}) → Rung A → Rung A
in_context (err e) work effects = (err e, effects)
in_context (ok _) work effects = work effects

-- The step that stages, and the steps behind it.
unfoldable pub stage_rung : Answers → Chain (Unit {0})
unfolding run_step stage_for_commit_and_push in_context
stage_rung w =
    run_step Jobs.commit_and_push Jobs.staging default_result
      (in_context w.context (stage_for_commit_and_push w.status w.stages))

unfoldable pub commit_rungs : Answers → Chain CommitAndPushResult
unfolding run_step check_cancel commit_and_describe act
commit_rungs w = do
  emit dirty
  check_cancel w.cancelled_first
  draft ← run_step Jobs.commit_and_push Jobs.drafting default_result (reads w.draft)
  check_cancel w.cancelled_second
  commit ←
      run_step Jobs.commit_and_push Jobs.committing default_result
        (commit_and_describe w.commits w.head draft)
  emit dirty
  check_cancel w.cancelled_third
  run_step Jobs.commit_and_push Jobs.pushing (record { commit = some commit }) (act w.pushes pushed)
  yield_value commit

unfoldable pub commit_and_push_chain : Answers → Chain CommitAndPushResult
unfolding stage_rung commit_rungs
commit_and_push_chain w = stage_rung w >> commit_rungs w

unfoldable pub run_commit_and_push : Answers → Result ProtocolError Response × List Effect
unfolding commit_and_push_chain
run_commit_and_push w = answered Jobs.commit_and_pushed (commit_and_push_chain w [])

-- A base that is missing or blank.
abbrev not_blank : Text → Result ProtocolError Text
not_blank base =
    if is_empty base
    then err (record { code = Uploads.invalid_request; retryable = false })
    else ok base

unfoldable pub normalize_pr_base : Option Text → Result ProtocolError Text
unfolding trim_end trim_start is_empty
normalize_pr_base none = err (record { code = Uploads.invalid_request; retryable = false })
normalize_pr_base (some base) = not_blank (trim_end is_whitespace (trim_start is_whitespace base))

-- The call that creates the pull request is given the base.
unfoldable pub create_pr_chain : Answers → Chain String
unfolding run_step check_cancel act in_context
create_pr_chain w = do
  run_step Jobs.create_pr Jobs.pushing default_result (in_context w.context (act w.pushes pushed))
  check_cancel w.cancelled_first
  run_step Jobs.create_pr Jobs.drafting default_result (reads w.pr_draft)
  check_cancel w.cancelled_second
  run_step Jobs.create_pr Jobs.creating_pr default_result (act w.creates pr_created)

abbrev with_base : Answers → Result ProtocolError Text → Result ProtocolError Response × List Effect
with_base w (err e) = (ok (composite_failed Jobs.create_pr Jobs.drafting e default_result), [])
with_base w (ok base) = answered Jobs.pull_request_created (create_pr_chain w [])

unfoldable pub run_create_pr : Option Text → Answers → Result ProtocolError Response × List Effect
unfolding create_pr_chain normalize_pr_base
run_create_pr base w = with_base w (normalize_pr_base base)
