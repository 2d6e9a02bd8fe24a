-- ===== src/Daemon/Composite/Order.antt =====
-- The order of what the chains of crates/hitch-daemon/src/main.rs do, and what their answers tell.
pub mod Push
pub mod CreatePr
pub mod Base
use hitch.Prelude.{
  ℕ, suc, ◌≡◌, refl, Bool, true, false, ◌&&◌, none, List, [], ◌∷◌, ◌++◌, if◌then◌else◌, is_some,
  Result, ok, err,
}
use hitch.Daemon.Jobs
use hitch.Daemon.Jobs.{ProtocolError, CompositeStep, CompositeJobKind, CompositeJobResult, Response}
use hitch.Daemon.Composite
use hitch.Daemon.Composite.{Effect, Answers}

abbrev pub IsPrefix : List Effect → List Effect → Type 0
IsPrefix es whole = (rest : List Effect) × (es ++ rest ≡ whole)

-- How often the chain committed, and how often it pushed.
unfoldable pub commits : List Effect → ℕ
commits [] = 0
commits (Composite.committed ∷ es) = suc (commits es)
commits (e ∷ es) = commits es

unfoldable pub pushes : List Effect → ℕ
pushes [] = 0
pushes (Composite.pushed ∷ es) = suc (pushes es)
pushes (e ∷ es) = pushes es

-- What an answer of `commit-and-push` says of what was done.
abbrev pub FailedAt : CompositeStep → CompositeJobResult → List Effect → Type 0
FailedAt Jobs.staging result es = (commits es ≡ 0) × (pushes es ≡ 0) × (result.commit ≡ none)
FailedAt Jobs.drafting result es = (commits es ≡ 0) × (pushes es ≡ 0) × (result.commit ≡ none)
FailedAt Jobs.committing result es = (pushes es ≡ 0) × (result.commit ≡ none)
FailedAt Jobs.pushing result es =
    (commits es ≡ 1) × (pushes es ≡ 0) × (is_some result.commit ≡ true)
FailedAt Jobs.creating_pr result es = ⊥

abbrev pub Told : Result ProtocolError Response → List Effect → Type 0
Told (ok (Jobs.commit_and_pushed commit)) es = (commits es ≡ 1) × (pushes es ≡ 1)
Told (ok (Jobs.composite_job_failed kind step reason result)) es = FailedAt step result es
Told (ok (Jobs.error e)) es = ⊥
Told (ok (Jobs.pull_request_created url)) es = ⊥
Told (ok (Jobs.other n)) es = ⊥
Told (err e) es = pushes es ≡ 0

abbrev pub step_of : CompositeStep → List Effect → List Effect
step_of step work =
    Composite.composite_job_progress step Composite.started ∷ work
    ++ Composite.composite_job_progress step Composite.finished ∷ []

-- That no entry of a status is staged.
abbrev pub unstaged : List Bool → Bool
unstaged [] = true
unstaged (is_staged ∷ entries) = (if is_staged then false else true) && unstaged entries

-- Whether the chain comes to stage and it works: there is something to commit, and none of it is
-- staged already.
abbrev pub itself :
    Result ProtocolError (Unit {0})
    → Result ProtocolError (List Bool)
    → Result ProtocolError (Unit {0})
    → Bool
itself (ok _) (ok (entry ∷ entries)) (ok _) = unstaged (entry ∷ entries)
itself _ _ _ = false

abbrev pub stages_itself : Answers → Bool
stages_itself w = itself w.context w.status w.stages

pub any_staged-unstaged :
    (entries : List Bool)
    → Composite.any_staged entries ≡ (if unstaged entries then false else true)
unfolding Composite.any_staged
any_staged-unstaged [] = refl
any_staged-unstaged (true ∷ entries) = refl
any_staged-unstaged (false ∷ entries) = any_staged-unstaged entries

-- The whole of a chain; `own` is whether the staging was the chain's own.
abbrev pub staging_part : Bool → List Effect
staging_part own = step_of Jobs.staging (if own then Composite.staged ∷ [] else [])

abbrev pub commit_part : List Effect
commit_part =
    Composite.dirty ∷ step_of Jobs.drafting []
    ++ step_of Jobs.committing (Composite.committed ∷ [])
    ++ Composite.dirty ∷ step_of Jobs.pushing (Composite.pushed ∷ [])
