-- ===== src/Daemon/Composite/Order/CreatePr.antt =====
-- The chain `create-pr`.
use hitch.Prelude.{
  ℕ, suc, ◌≡◌, refl, Bool, true, false, Option, none, some, List, [], ◌∷◌, ◌++◌, if◌then◌else◌,
  Result, ok, err,
}
use Prim.Native.String.{String}
use hitch.Prelude.Text.{Text, is_empty, is_whitespace, trim_start, trim_end}
use hitch.Daemon.Uploads
use hitch.Daemon.Jobs
use hitch.Daemon.Jobs.{ProtocolError, Response, CompositeStep}
use hitch.Daemon.Composite
use hitch.Daemon.Composite.{Effect, Answers}
use hitch.Daemon.Composite.Order.{IsPrefix, pushes, step_of}
use hitch.Daemon.Composite.Order.Base.{is_blank, trimmed-blank}

-- How many pull requests the chain made.
unfoldable pub created : List Effect → ℕ
created [] = 0
created (Composite.pr_created ∷ es) = suc (created es)
created (e ∷ es) = created es

abbrev FailedAt : CompositeStep → List Effect → Type 0
FailedAt Jobs.pushing es = (pushes es ≡ 0) × (created es ≡ 0)
FailedAt Jobs.drafting es = created es ≡ 0
FailedAt Jobs.creating_pr es = (pushes es ≡ 1) × (created es ≡ 0)
FailedAt Jobs.staging es = ⊥
FailedAt Jobs.committing es = ⊥

-- What an answer of `create-pr` says of what was done.
abbrev pub Told : Result ProtocolError Response → List Effect → Type 0
Told (ok (Jobs.pull_request_created url)) es = (pushes es ≡ 1) × (created es ≡ 1)
Told (ok (Jobs.composite_job_failed kind step reason result)) es = FailedAt step es
Told (ok (Jobs.error e)) es = ⊥
Told (ok (Jobs.commit_and_pushed commit)) es = ⊥
Told (ok (Jobs.other n)) es = ⊥
Told (err e) es = (pushes es ≡ 1) × (created es ≡ 0)

abbrev pub create_part : List Effect
create_part =
    step_of Jobs.pushing (Composite.pushed ∷ [])
    ++ step_of Jobs.drafting []
    ++ step_of Jobs.creating_pr (Composite.pr_created ∷ [])

abbrev pub Good : Result ProtocolError Response × List Effect → Type 0
Good (answer, es) = IsPrefix es create_part × Told answer es

chain_fields :
    (w : Answers) (context pushes_ok pr_draft : Result ProtocolError (Unit {0}))
    (creates : Result ProtocolError String) (first second : Bool)
    → Good (
        Composite.answered Jobs.pull_request_created (
          Composite.create_pr_chain
            (record w {
              context = context;
              pushes = pushes_ok;
              pr_draft = pr_draft;
              creates = creates;
              cancelled_first = first;
              cancelled_second = second;
            })
            []))
unfolding Composite.create_pr_chain created pushes
chain_fields w (err e) p d c first second = ((_, refl), (refl, refl))
chain_fields w (ok _) (err e) d c first second = ((_, refl), (refl, refl))
chain_fields w (ok _) (ok _) d c true second = ((_, refl), (refl, refl))
chain_fields w (ok _) (ok _) (err e) c false second = ((_, refl), refl)
chain_fields w (ok _) (ok _) (ok _) c false true = ((_, refl), (refl, refl))
chain_fields w (ok _) (ok _) (ok _) (err e) false false = ((_, refl), (refl, refl))
chain_fields w (ok _) (ok _) (ok _) (ok url) false false = ((_, refl), (refl, refl))

-- What comes of a base that is blank, or is not.
abbrev pub WithBase : Bool → Result ProtocolError Response × List Effect → Type 0
WithBase false out = Good out
WithBase true out = out ≡ (
  ok (
      Jobs.composite_job_failed Jobs.create_pr Jobs.drafting Uploads.invalid_request
        (record { commit = none })),
  [],
)

if-WithBase :
    (blank : Bool) (w : Answers) (base : Text)
    → WithBase blank (
        Composite.with_base w (
          if blank
          then err (record { code = Uploads.invalid_request; retryable = false })
          else ok base))
if-WithBase true w base = refl
if-WithBase false w base =
    chain_fields w w.context w.pushes w.pr_draft w.creates w.cancelled_first w.cancelled_second

-- Where the base is missing or is white space alone, `create-pr` fails as in drafting, with
-- `invalid_request`, and does nothing. With any other base, whatever git, gh, the provider and the
-- cancels answer, it does a prefix of its steps in their order, and its answer tells what was done:
-- success is one push and one pull request; a failure in pushing, neither; a failure in drafting, no
-- pull request; a failure in creating or a cancel, one push and no pull request.
pub run_create_pr-tells :
    (base : Option Text) (w : Answers) → WithBase (is_blank base) (Composite.run_create_pr base w)
unfolding Composite.run_create_pr Composite.normalize_pr_base
run_create_pr-tells none w = refl
run_create_pr-tells (some base) w = rw (← trimmed-blank base) (
    if-WithBase (is_empty (trim_end is_whitespace (trim_start is_whitespace base))) w
      (trim_end is_whitespace (trim_start is_whitespace base)))
