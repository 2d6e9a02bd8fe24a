-- ===== src/Daemon/Jobs/Lifecycle/Working.antt =====
-- A turn of the worker keeps the order.
use hitch.Prelude.{◌≡◌, refl, sym, ap, ◌∙◌, inl, inr, Bool, true, false, Option, none, some, List}
use hitch.Prelude.Assoc.{Assoc}
use hitch.Core.Domain.{JobId}
use hitch.Daemon.Jobs
use hitch.Daemon.Jobs.{
  Work, Event, Response, JobStatus, Starter, Worker, JobRun, ProtocolError, ActiveJob,
  CompositeJobState, Turn,
}
use hitch.Daemon.Jobs.Lifecycle.{reports, IsOrderly, Released, Phase, is_registered, is_busy}
use hitch.Daemon.Jobs.Lifecycle.Starting.{
  reports-append, outcome_reported, contains-remove_self, state,
}

-- The worker moves on from a place behind its release.
abbrev pub is_released : Worker → Bool
is_released Jobs.unborn = false
is_released Jobs.waiting = false
is_released Jobs.abandoned = false
is_released _ = true

advance :
    (starter : Starter) (before after : Worker) (release : Option Bool)
    → is_released before ≡ true
    → Released after
    → Phase starter before release
    → Phase starter after release
advance Jobs.registering before after release b a (p, q) = absurd (cc (rw p at b))
advance Jobs.spawning before after release b a (p, q) = absurd (cc (rw p at b))
advance Jobs.replying before after release b a (p, q) = absurd (cc (rw p at b))
advance Jobs.refusing before after release b a (p, q) = absurd (cc (rw p at b))
advance Jobs.releasing before after release b a (p, q) = absurd (cc (rw p at b))
advance Jobs.announcing before after release b a (p, q) = (a, q)
advance Jobs.launched before after release b a (p, q) = (a, q)
advance Jobs.refused before after release b a (inl (p, q)) = absurd (cc (rw p at b))
advance Jobs.refused before after release b a (inr (inl (p, q))) = absurd (cc (rw p at b))
advance Jobs.refused before after release b a (inr (inr p)) = absurd (cc (rw p at b))

-- Behind its release the registry has the job as the worker says.
registered :
    (starter : Starter) (worker : Worker) (release : Option Bool)
    → is_released worker ≡ true
    → Phase starter worker release
    → is_registered starter worker ≡ is_busy worker
registered Jobs.registering worker release b (p, q) = absurd (cc (rw p at b))
registered Jobs.spawning worker release b (p, q) = absurd (cc (rw p at b))
registered Jobs.replying worker release b (p, q) = refl
registered Jobs.refusing worker release b (p, q) = absurd (cc (rw p at b))
registered Jobs.releasing worker release b (p, q) = refl
registered Jobs.announcing worker release b (p, q) = refl
registered Jobs.launched worker release b (p, q) = refl
registered Jobs.refused worker release b (inl (p, q)) = absurd (cc (rw p at b))
registered Jobs.refused worker release b (inr (inl (p, q))) = absurd (cc (rw p at b))
registered Jobs.refused worker release b (inr (inr p)) = absurd (cc (rw p at b))

-- The worker's receive is answered by the release of a started job or by a refusal.
receive_true :
    (starter : Starter)
    → Phase starter Jobs.waiting (some true)
    → Phase starter Jobs.working (some true)
      × (is_registered starter Jobs.working ≡ is_registered starter Jobs.waiting)
receive_true Jobs.registering (p, q) = absurd (cc p)
receive_true Jobs.spawning (p, q) = absurd (cc p)
receive_true Jobs.replying (p, q) = absurd (cc q)
receive_true Jobs.refusing (p, q) = absurd (cc q)
receive_true Jobs.releasing (p, q) = absurd (cc q)
receive_true Jobs.announcing p = (p, refl)
receive_true Jobs.launched p = (p, refl)
receive_true Jobs.refused (inl (p, q)) = absurd (cc q)
receive_true Jobs.refused (inr (inl (p, q))) = absurd (cc q)
receive_true Jobs.refused (inr (inr p)) = absurd (cc p)

receive_false :
    (starter : Starter) → Phase starter Jobs.waiting (some false) → starter ≡ Jobs.refused
receive_false Jobs.registering (p, q) = absurd (cc p)
receive_false Jobs.spawning (p, q) = absurd (cc p)
receive_false Jobs.replying (p, q) = absurd (cc q)
receive_false Jobs.refusing (p, q) = absurd (cc q)
receive_false Jobs.releasing (p, q) = absurd (cc q)
receive_false Jobs.announcing (p, q) = absurd (cc q)
receive_false Jobs.launched (p, q) = absurd (cc q)
receive_false Jobs.refused p = refl

module _ (id : JobId) (work : Work) (jobs : Assoc ActiveJob) (cancelled held : Bool) where
  receive_fields :
      (release : Option Bool) (starter : Starter) (events : List Event)
      → IsOrderly id work (state jobs cancelled held release starter Jobs.waiting events)
      → IsOrderly id work
          (Jobs.receive id release (state jobs cancelled held release starter Jobs.waiting events))
  unfolding Jobs.receive
  receive_fields none starter events o = o
  receive_fields (some true) starter events o =
      let (phase, entry) = receive_true starter o.phase in
      record { phase = phase; entry = o.entry ∙ sym entry; told = o.told }
  receive_fields (some false) starter events o =
      rw (receive_false starter o.phase)
        (record { phase = inr (inr refl); entry = contains-remove_self id jobs; told = o.told })

  pub work_fields :
      (release : Option Bool) (starter : Starter) (worker : Worker) (events : List Event)
      → IsOrderly id work (state jobs cancelled held release starter worker events)
      → IsOrderly id work
          (Jobs.work_step id work worker (state jobs cancelled held release starter worker events))
  unfolding Jobs.work_step
  work_fields release starter Jobs.unborn events o = o
  work_fields release starter Jobs.waiting events o = receive_fields release starter events o
  work_fields release starter Jobs.working events o =
      let there = registered starter Jobs.working release refl o.phase in
      let phase =
        advance starter Jobs.working (Jobs.finished (Jobs.caught work)) release refl tt o.phase in
      record {
        phase = phase;
        entry =
            o.entry
            ∙ there
            ∙ sym (registered starter (Jobs.finished (Jobs.caught work)) release refl phase);
        told = (o.told, refl);
      }
  work_fields release starter (Jobs.finished result) events o =
      let phase =
        advance starter (Jobs.finished result) (Jobs.unregistered result) release refl tt o.phase in
      record {
        phase = phase;
        entry =
            contains-remove_self id jobs
            ∙ sym (registered starter (Jobs.unregistered result) release refl phase);
        told = o.told;
      }
  work_fields release starter (Jobs.unregistered result) events o =
      let end = Jobs.outcome cancelled result in
      let phase =
        advance starter (Jobs.unregistered result) (Jobs.completing end.1) release refl tt
          o.phase in
      let there = registered starter (Jobs.unregistered result) release refl o.phase in
      record {
        phase = phase;
        entry =
            o.entry ∙ there ∙ sym (registered starter (Jobs.completing end.1) release refl phase);
        told = (
          end.0,
          (cancelled, λ e. e, ap (Jobs.outcome cancelled) (sym o.told.1)),
          reports-append events (Jobs.job_progress id end.0)
              ∙ rw (o.told.0) (outcome_reported id cancelled result),
        );
      }
  work_fields release starter (Jobs.completing response) events o =
      let phase = advance starter (Jobs.completing response) Jobs.ended release refl tt o.phase in
      let there = registered starter (Jobs.completing response) release refl o.phase in
      record {
        phase = phase;
        entry = o.entry ∙ there ∙ sym (registered starter Jobs.ended release refl phase);
        told = (
          o.told.0,
          response,
          o.told.1,
          reports-append events (Jobs.job_completed id response)
              ∙ rw (o.told.2) (unfold reports in refl),
        );
      }
  work_fields release starter Jobs.ended events o = o
  work_fields release starter Jobs.abandoned events o = o
