-- ===== src/AgentHooks/Again/Files.antt =====
-- The whole settings file: installing a second time changes no hook and no other setting.
use hitch.Prelude.{
  ◌≡◌, refl, sym, ap, ◌∙◌, inl, inr, Bool, true, false, Option, none, some, List, if◌then◌else◌,
  Bool-cases, ok,
}
use hitch.Prelude.Text.{Text, text_eq, text_eq_iff}
use hitch.AgentHooks.Json
use hitch.AgentHooks.Json.{
  Value, Values, Members, get_member, insert_member, as_array, as_object, is_nil, get-insert_same,
  get-insert_else,
}
use hitch.AgentHooks.Install
use hitch.AgentHooks.Install.{AgentKind}
use hitch.AgentHooks.Again.Groups.{AreOurs, prune-ours, prune-merge}
use hitch.AgentHooks.Again.Events.{
  is_listed, Distinct, pruned, pruned-pruned, get-prune_events, merge_found, merged,
  get-merge_members,
}

-- The hooks of one event of a settings file.
abbrev pub in_hooks : Text → Option Value → Option Value
in_hooks e (some (Json.object hooks)) = get_member e hooks
in_hooks e _ = none

abbrev pub event_hooks : Text → Members → Option Value
event_hooks e base = in_hooks e (get_member Install.hooks_key base)

-- Any other setting of the file.
abbrev pub beside_hooks : Text → Members → Option Value
beside_hooks k base = if text_eq Install.hooks_key k then none else get_member k base

module _ (agent : AgentKind) (events : List Text) where
  -- An overlay as Hitch writes it: each event is pruned, and has groups of Hitch's own commands.
  abbrev pub IsOverlay : Members → Type 0
  IsOverlay Json.done = Unit {0}
  IsOverlay (Json.member e v overlay) =
      ((is_listed e events ≡ true)
        × ((groups : Values) × (v ≡ Json.array groups) × AreOurs agent groups))
      × IsOverlay overlay

  overlay-event :
      (e : Text) (v : Value) (overlay : Members)
      → IsOverlay overlay
      → get_member e overlay ≡ some v
      → (is_listed e events ≡ true)
        × ((groups : Values) × (v ≡ Json.array groups) × AreOurs agent groups)
  unfolding get_member
  overlay-event e v Json.done os h = absurd (cc h)
  overlay-event e v (Json.member k w overlay) ((listed, (groups, array, ours)), os) h =
      elim (Bool-cases (text_eq k e)) [
        | inl same ↦
            let k≡e : k ≡ e = (text_eq_iff k e).0 same in
            let w≡v : w ≡ v = cc (rw same at h) in
            (rw k≡e at listed, (groups, sym w≡v ∙ array, ours))
        | inr other ↦ overlay-event e v overlay os (rw other at h)
      ]

  -- One installation, as one event sees it.
  abbrev pub step : Bool → Option Value → Option Value → Option Value
  step listed new x = merged new (if listed then pruned agent x else x)

  array-step :
      (groups : Values) (x : Option Value)
      → AreOurs agent groups
      → step true (some (Json.array groups)) (step true (some (Json.array groups)) x)
        ≡ step true (some (Json.array groups)) x
  unfolding Install.merge_preserving_existing
  array-step groups none ours = rw (prune-ours agent groups ours) refl
  array-step groups (some Json.null) ours = rw (prune-ours agent groups ours) refl
  array-step groups (some (Json.bool b)) ours = refl
  array-step groups (some (Json.number t)) ours = refl
  array-step groups (some (Json.string t)) ours = refl
  array-step groups (some (Json.object m)) ours = refl
  array-step groups (some (Json.array others)) ours =
      elim (Bool-cases (is_nil (Install.prune_groups agent others))) [
        | inl gone ↦ rw (gone, prune-ours agent groups ours) refl
        | inr stays ↦ rw (stays, prune-merge agent others groups ours, stays) refl
      ]

  step-step :
      (e : Text) (new : Option Value) (overlay : Members) (x : Option Value)
      → IsOverlay overlay
      → get_member e overlay ≡ new
      → step (is_listed e events) new (step (is_listed e events) new x)
        ≡ step (is_listed e events) new x
  step-step e none overlay x os h = settled (is_listed e events)
    where
      settled : (listed : Bool) → step listed none (step listed none x) ≡ step listed none x
      settled true = pruned-pruned agent x
      settled false = refl
  step-step e (some v) overlay x os h =
      let (listed, (groups, array, ours)) = overlay-event e v overlay os h in
      rw (listed, array) (array-step groups x ours)

  step-fresh : (listed : Bool) (new : Option Value) → step listed new none ≡ new
  unfolding Install.merge_preserving_existing
  step-fresh true none = refl
  step-fresh false none = refl
  step-fresh true (some v) = refl
  step-fresh false (some v) = refl

  overlay-step :
      (e : Text) (overlay : Members)
      → IsOverlay overlay
      → step (is_listed e events) (get_member e overlay) (get_member e overlay)
        ≡ get_member e overlay
  overlay-step e overlay os =
      let new = get_member e overlay in
      let fresh = step-fresh (is_listed e events) new in
      ap (step (is_listed e events) new) (sym fresh) ∙ step-step e new overlay none os refl ∙ fresh

  -- What an installation makes of the value of `hooks`.
  abbrev pruned_hooks : Option Value → Option Members → Option Value
  pruned_hooks x none = x
  pruned_hooks x (some hooks) = some (Json.object (Install.prune_events agent events hooks))

  abbrev installed_hooks : Members → Option Value → Option Value
  installed_hooks overlay x =
      some (merge_found (pruned_hooks x (as_object x)) (Json.object overlay))

  hooks-object :
      (e : Text) (overlay hooks : Members)
      → Distinct overlay
      → in_hooks e (installed_hooks overlay (some (Json.object hooks)))
        ≡ step (is_listed e events) (get_member e overlay) (get_member e hooks)
  unfolding Install.merge_preserving_existing
  hooks-object e overlay hooks d =
      get-merge_members e (Install.prune_events agent events hooks) overlay d
      ∙ ap (merged (get_member e overlay)) (get-prune_events agent e events hooks)

  hooks-hooks :
      (e : Text) (overlay : Members) (x : Option Value)
      → Distinct overlay
      → IsOverlay overlay
      → in_hooks e (installed_hooks overlay (installed_hooks overlay x))
        ≡ in_hooks e (installed_hooks overlay x)
  unfolding Install.merge_preserving_existing
  hooks-hooks e overlay none d os = hooks-object e overlay overlay d ∙ overlay-step e overlay os
  hooks-hooks e overlay (some Json.null) d os =
      hooks-object e overlay overlay d ∙ overlay-step e overlay os
  hooks-hooks e overlay (some (Json.bool b)) d os = refl
  hooks-hooks e overlay (some (Json.number t)) d os = refl
  hooks-hooks e overlay (some (Json.string t)) d os = refl
  hooks-hooks e overlay (some (Json.array vs)) d os = refl
  hooks-hooks e overlay (some (Json.object hooks)) d os =
      let once = Install.merge_members (Install.prune_events agent events hooks) overlay in
      let first = hooks-object e overlay hooks d in
      hooks-object e overlay once d
      ∙ ap (step (is_listed e events) (get_member e overlay)) first
      ∙ step-step e (get_member e overlay) overlay (get_member e hooks) os refl
      ∙ sym first

  -- The members of the file behind an installation.
  abbrev pub installed : Members → Members → Members
  installed overlay base =
      Install.merge_members (Install.prune_hitch_hooks agent events base)
        (Json.member Install.hooks_key (Json.object overlay) Json.done)

  get-on_hooks :
      (x : Option Value) (hooks : Option Members) (base : Members)
      → get_member Install.hooks_key base ≡ x
      → get_member Install.hooks_key (Install.on_hooks agent events hooks base)
        ≡ pruned_hooks x hooks
  unfolding Install.on_hooks
  get-on_hooks x none base e = e
  get-on_hooks x (some hooks) base e = get-insert_same Install.hooks_key _ base

  on_hooks-else :
      (k : Text) (hooks : Option Members) (base : Members)
      → text_eq Install.hooks_key k ≡ false
      → get_member k (Install.on_hooks agent events hooks base) ≡ get_member k base
  unfolding Install.on_hooks
  on_hooks-else k none base other = refl
  on_hooks-else k (some hooks) base other = get-insert_else Install.hooks_key k _ base other

  installed-hooks :
      (overlay base : Members)
      → get_member Install.hooks_key (installed overlay base)
        ≡ installed_hooks overlay (get_member Install.hooks_key base)
  unfolding Install.prune_hitch_hooks Install.merge_members
  installed-hooks overlay base =
      let x = get_member Install.hooks_key base in
      get-insert_same Install.hooks_key _ (Install.on_hooks agent events (as_object x) base)
      ∙ ap (λ (y : Option Value). some (merge_found y (Json.object overlay)))
          (get-on_hooks x (as_object x) base refl)

  installed-beside :
      (k : Text) (overlay base : Members)
      → beside_hooks k (installed overlay base) ≡ beside_hooks k base
  unfolding Install.prune_hitch_hooks Install.merge_members
  installed-beside k overlay base =
      let x = get_member Install.hooks_key base in
      elim (Bool-cases (text_eq Install.hooks_key k)) [
        | inl same ↦ rw same refl
        | inr other ↦ rw other (
            get-insert_else Install.hooks_key k _ (Install.on_hooks agent events (as_object x) base)
              other
            ∙ on_hooks-else k (as_object x) base other)
      ]

-- Two installations, one behind the other: every event has the hooks of the first, and every setting
-- but `hooks` is the user's.
abbrev pub InstalledTwice : AgentKind → List Text → Members → Members → Type 0
InstalledTwice agent events overlay base =
    let overlay' = Json.object (Json.member Install.hooks_key (Json.object overlay) Json.done) in
    (once : Members) × (twice : Members) × (Install.merge_json agent events overlay'
        (Json.object base)
      ≡ ok (Json.object once))
    × (Install.merge_json agent events overlay' (Json.object once) ≡ ok (Json.object twice))
    × ((e : Text) → event_hooks e twice ≡ event_hooks e once)
    × ((k : Text)
        → (beside_hooks k once ≡ beside_hooks k base)
          × (beside_hooks k twice ≡ beside_hooks k base))

-- Whatever object a settings file holds: an installation whose events are each pruned and have only
-- groups of Hitch's own commands succeeds, a second one succeeds and leaves each event the hooks
-- that it had behind the first, and neither changes a setting beside `hooks`.
pub merge_json-merge_json :
    (agent : AgentKind) (events : List Text) (overlay base : Members)
    → Distinct overlay
    → IsOverlay agent events overlay
    → InstalledTwice agent events overlay base
unfolding Install.merge_json Install.merge_preserving_existing
merge_json-merge_json agent events overlay base d os =
    let once = installed agent events overlay base in
    let twice = installed agent events overlay once in
    let first = installed-hooks agent events overlay base in
    (
      once,
      twice,
      refl,
      refl,
      λ e.
          ap (in_hooks e) (installed-hooks agent events overlay once)
          ∙ ap (λ (x : Option Value). in_hooks e (installed_hooks agent events overlay x)) first
          ∙ hooks-hooks agent events e overlay (get_member Install.hooks_key base) d os
          ∙ sym (ap (in_hooks e) first),
      λ k.
          let mine = installed-beside agent events k overlay base in
          (mine, installed-beside agent events k overlay once ∙ mine),
    )
