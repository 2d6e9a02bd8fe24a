-- ===== src/AgentHooks/Again/Events.antt =====
-- The hooks of one event: an installation behind an installation changes nothing.
use hitch.Prelude.{
  ◌≡◌, refl, ◌∙◌, inl, inr, Bool, true, false, ◌||◌, Option, none, some, List, [], ◌∷◌,
  if◌then◌else◌, Bool-cases,
}
use hitch.Prelude.Text.{Text, text_eq, text_eq_iff, unwrap_or}
use hitch.AgentHooks.Json
use hitch.AgentHooks.Json.{
  Value, Values, Members, get_member, as_array, is_nil, get-insert_same, get-insert_else,
  get-remove_same, get-remove_else,
}
use hitch.AgentHooks.Install
use hitch.AgentHooks.Install.{AgentKind}
use hitch.AgentHooks.Again.Groups.{prune-prune}

abbrev pub is_listed : Text → List Text → Bool
is_listed e [] = false
is_listed e (event ∷ events) = text_eq event e || is_listed e events

-- Each key stands once.
abbrev pub Distinct : Members → Type 0
Distinct Json.done = Unit {0}
Distinct (Json.member k v m) = (get_member k m ≡ none) × Distinct m

module _ (agent : AgentKind) where
  -- What pruning does to the hooks of a listed event.
  abbrev on_event : Option Value → Option Values → Option Value
  on_event x none = x
  on_event x (some groups) =
      if is_nil (Install.prune_groups agent groups)
      then none
      else some (Json.array (Install.prune_groups agent groups))

  abbrev pub pruned : Option Value → Option Value
  pruned x = on_event x (as_array x)

  prune_groups-event :
      (event : Text) (x : Option Value) (groups : Option Values) (hooks : Members)
      → get_member event hooks ≡ x
      → get_member event (Install.on_groups agent event groups hooks) ≡ on_event x groups
  unfolding Install.on_groups
  prune_groups-event event x none hooks e = e
  prune_groups-event event x (some groups) hooks e =
      elim (Bool-cases (is_nil (Install.prune_groups agent groups))) [
        | inl gone ↦ rw gone (get-remove_same event hooks)
        | inr stays ↦
            rw stays (get-insert_same event (Json.array (Install.prune_groups agent groups)) hooks)
      ]

  prune_groups-else :
      (event e : Text) (groups : Option Values) (hooks : Members)
      → text_eq event e ≡ false
      → get_member e (Install.on_groups agent event groups hooks) ≡ get_member e hooks
  unfolding Install.on_groups
  prune_groups-else event e none hooks differs = refl
  prune_groups-else event e (some groups) hooks differs =
      elim (Bool-cases (is_nil (Install.prune_groups agent groups))) [
        | inl gone ↦ rw gone (get-remove_else event e hooks differs)
        | inr stays ↦
            rw stays (
              get-insert_else event e (Json.array (Install.prune_groups agent groups)) hooks
                differs)
      ]

  pub pruned-pruned : (x : Option Value) → pruned (pruned x) ≡ pruned x
  pruned-pruned none = refl
  pruned-pruned (some Json.null) = refl
  pruned-pruned (some (Json.bool b)) = refl
  pruned-pruned (some (Json.number t)) = refl
  pruned-pruned (some (Json.string t)) = refl
  pruned-pruned (some (Json.object m)) = refl
  pruned-pruned (some (Json.array groups)) =
      elim (Bool-cases (is_nil (Install.prune_groups agent groups))) [
        | inl gone ↦ rw gone refl
        | inr stays ↦ rw (stays, prune-prune agent groups, stays) refl
      ]

  pub get-prune_events :
      (e : Text) (events : List Text) (hooks : Members)
      → get_member e (Install.prune_events agent events hooks)
        ≡ (if is_listed e events then pruned (get_member e hooks) else get_member e hooks)
  unfolding Install.prune_events
  get-prune_events e [] hooks = refl
  get-prune_events e (event ∷ events) hooks =
      let next = Install.on_groups agent event (as_array (get_member event hooks)) hooks in
      elim (Bool-cases (text_eq event e)) [
        | inl same ↦
            let event≡e : event ≡ e = (text_eq_iff event e).0 same in
            let now : get_member e next ≡ pruned (get_member e hooks) = rw event≡e (
              prune_groups-event e (get_member e hooks) (as_array (get_member e hooks)) hooks
                refl) in
            get-prune_events e events next
            ∙ rw (same, now) (settled (is_listed e events) (get_member e hooks))
        | inr other ↦
            get-prune_events e events next
            ∙ rw (other, prune_groups-else event e (as_array (get_member event hooks)) hooks other)
                refl
      ]
    where
      settled :
          (again : Bool) (x : Option Value)
          → (if again then pruned (pruned x) else pruned x) ≡ pruned x
      settled true x = pruned-pruned x
      settled false x = refl

abbrev pub merge_found : Option Value → Value → Value
merge_found x v = Install.merge_preserving_existing (unwrap_or Json.null x) v

-- What merging does to a member, given the overlay's.
abbrev pub merged : Option Value → Option Value → Option Value
merged none x = x
merged (some v) x = some (merge_found x v)

pub get-merge_members :
    (e : Text) (base overlay : Members)
    → Distinct overlay
    → get_member e (Install.merge_members base overlay)
      ≡ merged (get_member e overlay) (get_member e base)
unfolding Install.merge_members get_member
get-merge_members e base Json.done d = refl
get-merge_members e base (Json.member k v overlay) (fresh, d) =
    let value = merge_found (get_member k base) v in
    elim (Bool-cases (text_eq k e)) [
      | inl same ↦
          let k≡e : k ≡ e = (text_eq_iff k e).0 same in
          get-merge_members e (Json.insert_member k value base) overlay d
          ∙ rw (same, k≡e)
              (rw (rw k≡e at fresh, get-insert_same e (merge_found (get_member e base) v) base)
                refl)
      | inr other ↦
          get-merge_members e (Json.insert_member k value base) overlay d
          ∙ rw (other, get-insert_else k e value base other) refl
    ]
