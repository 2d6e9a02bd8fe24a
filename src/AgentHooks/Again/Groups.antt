-- ===== src/AgentHooks/Again/Groups.antt =====
-- The groups of one event: pruning twice is pruning once, and pruning takes out what merging put in.
use hitch.Prelude.{
  ◌≡◌, refl, sym, ap, ◌∙◌, inl, inr, Bool, true, false, not, ◌&&◌, Option, none, some, Bool-cases,
  Option-cases,
}
use hitch.AgentHooks.Json
use hitch.AgentHooks.Json.{
  Value, Values, Members, get_member, insert_member, as_array, field, is_nil, push, push-nil,
  push_assoc, get-insert_same, insert-insert,
}
use hitch.AgentHooks.Install
use hitch.AgentHooks.Install.{AgentKind}

module _ (agent : AgentKind) where
  retain-retain :
      (hooks : Values)
      → Install.retain_commands agent (Install.retain_commands agent hooks)
        ≡ Install.retain_commands agent hooks
  unfolding Install.retain_commands
  retain-retain Json.nil = refl
  retain-retain (Json.item hook hooks) =
      elim (Bool-cases (Install.is_hitch_hook_command agent hook)) [
        | inl ours ↦ rw ours (retain-retain hooks)
        | inr theirs ↦ rw (theirs, theirs) (ap (Json.item hook) (retain-retain hooks))
      ]

  not_both : (b : Bool) → not b && b ≡ false
  not_both true = refl
  not_both false = refl

  -- A group that was kept is kept as it is.
  object-kept :
      (m : Members) (commands : Values)
      → let next = Json.object (
          insert_member Install.hooks_key
            (Json.array (Install.retain_commands agent commands))
            m) in
        Install.prune_group agent next ≡ some next
  unfolding Install.prune_group Install.on_commands
  object-kept m commands =
      let kept = Install.retain_commands agent commands in
      rw
        (
          get-insert_same Install.hooks_key (Json.array kept) m,
          retain-retain commands,
          not_both (is_nil kept),
          insert-insert Install.hooks_key (Json.array kept) m,
        )
        refl

  commands-kept :
      (group : Value) (commands : Option Values) (next : Value)
      → as_array (field Install.hooks_key group) ≡ commands
      → Install.on_commands agent group commands ≡ some next
      → Install.prune_group agent next ≡ some next
  unfolding Install.on_commands Install.prune_group
  commands-kept group none next e same =
      let here : group ≡ next = cc same in rw⁻¹ here (ap (Install.on_commands agent group) e)
  commands-kept (Json.object m) (some commands) next e same =
      elim (Bool-cases (not (is_nil commands) && is_nil (Install.retain_commands agent commands))) [
        | inl gone ↦ absurd (cc (rw gone at same))
        | inr stays ↦
            let kept : some (
                  Json.object (
                    insert_member Install.hooks_key
                      (Json.array (Install.retain_commands agent commands)) m))
                ≡ some next =
              rw stays at same in
            let here : Json.object (
                  insert_member Install.hooks_key
                    (Json.array (Install.retain_commands agent commands)) m)
                ≡ next =
              cc kept in
            rw⁻¹ here (object-kept m commands)
      ]
  commands-kept Json.null (some commands) next e same = absurd (cc e)
  commands-kept (Json.bool b) (some commands) next e same = absurd (cc e)
  commands-kept (Json.number t) (some commands) next e same = absurd (cc e)
  commands-kept (Json.string t) (some commands) next e same = absurd (cc e)
  commands-kept (Json.array vs) (some commands) next e same = absurd (cc e)

  pub prune-prune :
      (groups : Values)
      → Install.prune_groups agent (Install.prune_groups agent groups)
        ≡ Install.prune_groups agent groups
  unfolding Install.prune_groups
  prune-prune Json.nil = refl
  prune-prune (Json.item group groups) = elim (Option-cases (Install.prune_group agent group)) [
    | inl gone ↦ rw gone (prune-prune groups)
    | inr (next, kept) ↦
        let again : Install.prune_group agent next ≡ some next =
          commands-kept group (as_array (field Install.hooks_key group)) next refl
            (unfold Install.prune_group in kept) in
        rw (kept, again) (ap (Json.item next) (prune-prune groups))
  ]

  prune-push :
      (groups more : Values)
      → Install.prune_groups agent (push groups more)
        ≡ push (Install.prune_groups agent groups) (Install.prune_groups agent more)
  unfolding Install.prune_groups
  prune-push Json.nil more = refl
  prune-push (Json.item group groups) more = elim (Option-cases (Install.prune_group agent group)) [
    | inl gone ↦ rw gone (prune-push groups more)
    | inr (next, kept) ↦ rw kept (ap (Json.item next) (prune-push groups more))
  ]

  -- Groups that pruning takes out.
  unfoldable pub AreOurs : Values → Type 0
  AreOurs Json.nil = Unit {0}
  AreOurs (Json.item group groups) = (Install.prune_group agent group ≡ none) × AreOurs groups

  pub prune-ours : (groups : Values) → AreOurs groups → Install.prune_groups agent groups ≡ Json.nil
  unfolding Install.prune_groups AreOurs
  prune-ours Json.nil ours = refl
  prune-ours (Json.item group groups) (gone, ours) = rw gone (prune-ours groups ours)

  -- Merging puts some of the overlay's groups behind those that are there.
  merge-push :
      (base overlay : Values)
      → AreOurs overlay
      → (more : Values) × AreOurs more × (Install.merge_items base overlay ≡ push base more)
  unfolding Install.merge_items AreOurs
  merge-push base Json.nil ours = (Json.nil, tt, sym (push-nil base))
  merge-push base (Json.item v overlay) (gone, ours) =
      elim (Bool-cases (Json.contains_value v base)) [
        | inl there ↦ rw there (merge-push base overlay ours)
        | inr new ↦
            let (more, ours', e) = merge-push (push base (Json.item v Json.nil)) overlay ours in
            rw new
              ((Json.item v more, (gone, ours'), e ∙ push_assoc base (Json.item v Json.nil) more))
      ]

  -- Pruning leaves of a merge what was there before it.
  pub prune-merge :
      (groups overlay : Values)
      → AreOurs overlay
      → let kept = Install.prune_groups agent groups in
        Install.prune_groups agent (Install.merge_items kept overlay) ≡ kept
  prune-merge groups overlay ours =
      let kept = Install.prune_groups agent groups in
      let (more, ours', e) = merge-push kept overlay ours in
      ap (Install.prune_groups agent) e
      ∙ prune-push kept more
      ∙ rw (prune-prune groups, prune-ours more ours') (push-nil kept)
