-- ===== src/AgentHooks/Install.antt =====
-- `merge_json_file` of crates/hitch-agent/src/lib.rs between the reading and the writing of the
-- file: `prune_hitch_hooks` takes Hitch's own commands out, and `merge_preserving_existing` puts the
-- new ones in.
use hitch.Prelude.{
  Bool, true, false, not, ◌&&◌, ◌||◌, Option, none, some, List, [], ◌∷◌, ◌==◌, if◌then◌else◌,
  Result, ok, err,
}
use hitch.Prelude.Text.{Text, codes, text_eq, unwrap_or}
use hitch.AgentHooks.Json
use hitch.AgentHooks.Json.{
  Value, Values, Members, get_member, insert_member, remove_member, contains_value, as_array,
  as_object, as_str, field, is_nil, push,
}

pub data AgentKind : Type 0 where
  claude_code codex : AgentKind

unfoldable pub starts_with : Text → Text → Bool
starts_with [] s = true
starts_with (c ∷ cs) [] = false
starts_with (c ∷ cs) (d ∷ ds) = c == d && starts_with cs ds

-- `str::contains` with a string.
unfoldable pub contains_text : Text → Text → Bool
contains_text part [] = starts_with part []
contains_text part (c ∷ cs) = starts_with part (c ∷ cs) || contains_text part cs

abbrev pub agent_flag : AgentKind → Text
agent_flag claude_code = codes "--agent claude-code"
agent_flag codex = codes "--agent codex"

abbrev pub is_text : Text → Option Text → Bool
is_text expected none = false
is_text expected (some s) = text_eq s expected

abbrev is_helper_command : AgentKind → Option Text → Bool
is_helper_command agent none = false
is_helper_command agent (some command) =
    contains_text (codes "hitch-hook") command && contains_text (agent_flag agent) command

unfoldable pub is_hitch_hook_command : AgentKind → Value → Bool
is_hitch_hook_command agent hook =
    is_text (codes "command") (as_str (field (codes "type") hook))
    && is_helper_command agent (as_str (field (codes "command") hook))

unfoldable pub retain_commands : AgentKind → Values → Values
retain_commands agent Json.nil = Json.nil
retain_commands agent (Json.item hook hooks) =
    let rest = retain_commands agent hooks in
    if is_hitch_hook_command agent hook then rest else Json.item hook rest

-- A field of an object gets another value.
abbrev pub set_field : Text → Value → Value → Value
set_field k v (Json.object m) = Json.object (insert_member k v m)
set_field k v other = other

abbrev pub hooks_key : Text
hooks_key = codes "hooks"

-- A group keeps the other commands; it goes if it had commands and has none now.
unfoldable pub on_commands : AgentKind → Value → Option Values → Option Value
on_commands agent group none = some group
on_commands agent group (some commands) =
    let kept = retain_commands agent commands in
    if not (is_nil commands) && is_nil kept
    then none
    else some (set_field hooks_key (Json.array kept) group)

unfoldable pub prune_group : AgentKind → Value → Option Value
prune_group agent group = on_commands agent group (as_array (field hooks_key group))

abbrev pub keep_group : Option Value → Values → Values
keep_group none rest = rest
keep_group (some kept) rest = Json.item kept rest

unfoldable pub prune_groups : AgentKind → Values → Values
prune_groups agent Json.nil = Json.nil
prune_groups agent (Json.item group groups) =
    keep_group (prune_group agent group) (prune_groups agent groups)

unfoldable pub on_groups : AgentKind → Text → Option Values → Members → Members
on_groups agent event none hooks = hooks
on_groups agent event (some groups) hooks =
    let kept = prune_groups agent groups in
    if is_nil kept then remove_member event hooks else insert_member event (Json.array kept) hooks

unfoldable pub prune_events : AgentKind → List Text → Members → Members
prune_events agent [] hooks = hooks
prune_events agent (event ∷ events) hooks =
    prune_events agent events (on_groups agent event (as_array (get_member event hooks)) hooks)

unfoldable pub on_hooks : AgentKind → List Text → Option Members → Members → Members
on_hooks agent events none base = base
on_hooks agent events (some hooks) base =
    insert_member hooks_key (Json.object (prune_events agent events hooks)) base

unfoldable pub prune_hitch_hooks : AgentKind → List Text → Members → Members
prune_hitch_hooks agent events base =
    on_hooks agent events (as_object (get_member hooks_key base)) base

unfoldable pub merge_items : Values → Values → Values
merge_items base Json.nil = base
merge_items base (Json.item v overlay) =
    if contains_value v base
    then merge_items base overlay
    else merge_items (push base (Json.item v Json.nil)) overlay

unfoldable mutual
  pub merge_preserving_existing : Value → Value → Value
  merge_preserving_existing Json.null overlay = overlay
  merge_preserving_existing (Json.object base) (Json.object overlay) =
      Json.object (merge_members base overlay)
  merge_preserving_existing (Json.array base) (Json.array overlay) =
      Json.array (merge_items base overlay)
  merge_preserving_existing base _ = base

  -- A member that is missing is put in, as where there is a `null`.
  pub merge_members : Members → Members → Members
  merge_members base Json.done = base
  merge_members base (Json.member key value overlay) =
      let merged = merge_preserving_existing (unwrap_or Json.null (get_member key base)) value in
      merge_members (insert_member key merged base) overlay

pub data AgentHookError : Type 0 where
  invalid_config_shape : AgentHookError

-- The configuration that was read, and the one that is written.
unfoldable pub merge_json : AgentKind → List Text → Value → Value → Result AgentHookError Value
merge_json agent prune_events overlay (Json.object base) =
    ok (merge_preserving_existing (Json.object (prune_hitch_hooks agent prune_events base)) overlay)
merge_json agent prune_events overlay _ = err invalid_config_shape
