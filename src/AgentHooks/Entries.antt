-- ===== src/AgentHooks/Entries.antt =====
-- The hooks that crates/hitch-agent/src/lib.rs installs: the command lines, and the overlays of the
-- two agents. The style of the platform is an argument, and a helper path is absolute.
use hitch.Prelude.{
  ℕ, Bool, true, false, ◌&&◌, ◌||◌, Option, none, some, List, [], ◌∷◌, ◌++◌, leb, ◌==◌,
  if◌then◌else◌,
}
use Prim.Native.String.{String}
use hitch.Prelude.Text.{Text, codes}
use hitch.Core.Domain
use hitch.Core.Domain.{AgentState}
use hitch.AgentHooks.Json
use hitch.AgentHooks.Json.{Value, Values, Members}
use hitch.AgentHooks.Install
use hitch.AgentHooks.Install.{AgentKind, starts_with}

abbrev pub id : AgentKind → Text
id Install.claude_code = codes "claude-code"
id Install.codex = codes "codex"

pub data CommandArgStyle : Type 0 where
  posix windows : CommandArgStyle

abbrev is_ascii_alphabetic : ℕ → Bool
is_ascii_alphabetic c = (leb b'a' c && leb c b'z') || (leb b'A' c && leb c b'Z')

unfoldable pub is_windows_absolute_path : Text → Bool
is_windows_absolute_path (a ∷ b ∷ c ∷ path) =
    (a == 0x5c && b == 0x5c) || (b == b':' && (c == 0x5c || c == b'/') && is_ascii_alphabetic a)
is_windows_absolute_path (a ∷ b ∷ []) = a == 0x5c && b == 0x5c
is_windows_absolute_path _ = false

unfoldable pub command_arg_style_for_path : CommandArgStyle → Text → CommandArgStyle
command_arg_style_for_path platform path =
    if is_windows_absolute_path path then windows else platform

-- `value.replace('\'', …)`
unfoldable pub replace_quote : Text → Text → Text
replace_quote by [] = []
replace_quote by (c ∷ cs) =
    let rest = replace_quote by cs in if c == b'\'' then by ++ rest else c ∷ rest

abbrev pub quoted : Text → Text → Text
quoted by value = b'\'' ∷ (replace_quote by value ++ b'\'' ∷ [])

abbrev pub posix_command_arg : Text → Text
posix_command_arg value = quoted (codes "'\\''") value

unfoldable pub needs_quotes : Text → Bool
needs_quotes [] = false
needs_quotes (c ∷ cs) =
    c == b' '
    || c == 9
    || c == 10
    || c == 13
    || c == 0x22
    || c == b'\''
    || c == 0x5c
    || c == b'$'
    || c == 0x60
    || needs_quotes cs

abbrev pub windows_command_arg : Text → Text
windows_command_arg [] = posix_command_arg []
windows_command_arg (c ∷ cs) = if needs_quotes (c ∷ cs) then posix_command_arg (c ∷ cs) else c ∷ cs

abbrev pub platform_command_arg : CommandArgStyle → Text → Text
platform_command_arg posix value = posix_command_arg value
platform_command_arg windows value = windows_command_arg value

-- The helper's invocation, in the agent's shell.
abbrev pub helper_arg : CommandArgStyle → AgentKind → Text → Text
helper_arg windows Install.codex path = codes "& " ++ quoted (codes "''") path
helper_arg style agent path = platform_command_arg style path

abbrev pub event_arg : CommandArgStyle → AgentKind → Text → Text
event_arg windows Install.codex event = event
event_arg style agent event = platform_command_arg style event

unfoldable pub hook_command_prefix : CommandArgStyle → Text → AgentKind → Text → Text
hook_command_prefix platform path agent event =
    let style = command_arg_style_for_path platform path in
    helper_arg style agent path
    ++ (codes " --agent " ++ id agent)
    ++ (codes " --event " ++ event_arg style agent event)

abbrev pub state_arg : AgentState → Text
state_arg Domain.running = codes "running"
state_arg Domain.needs_approval = codes "needs-approval"
state_arg Domain.waiting = codes "waiting"
state_arg Domain.error = codes "error"

abbrev pub state_suffix : Option AgentState → Text
state_suffix none = []
state_suffix (some state) = codes " --state " ++ state_arg state

-- What an entry appends to the prefix.
pub data Suffix : Type 0 where
  announce : Suffix
  state : Option AgentState → Suffix
  failure : String → Suffix

abbrev pub suffix_of : CommandArgStyle → Suffix → Text
suffix_of style announce = codes " --announce"
suffix_of style (state s) = state_suffix s
suffix_of style (failure detail) =
    state_suffix (some Domain.error)
    ++ codes " --detail "
    ++ platform_command_arg style (codes detail)

unfoldable pub command_of : CommandArgStyle → Text → AgentKind → String → Suffix → Text
command_of platform path agent event suffix =
    hook_command_prefix platform path agent (codes event)
    ++ suffix_of (command_arg_style_for_path platform path) suffix

abbrev pub command_entry : Text → Text → Value
command_entry matcher command = Json.object (
    Json.member (codes "matcher") (Json.string matcher) (
      Json.member (codes "hooks")
        (Json.array (
          Json.item
            (Json.object (
              Json.member (codes "type") (Json.string (codes "command"))
                (Json.member (codes "command") (Json.string command) Json.done)))
            Json.nil))
        Json.done))

-- One entry of an overlay: its matcher, the helper's event, and what the command ends with.
pub record Entry : Type 0 where
  pub matcher : String
  pub event : String
  pub suffix : Suffix

abbrev plain : String → Suffix → List Entry
plain event suffix = record { matcher = ""; event = event; suffix = suffix } ∷ []

abbrev pub failed : String → String → Entry
failed matcher detail = record {
  matcher = matcher;
  event = "stop-failure";
  suffix = failure detail;
}

module _ (platform : CommandArgStyle) (path : Text) (agent : AgentKind) where
  unfoldable pub entries : List Entry → Values
  entries [] = Json.nil
  entries (e ∷ es) =
      Json.item (command_entry (codes e.matcher) (command_of platform path agent e.event e.suffix))
        (entries es)

  unfoldable pub overlay_of : List (String × List Entry) → Members
  overlay_of [] = Json.done
  overlay_of ((event, es) ∷ events) =
      Json.member (codes event) (Json.array (entries es)) (overlay_of events)

abbrev pub codex_announce : Bool → List (String × List Entry)
codex_announce true = ("SessionStart", plain "session-start" announce) ∷ []
codex_announce false = []

-- `codex_hooks_overlay`; the announce is installed except on Windows.
abbrev pub codex_hooks : Bool → List (String × List Entry)
codex_hooks include_identity_announce =
    codex_announce include_identity_announce
    ++ ("UserPromptSubmit", plain "user-prompt-submit" (state (some Domain.running)))
      ∷ ("PermissionRequest", plain "permission-request" (state (some Domain.needs_approval)))
      ∷ ("PostToolUse", plain "post-tool-use" (state (some Domain.running)))
      ∷ ("Stop", plain "stop" (state (some Domain.waiting)))
      ∷ []

abbrev pub codex_events : List Text
codex_events =
    codes "UserPromptSubmit"
    ∷ codes "PermissionRequest"
    ∷ codes "PostToolUse"
    ∷ codes "Stop"
    ∷ codes "SessionStart"
    ∷ codes "SessionEnd"
    ∷ []

abbrev pub claude_hooks : List (String × List Entry)
claude_hooks =
    ("SessionStart", plain "session-start" announce)
    ∷ ("UserPromptSubmit", plain "user-prompt-submit" (state (some Domain.running)))
    ∷ ("PermissionRequest", plain "permission-request" (state (some Domain.needs_approval)))
    ∷ ("PermissionDenied", plain "permission-denied" (state (some Domain.running)))
    ∷ (
      "Notification",
      record {
        matcher = "permission_prompt";
        event = "notification";
        suffix = state (some Domain.needs_approval);
      }
          ∷ record {
            matcher = "idle_prompt";
            event = "notification";
            suffix = state (some Domain.waiting);
          }
          ∷ [],
    )
    ∷ ("PostToolUse", plain "post-tool-use" (state (some Domain.running)))
    ∷ ("Stop", plain "stop" (state (some Domain.waiting)))
    ∷ (
      "StopFailure",
      failed "rate_limit" "rate limited"
          ∷ failed "overloaded" "server overloaded"
          ∷ failed "authentication_failed" "authentication failed"
          ∷ failed "oauth_org_not_allowed" "OAuth org not allowed"
          ∷ failed "billing_error" "billing issue"
          ∷ failed "invalid_request" "invalid request"
          ∷ failed "model_not_found" "model not found"
          ∷ failed "server_error" "server error"
          ∷ failed "max_output_tokens" "max output tokens"
          ∷ failed "unknown" "agent error"
          ∷ [],
    )
    ∷ ("SessionEnd", plain "session-end" (state none))
    ∷ []

abbrev pub claude_events : List Text
claude_events =
    codes "UserPromptSubmit"
    ∷ codes "PermissionRequest"
    ∷ codes "PermissionDenied"
    ∷ codes "Notification"
    ∷ codes "PostToolUse"
    ∷ codes "Stop"
    ∷ codes "StopFailure"
    ∷ codes "SessionStart"
    ∷ codes "SessionEnd"
    ∷ []
