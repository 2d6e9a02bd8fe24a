-- ===== src/Examples/HookRuns.antt =====
-- An installation of hooks as in crates/hitch-agent/src/lib.rs, and a call of the helper of
-- crates/hitch-hook/src/main.rs.
use hitch.Prelude.{◌≡◌, refl, inl, inr, true, Option, some, List, [], ◌∷◌, ◌++◌, ok, All}
use hitch.Core.Domain
use hitch.HookHelper
use hitch.HookHelper.Installed.{IsForeign, meant}
use hitch.HookHelper.CommandLine.{joined, Reads, parse-command_of}
use Prim.Native.String.{String}
use hitch.Prelude.Text.{Text, codes, text_eq}
use hitch.AgentHooks.Json
use hitch.AgentHooks.Json.{Value, Values, Members}
use hitch.AgentHooks.Install
use hitch.AgentHooks.Install.{contains_text}
use hitch.AgentHooks.Entries
use hitch.AgentHooks.Entries.{command_of, command_arg_style_for_path, is_windows_absolute_path}
use hitch.AgentHooks.Again.Files.{InstalledTwice}
use hitch.AgentHooks.Again.Ours.{helper_name, install_hooks-install_hooks}

abbrev hook_of : String → Value
hook_of command = Json.object (
    Json.member (codes "type") (Json.string (codes "command"))
      (Json.member (codes "command") (Json.string (codes command)) Json.done))

abbrev group_of : Values → Value
group_of commands = Json.object (Json.member (codes "hooks") (Json.array commands) Json.done)

-- The file has a hook of an older installation beside one of the user, and another setting.
abbrev settings : Members
settings = Json.member (codes "model") (Json.string (codes "m")) (
    Json.member (codes "hooks")
      (Json.object (
        Json.member (codes "Stop")
          (Json.array (
            Json.item
              (group_of (
                Json.item (hook_of "/old/hitch-hook --agent codex")
                  (Json.item (hook_of "say done") Json.nil)))
              Json.nil))
          Json.done))
      Json.done)

abbrev helper : Text
helper = codes "/a/hitch-hook"

helper-named : contains_text helper_name helper ≡ true
unfolding contains_text Install.starts_with
helper-named = refl

install_hooks-install_hooks_example :
    InstalledTwice Install.claude_code Entries.claude_events
      (Entries.overlay_of Entries.posix helper Install.claude_code Entries.claude_hooks)
      settings
    × InstalledTwice Install.codex Entries.codex_events
        (Entries.overlay_of Entries.posix helper Install.codex (Entries.codex_hooks true))
        settings
install_hooks-install_hooks_example =
    install_hooks-install_hooks Entries.posix helper helper-named true settings

abbrev appended : List Text
appended = codes "--session-source" ∷ codes "cli" ∷ codes "{}" ∷ []

appended-IsForeign : All IsForeign appended
unfolding HookHelper.arm_of text_eq
appended-IsForeign = (inl refl, (inr refl, (inr refl, tt)))

posix_path : command_arg_style_for_path Entries.posix (codes "/h") ≡ Entries.posix
unfolding command_arg_style_for_path is_windows_absolute_path
posix_path = refl

parse-command_of_example :
    (line words : List Text) × (payload : Option Text) × (command_of Entries.posix
        (codes "/h")
        Install.codex
        "stop"
        (Entries.state (some Domain.waiting))
      ≡ joined line)
    × Reads line (codes "/h" ∷ words)
    × (HookHelper.parse (codes "/run/hitch") (ok (some 3)) (words ++ appended)
        ≡ ok (record {
          agent = Domain.codex;
          session_id = some 3;
          rest =
              record (meant Install.codex
                (codes "stop")
                (Entries.state (some Domain.waiting))
                (HookHelper.unparsed (codes "/run/hitch"))) { payload = payload };
        }))
parse-command_of_example =
    parse-command_of Entries.posix (codes "/h") (codes "/run/hitch") (some 3) Install.codex "stop"
      (Entries.state (some Domain.waiting)) appended posix_path appended-IsForeign
