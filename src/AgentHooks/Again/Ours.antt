-- ===== src/AgentHooks/Again/Ours.antt =====
-- Pruning knows the entries that crates/hitch-agent/src/lib.rs installs, so that an installation can
-- be repeated.
use hitch.Prelude.{◌≡◌, refl, Bool, true, false, none, List, [], ◌∷◌, ◌++◌, Bool-cases, inl, inr}
use Prim.Native.String.{String}
use hitch.Prelude.Text.{Text, codes, text_eq}
use hitch.AgentHooks.Json.{Members, get_member}
use hitch.AgentHooks.Install
use hitch.AgentHooks.Install.{AgentKind, starts_with, contains_text, agent_flag}
use hitch.AgentHooks.Entries
use hitch.AgentHooks.Entries.{CommandArgStyle, Entry, Suffix}
use hitch.AgentHooks.Again.Groups.{AreOurs}
use hitch.AgentHooks.Again.Events.{is_listed, Distinct}
use hitch.AgentHooks.Again.Files.{IsOverlay, InstalledTwice, merge_json-merge_json}
use hitch.AgentHooks.Again.Contains.{HasNoQuote, contains-quoted, contains_behind, contains_before}

abbrev pub helper_name : Text
helper_name = codes "hitch-hook"

no_quote : HasNoQuote helper_name
no_quote = (refl, (refl, (refl, (refl, (refl, (refl, (refl, (refl, (refl, (refl, tt))))))))))

-- Events that an installation prunes.
abbrev AreListed : List Text → List (String × List Entry) → Type 0
AreListed events [] = Unit {0}
AreListed events ((event, es) ∷ rest) =
    (is_listed (codes event) events ≡ true) × AreListed events rest

module _ (platform : CommandArgStyle) (path : Text)
    (named : contains_text helper_name path ≡ true) where
  windows-helper :
      (value : Text)
      → contains_text helper_name value ≡ true
      → contains_text helper_name (Entries.windows_command_arg value) ≡ true
  unfolding contains_text starts_with
  windows-helper [] h = absurd (cc h)
  windows-helper (c ∷ cs) h = elim (Bool-cases (Entries.needs_quotes (c ∷ cs))) [
    | inl quoted ↦ rw quoted (contains-quoted (codes "'\\''") helper_name (c ∷ cs) no_quote h)
    | inr bare ↦ rw bare h
  ]

  helper_arg-helper :
      (style : CommandArgStyle) (agent : AgentKind)
      → contains_text helper_name (Entries.helper_arg style agent path) ≡ true
  helper_arg-helper Entries.windows Install.codex =
      contains_behind helper_name (codes "& ") (Entries.quoted (codes "''") path)
        (contains-quoted (codes "''") helper_name path no_quote named)
  helper_arg-helper Entries.windows Install.claude_code = windows-helper path named
  helper_arg-helper Entries.posix Install.claude_code =
      contains-quoted (codes "'\\''") helper_name path no_quote named
  helper_arg-helper Entries.posix Install.codex =
      contains-quoted (codes "'\\''") helper_name path no_quote named

  agent_arg-flag :
      (agent : AgentKind)
      → contains_text (agent_flag agent) (codes " --agent " ++ Entries.id agent) ≡ true
  unfolding contains_text starts_with
  agent_arg-flag Install.claude_code = refl
  agent_arg-flag Install.codex = refl

  command-ours :
      (agent : AgentKind) (event : String) (suffix : Suffix)
      → let command = Entries.command_of platform path agent event suffix in
        (contains_text helper_name command ≡ true)
        × (contains_text (agent_flag agent) command ≡ true)
  unfolding Entries.command_of Entries.hook_command_prefix
  command-ours agent event suffix =
      let style = Entries.command_arg_style_for_path platform path in
      let helper = Entries.helper_arg style agent path in
      let named_agent = codes " --agent " ++ Entries.id agent in
      let named_event = codes " --event " ++ Entries.event_arg style agent (codes event) in
      let end = Entries.suffix_of style suffix in
      (
        contains_before helper_name (helper ++ named_agent ++ named_event) end (
            contains_before helper_name (helper ++ named_agent) named_event
              (contains_before helper_name helper named_agent (helper_arg-helper style agent))),
        contains_before (agent_flag agent) (helper ++ named_agent ++ named_event) end (
            contains_before (agent_flag agent) (helper ++ named_agent) named_event
              (contains_behind (agent_flag agent) helper named_agent (agent_arg-flag agent))),
      )

  entry-ours :
      (agent : AgentKind) (matcher command : Text)
      → contains_text helper_name command ≡ true
      → contains_text (agent_flag agent) command ≡ true
      → Install.prune_group agent (Entries.command_entry matcher command) ≡ none
  unfolding Install.prune_group Install.on_commands Install.retain_commands
      Install.is_hitch_hook_command get_member text_eq
  entry-ours agent matcher command helper flag = rw (helper, flag) refl

  entries-AreOurs :
      (agent : AgentKind) (es : List Entry) → AreOurs agent (Entries.entries platform path agent es)
  unfolding AreOurs Entries.entries
  entries-AreOurs agent [] = tt
  entries-AreOurs agent (e ∷ es) =
      let (helper, flag) = command-ours agent e.event e.suffix in
      (
        entry-ours agent (codes e.matcher) (Entries.command_of platform path agent e.event e.suffix)
            helper flag,
        entries-AreOurs agent es,
      )

  overlay_of-IsOverlay :
      (agent : AgentKind) (events : List Text) (hooks : List (String × List Entry))
      → AreListed events hooks
      → IsOverlay agent events (Entries.overlay_of platform path agent hooks)
  unfolding Entries.overlay_of
  overlay_of-IsOverlay agent events [] listed = tt
  overlay_of-IsOverlay agent events ((event, es) ∷ hooks) (here, listed) = (
    (here, (Entries.entries platform path agent es, refl, entries-AreOurs agent es)),
    overlay_of-IsOverlay agent events hooks listed,
  )

  claude-Distinct :
      Distinct (Entries.overlay_of platform path Install.claude_code Entries.claude_hooks)
  unfolding Entries.overlay_of get_member text_eq
  claude-Distinct = (refl, (refl, (refl, (refl, (refl, (refl, (refl, (refl, (refl, tt)))))))))

  codex-Distinct :
      (announce : Bool)
      → Distinct (Entries.overlay_of platform path Install.codex (Entries.codex_hooks announce))
  unfolding Entries.overlay_of get_member text_eq
  codex-Distinct true = (refl, (refl, (refl, (refl, (refl, tt)))))
  codex-Distinct false = (refl, (refl, (refl, (refl, tt))))

  claude-AreListed : AreListed Entries.claude_events Entries.claude_hooks
  unfolding text_eq
  claude-AreListed = (refl, (refl, (refl, (refl, (refl, (refl, (refl, (refl, (refl, tt)))))))))

  codex-AreListed :
      (announce : Bool) → AreListed Entries.codex_events (Entries.codex_hooks announce)
  unfolding text_eq
  codex-AreListed true = (refl, (refl, (refl, (refl, (refl, tt)))))
  codex-AreListed false = (refl, (refl, (refl, (refl, tt))))

  -- Where the path of the helper names `hitch-hook`: on every platform and whatever object a settings
  -- file holds, the installation of Claude's or of Codex's hooks succeeds, a second one succeeds and
  -- leaves each event the hooks that it had behind the first, and neither changes a setting beside
  -- `hooks`.
  pub install_hooks-install_hooks :
      (announce : Bool) (base : Members)
      → InstalledTwice Install.claude_code Entries.claude_events
          (Entries.overlay_of platform path Install.claude_code Entries.claude_hooks)
          base
        × InstalledTwice Install.codex Entries.codex_events
            (Entries.overlay_of platform path Install.codex (Entries.codex_hooks announce))
            base
  install_hooks-install_hooks announce base = (
    merge_json-merge_json Install.claude_code Entries.claude_events _ base claude-Distinct (
        overlay_of-IsOverlay Install.claude_code Entries.claude_events Entries.claude_hooks
          claude-AreListed),
    merge_json-merge_json Install.codex Entries.codex_events _ base (codex-Distinct announce) (
        overlay_of-IsOverlay Install.codex Entries.codex_events (Entries.codex_hooks announce)
          (codex-AreListed announce)),
  )
