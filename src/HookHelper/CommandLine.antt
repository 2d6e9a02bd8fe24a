-- ===== src/HookHelper/CommandLine.antt =====
-- The command lines that crates/hitch-agent/src/lib.rs installs for a POSIX shell, and what the helper
-- of crates/hitch-hook/src/main.rs reads of them.
use Prim.Native.String.{String}
use hitch.Prelude.{
  ◌≡◌, refl, sym, Option, some, List, [], ◌∷◌, ◌++◌, append_assoc, append-nil, ok, All,
}
use hitch.Prelude.Text.{Text, codes}
use hitch.Core.Domain
use hitch.Core.Domain.{SessionId}
use hitch.Core.Quoting.{sh_outside, posix_sh_quote, escaped, sh_outside-posix_sh_quote}
use hitch.AgentHooks.Install
use hitch.AgentHooks.Install.{AgentKind}
use hitch.AgentHooks.Entries
use hitch.AgentHooks.Entries.{Suffix, CommandArgStyle, command_of, command_arg_style_for_path}
use hitch.HookHelper
use hitch.HookHelper.Installed.{
  IsForeign, command_words, meant, agent_of, suffix_words, parse-command_words,
}

-- A command line: texts with a space between two of them.
abbrev pub joined : List Text → Text
joined [] = []
joined (t ∷ []) = t
joined (t ∷ u ∷ us) = t ++ b' ' ∷ joined (u ∷ us)

-- A shell reads each text as one word, and these are the words.
abbrev pub Reads : List Text → List Text → Type 0
Reads [] [] = Unit
Reads (t ∷ ts) (w ∷ ws) = (sh_outside t ≡ some w) × Reads ts ws
Reads _ _ = ⊥

replace_quote-escaped : (v : Text) → Entries.replace_quote (codes "'\\''") v ≡ escaped v
unfolding Entries.replace_quote escaped
replace_quote-escaped [] = refl
replace_quote-escaped (c ∷ cs) = rw (replace_quote-escaped cs) refl

sh_outside-posix_command_arg : (v : Text) → sh_outside (Entries.posix_command_arg v) ≡ some v
unfolding posix_sh_quote
sh_outside-posix_command_arg v = rw (replace_quote-escaped v) (sh_outside-posix_sh_quote v)

abbrev suffix_texts : Suffix → List Text
suffix_texts Entries.announce = codes "--announce" ∷ []
suffix_texts (Entries.state Option.none) = []
suffix_texts (Entries.state (some s)) = codes "--state" ∷ Entries.state_arg s ∷ []
suffix_texts (Entries.failure detail) =
    codes "--state"
    ∷ codes "error"
    ∷ codes "--detail"
    ∷ Entries.posix_command_arg (codes detail)
    ∷ []

abbrev texts : Text → AgentKind → String → Suffix → List Text
texts path agent event suffix =
    Entries.posix_command_arg path
    ∷ codes "--agent"
    ∷ Entries.id agent
    ∷ codes "--event"
    ∷ Entries.posix_command_arg (codes event)
    ∷ suffix_texts suffix

suffix-Reads : (suffix : Suffix) → Reads (suffix_texts suffix) (suffix_words suffix)
unfolding sh_outside
suffix-Reads Entries.announce = (refl, tt)
suffix-Reads (Entries.state Option.none) = tt
suffix-Reads (Entries.state (some Domain.running)) = (refl, (refl, tt))
suffix-Reads (Entries.state (some Domain.needs_approval)) = (refl, (refl, tt))
suffix-Reads (Entries.state (some Domain.waiting)) = (refl, (refl, tt))
suffix-Reads (Entries.state (some Domain.error)) = (refl, (refl, tt))
suffix-Reads (Entries.failure detail) =
    (refl, (refl, (refl, (sh_outside-posix_command_arg (codes detail), tt))))

id-Reads : (agent : AgentKind) → sh_outside (Entries.id agent) ≡ some (Entries.id agent)
unfolding sh_outside
id-Reads Install.claude_code = refl
id-Reads Install.codex = refl

texts-Reads :
    (path : Text) (agent : AgentKind) (event : String) (suffix : Suffix)
    → Reads (texts path agent event suffix) (path ∷ command_words agent (codes event) suffix)
unfolding sh_outside
texts-Reads path agent event suffix = (
  sh_outside-posix_command_arg path,
  (
    refl,
    (id-Reads agent, (refl, (sh_outside-posix_command_arg (codes event), suffix-Reads suffix))),
  ),
)

-- A suffix, behind the last text in front of it.
joined-suffix :
    (t : Text) (suffix : Suffix)
    → t ++ Entries.suffix_of Entries.posix suffix ≡ joined (t ∷ suffix_texts suffix)
joined-suffix t Entries.announce = refl
joined-suffix t (Entries.state Option.none) = append-nil t
joined-suffix t (Entries.state (some s)) = refl
joined-suffix t (Entries.failure detail) = refl

-- What `hook_command_prefix` writes for a POSIX shell.
posix_prefix :
    (platform : CommandArgStyle) (path : Text) (agent : AgentKind) (event : Text)
    → command_arg_style_for_path platform path ≡ Entries.posix
    → Entries.hook_command_prefix platform path agent event
      ≡ Entries.posix_command_arg path
        ++ (codes " --agent " ++ Entries.id agent)
        ++ (codes " --event " ++ Entries.posix_command_arg event)
unfolding Entries.hook_command_prefix
posix_prefix platform path Install.claude_code event style = rw style refl
posix_prefix platform path Install.codex event style = rw style refl

command_of-joined :
    (platform : CommandArgStyle) (path : Text) (agent : AgentKind) (event : String)
    (suffix : Suffix)
    → command_arg_style_for_path platform path ≡ Entries.posix
    → command_of platform path agent event suffix ≡ joined (texts path agent event suffix)
unfolding command_of
command_of-joined platform path agent event suffix style =
    rw (posix_prefix platform path agent (codes event) style, style)
      (simp (append_assoc, sym (joined-suffix (Entries.posix_command_arg (codes event)) suffix)))

-- A command line that is installed for a POSIX shell is texts with a space between two of them, each
-- of which the shell reads as one word, and the words are the helper's path and then those that the
-- helper is to read. Whatever words the agent appends for which the helper has no arm (unknown flags,
-- their values, positional arguments): the helper's `parse` succeeds on the words behind its path,
-- and reads the agent, the event, the state, the detail and the announce that the entry was written
-- for; only the payload depends on what was appended.
pub parse-command_of :
    (platform : CommandArgStyle) (path default_socket : Text) (session : Option SessionId)
    (agent : AgentKind) (event : String) (suffix : Suffix) (appended : List Text)
    → command_arg_style_for_path platform path ≡ Entries.posix
    → All IsForeign appended
    → (line words : List Text) × (payload : Option Text) × (command_of platform path agent event
          suffix
        ≡ joined line)
      × Reads line (path ∷ words)
      × (HookHelper.parse default_socket (ok session) (words ++ appended)
          ≡ ok (record {
            agent = agent_of agent;
            session_id = session;
            rest = record (meant agent (codes event) suffix (HookHelper.unparsed default_socket)) {
              payload = payload;
            };
          }))
parse-command_of platform path default_socket session agent event suffix appended style foreign =
    let (payload, h) =
      parse-command_words default_socket session agent (codes event) suffix appended foreign in
    (
      texts path agent event suffix,
      command_words agent (codes event) suffix,
      payload,
      command_of-joined platform path agent event suffix style,
      texts-Reads path agent event suffix,
      h,
    )
