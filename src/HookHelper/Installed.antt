-- ===== src/HookHelper/Installed.antt =====
-- What the helper of crates/hitch-hook/src/main.rs reads of the arguments that
-- crates/hitch-agent/src/lib.rs installs, and of what the agent appends to them.
use hitch.Prelude.{
  ◌≡◌, refl, ap, ◌∙◌, ◌⊎◌, inl, inr, true, Option, none, some, List, [], ◌∷◌, ◌++◌, Bool-cases, ok,
  All,
}
use hitch.Prelude.Text.{Text, codes, text_eq}
use hitch.Core.Domain
use hitch.Core.Domain.{AgentState, KnownAgent, SessionId}
use hitch.AgentHooks.Install
use hitch.AgentHooks.Install.{AgentKind}
use hitch.AgentHooks.Entries
use hitch.AgentHooks.Entries.{Suffix}
use hitch.HookHelper
use hitch.HookHelper.{Parsed, HookArgs, parse_args}

-- An argument that the helper has no arm for.
abbrev pub IsForeign : Text → Type 0
IsForeign arg =
    (HookHelper.arm_of arg ≡ HookHelper.unknown) ⊎ (HookHelper.arm_of arg ≡ HookHelper.positional)

-- Such arguments change nothing but the payload.
foreign-args :
    (tail : List Text) (p : Parsed)
    → All IsForeign tail
    → (payload : Option Text) × (parse_args tail p ≡ ok (record p { payload = payload }))
unfolding HookHelper.parse_args HookHelper.last_arg HookHelper.on_arm
foreign-args [] p fs = (p.payload, refl)
foreign-args (arg ∷ []) p (inl e, fs) = (p.payload, rw e refl)
foreign-args (arg ∷ []) p (inr e, fs) = (HookHelper.first_payload arg p.payload, rw e refl)
foreign-args (arg ∷ value ∷ rest) p (inl e, (f, fs)) =
    elim (Bool-cases (HookHelper.is_flag value)) [
      | inl flag ↦
          let (payload, h) = foreign-args (value ∷ rest) p (f, fs) in (payload, rw (e, flag) h)
      | inr bare ↦ let (payload, h) = foreign-args rest p fs in (payload, rw (e, bare) h)
    ]
foreign-args (arg ∷ value ∷ rest) p (inr e, (f, fs)) =
    let (payload, h) = foreign-args (value ∷ rest) (HookHelper.with_payload arg p) (f, fs) in
    (payload, rw e h)

-- The words behind the helper of an installed command line.
abbrev pub suffix_words : Suffix → List Text
suffix_words Entries.announce = codes "--announce" ∷ []
suffix_words (Entries.state none) = []
suffix_words (Entries.state (some s)) = codes "--state" ∷ Entries.state_arg s ∷ []
suffix_words (Entries.failure detail) =
    codes "--state" ∷ codes "error" ∷ codes "--detail" ∷ codes detail ∷ []

abbrev pub command_words : AgentKind → Text → Suffix → List Text
command_words agent event suffix =
    codes "--agent" ∷ Entries.id agent ∷ codes "--event" ∷ event ∷ suffix_words suffix

abbrev pub agent_of : AgentKind → KnownAgent
agent_of Install.claude_code = Domain.claude_code
agent_of Install.codex = Domain.codex

-- What an entry means.
abbrev pub meant : AgentKind → Text → Suffix → Parsed → Parsed
meant agent event Entries.announce p = record p {
  agent = some (agent_of agent);
  event = some event;
  announce = true;
}
meant agent event (Entries.state none) p = record p {
  agent = some (agent_of agent);
  event = some event;
}
meant agent event (Entries.state (some s)) p = record p {
  agent = some (agent_of agent);
  event = some event;
  state = some (some s);
}
meant agent event (Entries.failure detail) p = record p {
  agent = some (agent_of agent);
  event = some event;
  state = some (some Domain.error);
  detail = some (codes detail);
}

announce-args :
    (tail : List Text) (p : Parsed)
    → parse_args (codes "--announce" ∷ tail) p ≡ parse_args tail (record p { announce = true })
unfolding HookHelper.parse_args HookHelper.on_arm HookHelper.last_arg HookHelper.arm_of text_eq
announce-args [] p = refl
announce-args (arg ∷ tail) p = refl

suffix-args :
    (agent : AgentKind) (event : Text) (suffix : Suffix) (tail : List Text) (p : Parsed)
    → parse_args
        (suffix_words suffix ++ tail)
        (record p { agent = some (agent_of agent); event = some event })
      ≡ parse_args tail (meant agent event suffix p)
unfolding HookHelper.parse_args HookHelper.on_arm HookHelper.arm_of HookHelper.parse_state text_eq
suffix-args agent event Entries.announce tail p =
    announce-args tail (record p { agent = some (agent_of agent); event = some event })
suffix-args agent event (Entries.state none) tail p = refl
suffix-args agent event (Entries.state (some Domain.running)) tail p = refl
suffix-args agent event (Entries.state (some Domain.needs_approval)) tail p = refl
suffix-args agent event (Entries.state (some Domain.waiting)) tail p = refl
suffix-args agent event (Entries.state (some Domain.error)) tail p = refl
suffix-args agent event (Entries.failure detail) tail p = refl

command-args :
    (agent : AgentKind) (event : Text) (suffix : Suffix) (tail : List Text) (p : Parsed)
    → parse_args (command_words agent event suffix ++ tail) p
      ≡ parse_args tail (meant agent event suffix p)
unfolding HookHelper.parse_args HookHelper.on_arm HookHelper.arm_of HookHelper.parse_agent text_eq
command-args Install.claude_code event suffix tail p =
    suffix-args Install.claude_code event suffix tail p
command-args Install.codex event suffix tail p = suffix-args Install.codex event suffix tail p

meant-agent :
    (session : Option SessionId) (agent : AgentKind) (event : Text) (suffix : Suffix)
    (payload : Option Text) (p : Parsed)
    → let read = record (meant agent event suffix p) { payload = payload } in
      HookHelper.finish session (ok read)
      ≡ ok (record { agent = agent_of agent; session_id = session; rest = read })
meant-agent session agent event Entries.announce payload p = refl
meant-agent session agent event (Entries.state none) payload p = refl
meant-agent session agent event (Entries.state (some s)) payload p = refl
meant-agent session agent event (Entries.failure detail) payload p = refl

-- Whatever unknown flags with their values and whatever positional arguments an agent appends to an
-- installed command line: the helper's `parse` succeeds, and reads the agent, the event, the state,
-- the detail and the announce that the entry was written for; only the payload depends on what was
-- appended.
pub parse-command_words :
    (default_socket : Text) (session : Option SessionId) (agent : AgentKind) (event : Text)
    (suffix : Suffix) (tail : List Text)
    → All IsForeign tail
    → (payload : Option Text) × (HookHelper.parse default_socket
          (ok session)
          (command_words agent event suffix ++ tail)
        ≡ ok (record {
          agent = agent_of agent;
          session_id = session;
          rest = record (meant agent event suffix (HookHelper.unparsed default_socket)) {
            payload = payload;
          };
        }))
unfolding HookHelper.parse
parse-command_words default_socket session agent event suffix tail fs =
    let p = HookHelper.unparsed default_socket in
    let (payload, h) = foreign-args tail (meant agent event suffix p) fs in
    (
      payload,
      ap (HookHelper.finish session) (command-args agent event suffix tail p ∙ h)
          ∙ meant-agent session agent event suffix payload p,
    )
