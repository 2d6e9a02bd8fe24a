-- ===== src/HookHelper.antt =====
-- crates/hitch-hook/src/main.rs: the arguments of the helper that an agent's hook calls. Paths are
-- texts, and the usage messages are left out; the socket's default and the session's id come from
-- the environment and are arguments.
pub mod Installed
pub mod CommandLine
use hitch.Prelude.{
  Bool, true, false, Option, none, some, List, [], ◌∷◌, ◌==◌, if◌then◌else◌, Result, ok, err,
}
use hitch.Prelude.Text.{Text, codes, text_eq}
use hitch.Core.Domain
use hitch.Core.Domain.{AgentState, KnownAgent, SessionId}

pub data HookError : Type 0 where
  usage : HookError

unfoldable pub parse_agent : Text → Option KnownAgent
parse_agent value =
    if text_eq value (codes "claude-code")
    then some Domain.claude_code
    else if text_eq value (codes "claude")
    then some Domain.claude_code
    else if text_eq value (codes "claude_code")
    then some Domain.claude_code
    else if text_eq value (codes "codex")
    then some Domain.codex
    else none

unfoldable pub parse_state : Text → Option (Option AgentState)
parse_state value =
    if text_eq value (codes "running")
    then some (some Domain.running)
    else if text_eq value (codes "needs-approval")
    then some (some Domain.needs_approval)
    else if text_eq value (codes "needs_approval")
    then some (some Domain.needs_approval)
    else if text_eq value (codes "approval")
    then some (some Domain.needs_approval)
    else if text_eq value (codes "waiting")
    then some (some Domain.waiting)
    else if text_eq value (codes "error")
    then some (some Domain.error)
    else if text_eq value (codes "failed")
    then some (some Domain.error)
    else if text_eq value (codes "none")
    then some none
    else if text_eq value (codes "clear")
    then some none
    else if text_eq value (codes "null")
    then some none
    else none

-- The arms of the match on an argument.
pub data Arm : Type 0 where
  socket agent event state session_id cwd detail announce help : Arm
  unknown positional : Arm

abbrev pub is_flag : Text → Bool
is_flag [] = false
is_flag (c ∷ cs) = c == b'-'

unfoldable pub arm_of : Text → Arm
arm_of arg =
    if text_eq arg (codes "--socket")
    then socket
    else if text_eq arg (codes "--agent")
    then agent
    else if text_eq arg (codes "--event")
    then event
    else if text_eq arg (codes "--state")
    then state
    else if text_eq arg (codes "--session-id")
    then session_id
    else if text_eq arg (codes "--cwd")
    then cwd
    else if text_eq arg (codes "--detail")
    then detail
    else if text_eq arg (codes "--announce")
    then announce
    else if text_eq arg (codes "--help")
    then help
    else if text_eq arg (codes "-h")
    then help
    else if is_flag arg
    then unknown
    else positional

-- What was parsed so far.
pub record Parsed : Type 0 where
  pub socket_path : Text
  pub agent : Option KnownAgent
  pub event : Option Text
  pub state : Option (Option AgentState)
  pub cwd : Option Text
  pub detail : Option Text
  pub payload : Option Text
  pub announce : Bool

-- The first positional argument is the payload.
abbrev pub first_payload : Text → Option Text → Option Text
first_payload arg none = some arg
first_payload arg (some payload) = some payload

abbrev pub with_payload : Text → Parsed → Parsed
with_payload arg p = record p { payload = first_payload arg p.payload }

-- An argument with none behind it.
unfoldable pub last_arg : Text → Arm → Parsed → Result HookError Parsed
last_arg arg announce p = ok (record p { announce = true })
last_arg arg unknown p = ok p
last_arg arg positional p = ok (with_payload arg p)
last_arg arg _ p = err usage

abbrev with_agent_arg :
    Option KnownAgent → (Parsed → Result HookError Parsed) → Parsed → Result HookError Parsed
with_agent_arg none next p = err usage
with_agent_arg (some a) next p = next (record p { agent = some a })

abbrev with_state_arg :
    Option (Option AgentState)
    → (Parsed → Result HookError Parsed)
    → Parsed
    → Result HookError Parsed
with_state_arg none next p = err usage
with_state_arg (some s) next p = next (record p { state = some s })

-- An argument with a value behind it: `next` goes on behind the value, `again` with it.
unfoldable pub on_arm :
    Arm
    → Text
    → Text
    → (Parsed → Result HookError Parsed)
    → (Parsed → Result HookError Parsed)
    → Parsed
    → Result HookError Parsed
on_arm socket arg value next again p = next (record p { socket_path = value })
on_arm agent arg value next again p = with_agent_arg (parse_agent value) next p
on_arm event arg value next again p = next (record p { event = some value })
on_arm state arg value next again p = with_state_arg (parse_state value) next p
on_arm session_id arg value next again p = err usage
on_arm cwd arg value next again p = next (record p { cwd = some value })
on_arm detail arg value next again p = next (record p { detail = some value })
on_arm announce arg value next again p = again (record p { announce = true })
on_arm help arg value next again p = err usage
on_arm unknown arg value next again p = if is_flag value then again p else next p
on_arm positional arg value next again p = again (with_payload arg p)

-- The loop over the arguments.
unfoldable pub parse_args : List Text → Parsed → Result HookError Parsed
parse_args [] p = ok p
parse_args (arg ∷ []) p = last_arg arg (arm_of arg) p
parse_args (arg ∷ value ∷ rest) p =
    on_arm (arm_of arg) arg value (parse_args rest) (parse_args (value ∷ rest)) p

abbrev pub unparsed : Text → Parsed
unparsed default_socket = record {
  socket_path = default_socket;
  agent = none;
  event = none;
  state = none;
  cwd = none;
  detail = none;
  payload = none;
  announce = false;
}

pub record HookArgs : Type 0 where
  pub agent : KnownAgent
  pub session_id : Option SessionId
  pub rest : Parsed

abbrev pub with_agent : Option SessionId → Parsed → Option KnownAgent → Result HookError HookArgs
with_agent session p none = err usage
with_agent session p (some a) = ok (record { agent = a; session_id = session; rest = p })

abbrev pub finish : Option SessionId → Result HookError Parsed → Result HookError HookArgs
finish session (err e) = err e
finish session (ok p) = with_agent session p p.agent

-- `session` is what `HITCH_SESSION_ID` reads as.
unfoldable pub parse :
    Text → Result HookError (Option SessionId) → List Text → Result HookError HookArgs
parse default_socket (err e) args = err e
parse default_socket (ok session) args = finish session (parse_args args (unparsed default_socket))
