-- ===== src/Daemon/Agent/Shell.antt =====
-- What the command poller makes of a foreground command (crates/hitch-daemon/src/main.rs).
use hitch.Prelude.{◌≡◌, refl, Bool, true, ◌||◌, ◌==◌}
use hitch.Prelude.Text.{Text, codes, text_eq, trim_start, first_word, file_name, unwrap_or}
use hitch.Core.Domain.{KnownAgent, claude_code, codex}

-- The base name of a command's first word, with the fallbacks of the source.
executable : Text → Text
executable command =
    let first = unwrap_or command (first_word command) in unwrap_or first (file_name first)

is_agent : KnownAgent → Text → Bool
is_agent claude_code name = text_eq name (codes "claude")
is_agent codex name = text_eq name (codes "codex")

unfoldable pub agent_command_matches : KnownAgent → Text → Bool
unfolding is_agent executable first_word file_name
agent_command_matches agent command = is_agent agent (executable command)

unfoldable pub foreground_command_is_shell : Text → Bool
unfolding executable first_word file_name trim_start text_eq
foreground_command_is_shell command =
    let name = trim_start (λ c. c == b'-') (executable command) in
    text_eq name (codes "sh")
    || text_eq name (codes "bash")
    || text_eq name (codes "zsh")
    || text_eq name (codes "fish")
    || text_eq name (codes "nu")
    || text_eq name (codes "xonsh")

abbrev login_zsh : Text
login_zsh = codes "/bin/-zsh -l"

login_shell_is_shell : foreground_command_is_shell login_zsh ≡ true
unfolding foreground_command_is_shell
login_shell_is_shell = refl

claude_is_agent : agent_command_matches claude_code (codes "/opt/bin/claude --resume") ≡ true
unfolding agent_command_matches text_eq
claude_is_agent = refl
