-- ===== src/Lib.antt =====
-- hitch: a daemon that owns the terminal sessions of projects and worktrees, and the clients that
-- attach to it. The daemon (crates/hitch-daemon) keeps the sessions, serves each client over a
-- socket with the framing of crates/hitch-proto, reads each terminal through crates/hitch-pty,
-- persists its layout with crates/hitch-store, and calls git through crates/hitch-git. Hooks of
-- coding agents report an agent's state to it. The desktop application (apps/desktop) attaches to
-- daemons and shows their terminals.
--
-- The parts and their files:
--
-- - Core/Domain.antt: the data types of crates/hitch-core/src. Core/Quoting.antt:
--   powershell_single_quoted of crates/hitch-core/src/lib.rs and posix_sh_quote of
--   crates/hitch-git/src/lib.rs, with a reader of each shell's quoting.
-- - Framing: crates/hitch-proto/src/framing.rs. Pty.antt is PtyFrameDecoder with encode_pty_frame
--   and decode_pty_frame, Control.antt is ControlLineDecoder with encode_control_message;
--   serde_json is a pair of functions that the definitions take. Drain.antt is the loop of both
--   push functions, on fuel: a round that goes on takes at least one byte, so one more than the
--   buffer's length is enough fuel, and the loop's results are shown independent of any greater
--   fuel.
-- - Terminal: Scrollback.antt is ScrollbackBuffer of crates/hitch-pty/src/lib.rs, Log.antt is the
--   broadcast log of OutputBroadcaster in crates/hitch-daemon/src/main.rs.
-- - Daemon, all of crates/hitch-daemon/src/main.rs: Session.antt is DaemonSession; Agent.antt is
--   store_agent_report, store_agent_announce and clear_stale_agent_state; Activity.antt is
--   mark_output_active and collect_output_quiet_edges; Writer.antt is ClientWriter, whose thread
--   and callers interleave in Writer/Delivery.antt; Replay.antt is the output gate of ClientSink,
--   record_and_broadcast_output and replay_sessions_to_client; Clients.antt is register_client,
--   unregister_client, refresh_driving_client and the two preludes; Uploads.antt is begin_upload
--   to cleanup_session_uploads; Relay.antt is SshAgentRelay, and Accept.antt its accept_loop
--   beside the connections and the shutdown; Jobs.antt is start_job_inner with its worker's thread
--   and CancelJob; Composite.antt is run_step, run_commit_and_push and run_create_pr. Where a
--   handler holds a lock from its first read to its last write it is one step; threads interleave
--   as sequences of such steps. A hook stores under the lock and broadcasts behind it, which are
--   two steps of Agent/Mirror.antt. begin_upload takes the lock twice; what other handlers do
--   between its three parts is an argument of it.
-- - Store: crates/hitch-store/src/lib.rs. Rows.antt has the rows and their conversions,
--   Tables.antt the statements and operations on tables of rows, with the constraints of the
--   schema, Layout.antt the ordered lists and load_layout, Migration.antt the migration of a
--   database to the present schema.
-- - Git: crates/hitch-git/src/lib.rs. Search.antt is pr_branch_search and pr_branch_search_chunks,
--   Redact.antt is redact_arg.
-- - Desktop: apps/desktop/src-tauri/src. Router.antt is OutputRouter of lib.rs, Restart.antt is
--   its CrashLoopGuard, and Connect.antt is connect_once and connect_loop of ssh_pool.rs, whose
--   rounds are a list.
-- - AgentHooks: crates/hitch-agent/src/lib.rs. Json.antt is serde_json::Value, Entries.antt has
--   the command lines and the overlays of both agents, Install.antt is prune_hitch_hooks,
--   merge_preserving_existing and what merge_json_file does between reading and writing.
-- - HookHelper.antt: HookArgs::parse of crates/hitch-hook/src/main.rs, with
--   HookHelper/CommandLine.antt and Installed.antt on the command lines of AgentHooks.
-- - Prelude: shared names, lists measured by native numbers, a result type, association lists for
--   maps, texts. Examples: concrete runs.
--
-- Bounds and fuel: numbers are native and unbounded; lengths and counters stay far below 2^64
-- where the source has usize, and the 32-bit frame length is read and written as four bytes. The
-- loop that sheds frames takes one frame a round, so the number of frames is fuel enough. The loop
-- of reserve_upload_path has the source's own bound of 10 000 attempts.
--
-- Not modelled: lock poisoning, log lines, messages of errors, input and output other than what an
-- argument says of its result, and the parts that are calls of the operating system or of other
-- programs: process spawning, git, gh, draft providers, the reading and writing of hook files,
-- transport sockets, the bytes that the ssh-agent relay pumps from git to a GUI and its bridge to
-- a local agent, the process tree of a job, and the user interface. SQLite executes the statements
-- of the store as the text of the statements says; only violated constraints fail. The dispatch of
-- requests and the reaping of dead clients are not modelled: the broadcasts take a dead client out
-- of the registry without setting its disconnected flag, so that the relay's look at the flag
-- (Accept.antt) is modelled for clients that unregister_client takes out alone. What the gates of
-- Replay.antt hand to a client's writer can be shed there (Writer.antt); the two are not joined.
pub mod Prelude
pub mod Core
pub mod Framing
pub mod Terminal
pub mod Store
pub mod Git
pub mod Desktop
pub mod AgentHooks
pub mod HookHelper
pub mod Daemon
pub mod Examples
