-- ===== src/AgentHooks.antt =====
-- crates/hitch-agent/src/lib.rs: the hooks of the coding agents in their settings files.
pub mod Json
pub mod Install
pub mod Entries
pub mod Again
