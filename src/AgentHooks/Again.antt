-- ===== src/AgentHooks/Again.antt =====
-- That the installation of crates/hitch-agent/src/lib.rs can be repeated.
pub mod Groups
pub mod Events
pub mod Files
pub mod Contains
pub mod Ours
