-- ===== src/Daemon.antt =====
-- crates/hitch-daemon/src/main.rs: the daemon's state machines.
pub mod Session
pub mod Agent
pub mod Writer
pub mod Uploads
pub mod Clients
pub mod Activity
pub mod Replay
pub mod Relay
pub mod Accept
pub mod Jobs
pub mod Composite
