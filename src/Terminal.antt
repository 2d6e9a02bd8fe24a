-- ===== src/Terminal.antt =====
-- The bytes of a terminal: the reader's ring of crates/hitch-pty/src/lib.rs, and the dispatcher's
-- log of crates/hitch-daemon/src/main.rs that mirrors it.
pub mod Scrollback
pub mod Log
