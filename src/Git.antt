-- ===== src/Git.antt =====
-- The pull-request queries and the masking of logged URLs of crates/hitch-git/src/lib.rs.
pub mod Search
pub mod Redact
