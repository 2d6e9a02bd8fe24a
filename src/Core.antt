-- ===== src/Core.antt =====
-- crates/hitch-core/src: the vocabulary that every crate speaks.
pub mod Domain
pub mod Quoting
