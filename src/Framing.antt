-- ===== src/Framing.antt =====
-- crates/hitch-proto/src/framing.rs: the wire framing. `Error` has `FrameError`, `Drain` the loop
-- that both decoders run, `Pty` the length-prefixed payload frames, and `Control` the
-- newline-delimited control lines.
pub mod Error
pub mod Drain
pub mod Pty
pub mod Control
