-- ===== src/Examples.antt =====
-- Concrete runs: each property with hypotheses, where they hold.
pub mod FramingRuns
pub mod AgentRuns
pub mod ClientRuns
pub mod UploadRuns
pub mod StoreRuns
pub mod RelayRuns
pub mod JobRuns
pub mod DesktopRuns
pub mod HookRuns
