-- ===== src/Signals.antt =====
-- internal/signals: the health signals of a session, each a pure function of its rows.
pub mod ToolFailure
pub mod EditChurn
pub mod ToolHealth
pub mod Score
pub mod Context
pub mod Outcome
pub mod Tests
