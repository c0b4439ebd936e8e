-- ===== src/Telemetry.antt =====
-- internal/telemetry/recorder.go: the bounded recorder of events.
pub mod Names
pub mod Recorder
pub mod Accounts
pub mod Steps
pub mod Runs
pub mod Tests
