-- ===== src/Telemetry/Runs.antt =====
-- internal/telemetry/recorder.go: the accounts of a recorder in every run.
use jetkvm_mcp.Telemetry.Recorder.{Recorder}
use jetkvm_mcp.Telemetry.Accounts.{Accounts}
