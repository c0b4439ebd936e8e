-- ===== src/Manager.antt =====
-- internal/jetkvm/manager.go: limits, admission, requests and what a status call reports.
pub mod Limits
pub mod Admission
pub mod Capture
pub mod Status
pub mod Power
pub mod Tests
