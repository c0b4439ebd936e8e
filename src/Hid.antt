-- ===== src/Hid.antt =====
-- internal/jetkvm/hid.go and internal/jetkvm/scheduling.go: keyboard and mouse reports, and their
-- release.
pub mod Keys
pub mod Layout
pub mod Session
pub mod Release
pub mod Tests
