-- ===== src/Media.antt =====
-- internal/jetkvm/virtual_media.go: virtual media of a device.
pub mod Files
pub mod Upload
pub mod Safe
pub mod Modes
pub mod Tests
