-- ===== src/H264.antt =====
-- internal/jetkvm/video.go: H.264 over RTP, from packets to access units with their parameters.
pub mod Nal
pub mod Sequence
pub mod AccessUnit
pub mod Parameters
pub mod State
pub mod Drain
pub mod Process
pub mod Ending
pub mod Events
pub mod History
pub mod Invariant
pub mod Candidate
pub mod Dated
pub mod Recursion
pub mod Order
pub mod Scan
pub mod Window
pub mod Replay
pub mod Aggregate
pub mod Tests
pub mod Masks
