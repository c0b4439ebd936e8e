-- ===== src/H264/Dated.antt =====
-- internal/jetkvm/video.go: the date that a candidate bears, and the watermark that it is past.
pub mod Units
pub mod Delivery
pub mod Packets
