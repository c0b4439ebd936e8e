-- ===== src/Rpc.antt =====
-- internal/jetkvm/rpc_codec.go and rpc_session.go: requests to a device over one data channel.
pub mod Codec
pub mod Session
pub mod Tests
