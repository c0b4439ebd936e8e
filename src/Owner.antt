-- ===== src/Owner.antt =====
-- internal/jetkvm/device_owner.go: the loop that owns the one JetKVM session of a device. State
-- holds its variables, Closures the closures of `loop`, Handlers and Attempt its commands, Step the
-- loop; the other children hold proofs.
pub mod State
pub mod Closures
pub mod Attempt
pub mod Handlers
pub mod Lifecycle
pub mod Step
pub mod Frame
pub mod Invariant
pub mod Replies
pub mod Sticky
pub mod Handover
pub mod Terminal
mod Tests
