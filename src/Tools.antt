-- ===== src/Tools.antt =====
-- internal/mcpserver: what stands between the tools and their callers.
pub mod Failure
pub mod Bearer
pub mod Tests
