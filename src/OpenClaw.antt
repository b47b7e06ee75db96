-- ===== src/OpenClaw.antt =====
-- The OpenClaw plugin, examples/openclaw: its configuration, its hooks, its transports and the
-- mirroring of curated memory files.
pub mod Config
pub mod Transport
pub mod Capture
pub mod Recall
pub mod DualTransport
pub mod Curated
pub mod Plugin
pub mod Tests
