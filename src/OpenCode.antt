-- ===== src/OpenCode.antt =====
-- The OpenCode plugins: examples/opencode/plugins/amm.js with what it reads in a message, its hooks,
-- its processes and its tools, and examples/api-mode/opencode/amm-http-plugin.ts.
pub mod Message
pub mod State
pub mod Hooks
pub mod Process
pub mod Tools
pub mod HttpPlugin
pub mod Maps
pub mod Dedupe
pub mod Idle
pub mod Steps
pub mod Activity
mod Tests
