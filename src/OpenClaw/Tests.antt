-- ===== src/OpenClaw/Tests.antt =====
-- A concrete environment, and the theorems on the OpenClaw plugin at concrete inputs.
pub mod World
mod Witnesses
mod PluginWitnesses
mod MirrorWitnesses
