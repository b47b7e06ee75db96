-- ===== src/OpenClaw/Curated.antt =====
-- examples/openclaw/src/curated-sync.ts: mirroring MEMORY.md and USER.md to AMM memories.
pub mod Entries
pub mod Store
pub mod Sync
pub mod Frame
pub mod Snapshots
pub mod Reconcile
pub mod Stable
pub mod Atomic
pub mod Calm
pub mod Growth
pub mod Replace
pub mod Add
pub mod Queue
pub mod Remove
pub mod Matches
pub mod Removals
pub mod Removed
pub mod Replaced
pub mod Edges
pub mod Keys
pub mod Format
