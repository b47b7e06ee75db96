-- ===== src/OpenClaw/Curated/Replaced.antt =====
-- `reconcileCurated` where one entry was replaced: its memory is updated.
use agent_memory_manager.Base.Text.{Text}
