-- ===== src/OpenClaw/Curated/Edges.antt =====
-- `reconcileCurated` of a file that has not changed.
use agent_memory_manager.Base.{◌≡◌, []}
use agent_memory_manager.OpenClaw.Config.{AmmConfig}
use agent_memory_manager.Effects.{Env, World, done}
use agent_memory_manager.Effects.Rules.{for_each-nil}
use agent_memory_manager.OpenClaw.Curated.Entries.{Target}
use agent_memory_manager.OpenClaw.Curated.Store.{curated_file_path}
use agent_memory_manager.OpenClaw.Curated.Sync.{
  missing_from, snapshot_of, set_snapshot, filing, apply_changes, reconcile_curated, sync_add,
  sync_remove,
}
use agent_memory_manager.OpenClaw.Curated.Calm.{IsCalm, entries_of, opened, read_curated-calm}
use agent_memory_manager.OpenClaw.Curated.Replace.{snapshot_of-opened}

module _ (env : Env) (config : AmmConfig) where
  -- When no file operation fails and the file holds the entries of the snapshot, in whatever order
  -- and number, a reconciliation sends nothing, writes nothing, and takes the new snapshot.
  pub reconcile_unchanged :
      (calm : IsCalm env config) (target : Target) (w : World)
      → missing_from (entries_of env target w) (snapshot_of target w) ≡ []
      → missing_from (snapshot_of target w) (entries_of env target w) ≡ []
      → reconcile_curated env config target w ≡ (
        done tt,
        set_snapshot target (entries_of env target w) (opened (curated_file_path env target) w),
      )
  unfolding reconcile_curated apply_changes
  reconcile_unchanged calm target w none_went none_came = rw (
    read_curated-calm env config calm target w,
    snapshot_of-opened (curated_file_path env target) target w,
    none_went,
    none_came,
    for_each-nil (sync_remove env config (filing config target)),
    for_each-nil (sync_add env config (filing config target)),
  )
