-- ===== src/OpenClaw/Curated/Removed.antt =====
-- `reconcileCurated` where entries went and none came: their memories are deleted.
use agent_memory_manager.Base.{◌≡◌, refl, ap, ◌∙◌, false, List, [], ◌∷◌, map, ◌++◌}
use agent_memory_manager.Base.Text.{Text, is_empty}
use agent_memory_manager.OpenClaw.Config.{AmmConfig}
use agent_memory_manager.Effects.{Env, World, done, ◌>>◌, for_each}
use agent_memory_manager.Effects.Rules.{for_each-nil}
use agent_memory_manager.OpenClaw.Curated.Entries.{Target, memory, user}
use agent_memory_manager.OpenClaw.Curated.Store.{curated_file_path}
use agent_memory_manager.OpenClaw.Curated.Sync.{
  Filing, filing, missing_from, snapshot_of, set_snapshot, sync_add, sync_remove, apply_changes,
  reconcile_curated,
}
use agent_memory_manager.OpenClaw.Curated.Calm.{
  IsCalm, map_of, entries_of, opened, read_curated-calm,
}
use agent_memory_manager.OpenClaw.Curated.Growth.{map_of-files, map_of-opened}
use agent_memory_manager.OpenClaw.Curated.Replace.{snapshot_of-opened, snapshot_of-set_snapshot}
use agent_memory_manager.OpenClaw.Curated.Remove.{delete_request, opened-sent}
use agent_memory_manager.OpenClaw.Curated.Removals.{
  AreFiled, IsDistinct, IsDeleting, HasRemoved, without_entries, removals,
}

module _ (env : Env) (config : AmmConfig) where
  apply_changes-nil :
      (f : Filing) (removed : List Text)
      → apply_changes env config f removed []
        ≡ for_each removed (sync_remove env config f) >> for_each [] (sync_add env config f)
  unfolding apply_changes
  apply_changes-nil f [] = refl
  apply_changes-nil f (gone ∷ removed) = refl

  pub set_snapshot-map_of :
      (t : Target) (entries : List Text) (w : World)
      → map_of env config (set_snapshot t entries w) ≡ map_of env config w
  set_snapshot-map_of memory entries w = map_of-files env config w _ refl
  set_snapshot-map_of user entries w = map_of-files env config w _ refl

pub set_snapshot-sent :
    (t : Target) (entries : List Text) (w : World) → (set_snapshot t entries w).sent ≡ w.sent
set_snapshot-sent memory entries w = refl
set_snapshot-sent user entries w = refl

module _ (env : Env) (config : AmmConfig) (calm : IsCalm env config)
    (online : is_empty config.api_url ≡ false) (deleting : IsDeleting env config) where
  -- Without entries that came, a reconciliation is the loop over those that went.
  reconcile-removes-eq :
      (target : Target) (w v : World)
      → missing_from (snapshot_of target w) (entries_of env target w) ≡ []
      → for_each
          (missing_from (entries_of env target w) (snapshot_of target w))
          (sync_remove env config (filing config target))
          (opened (curated_file_path env target) w)
        ≡ (done tt, v)
      → reconcile_curated env config target w
        ≡ (done tt, set_snapshot target (entries_of env target w) v)
  unfolding reconcile_curated
  reconcile-removes-eq target w v none_came ended = rw (
    read_curated-calm env config calm target w,
    snapshot_of-opened (curated_file_path env target) target w,
    none_came,
    apply_changes-nil env config (filing config target)
        (missing_from (entries_of env target w) (snapshot_of target w)),
    ended,
    for_each-nil (sync_add env config (filing config target)),
  )

  -- When no file operation fails, there is an API URL, AMM deletes what it is asked to, no entry
  -- came, and each entry that went, none of them twice, is held by exactly one record, with an
  -- identifier that can be escaped, a reconciliation ends without an error, sends one DELETE for
  -- each of them in their order, takes exactly the records that held them out of the map, and
  -- takes the file as the new snapshot.
  pub reconcile_removes :
      {parts : List Text} (target : Target) (w : World)
      → missing_from (snapshot_of target w) (entries_of env target w) ≡ []
      → IsDistinct (missing_from (entries_of env target w) (snapshot_of target w))
      → AreFiled env target
          (map_of env config w)
          (missing_from (entries_of env target w) (snapshot_of target w))
          parts
      → (v : World) × (reconcile_curated env config target w ≡ (done tt, v))
        × HasRemoved env config target
            (missing_from (entries_of env target w) (snapshot_of target w))
            parts
            w
            v
        × (snapshot_of target v ≡ entries_of env target w)
  reconcile_removes {parts = parts} target w none_came distinct filed =
      let path = curated_file_path env target in
      let current = entries_of env target w in
      let gone = missing_from current (snapshot_of target w) in
      let loaded = map_of-opened env config path w in
      let (v, ended, done_all) =
        removals env config calm online deleting (filing config target) {parts = parts} gone
          (opened path w) (rw loaded filed) distinct in
      (
        set_snapshot target current v,
        reconcile-removes-eq target w v none_came ended,
        record {
          left =
              set_snapshot-map_of env config target current v
              ∙ done_all.left
              ∙ ap (without_entries target gone) loaded;
          sent =
              set_snapshot-sent target current v
              ∙ done_all.sent
              ∙ ap (λ s. s ++ map (delete_request env config) parts) (opened-sent path w);
        },
        snapshot_of-set_snapshot target current v,
      )
