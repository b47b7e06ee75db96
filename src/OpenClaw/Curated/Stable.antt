-- ===== src/OpenClaw/Curated/Stable.antt =====
-- The mirroring never changes what the curated files hold.
use agent_memory_manager.Base.{◌≡◌, refl, ◌∙◌, List}
use agent_memory_manager.Base.Text.{Text}
use agent_memory_manager.OpenClaw.Config.{AmmConfig}
use agent_memory_manager.Effects.{Env, World, SyncRecord}
use agent_memory_manager.Effects.Keeps.{Keeps, IsPreorder, >>=-Keeps}
use agent_memory_manager.OpenClaw.Transport.Requests.{post_json-LeavesAlone, succeeds-LeavesAlone}
use agent_memory_manager.OpenClaw.Curated.Entries.{Target, memory, user}
use agent_memory_manager.OpenClaw.Curated.Store.{
  read_curated_entries, load_sync_state, save_sync_state,
}
use agent_memory_manager.OpenClaw.Curated.Sync.{
  snapshot_of, set_snapshot, filing, missing_from, reconcile_curated, apply_changes,
}
use agent_memory_manager.OpenClaw.Curated.Calm.{
  IsCalm, entries_of, load-calm, read_curated-calm, atomic_write-calm, entries_of-saved,
}
use agent_memory_manager.OpenClaw.Curated.Growth.{opened-Grows, queue_failed_sync-Grows}
use agent_memory_manager.OpenClaw.Curated.Frame.{IsFrame, apply_changes-Keeps}

-- Both files hold the same entries.
abbrev pub SameEntries : Env → World → World → Type 0
SameEntries env u w = (t : Target) → entries_of env t w ≡ entries_of env t u

files-SameEntries : (env : Env) (u w : World) → w.files ≡ u.files → SameEntries env u w
unfolding entries_of
files-SameEntries env u w e t = rw e refl

module _ (env : Env) (config : AmmConfig) (calm : IsCalm env config) where
  SameEntries-IsPreorder : IsPreorder (SameEntries env)
  SameEntries-IsPreorder = record { reflexive = λ w t. refl; transitive = λ u v w h k t. k t ∙ h t }

  load-Keeps : Keeps (SameEntries env) (load_sync_state env config)
  load-Keeps w = rw (load-calm env config calm w) ((opened-Grows env config _ w).entries)

  read-Keeps : (t : Target) → Keeps (SameEntries env) (read_curated_entries env t)
  read-Keeps t w =
      rw (read_curated-calm env config calm t w) ((opened-Grows env config _ w).entries)

  save-Keeps : (rs : List SyncRecord) → Keeps (SameEntries env) (save_sync_state env config rs)
  unfolding save_sync_state
  save-Keeps rs w =
      rw (atomic_write-calm env config calm) (λ t. entries_of-saved env config calm t _ w)

  -- Where no file operation fails, no part of the mirroring changes the entries of a file.
  SameEntries-IsFrame : IsFrame env config (SameEntries env)
  SameEntries-IsFrame = record {
    preorder = SameEntries-IsPreorder;
    ticks = λ w. files-SameEntries env w _ refl;
    reads = read-Keeps;
    loads = load-Keeps;
    saves = save-Keeps;
    queues = λ action t project details error w.
        (queue_failed_sync-Grows env config calm action t project details error w).entries;
    posts = λ path payload ms w.
        files-SameEntries env w _ (post_json-LeavesAlone env config path payload ms w).files;
    asks = λ req w. files-SameEntries env w _ (succeeds-LeavesAlone env req w).files;
  }

  set_snapshot-SameEntries :
      (t : Target) (entries : List Text) (w : World) → SameEntries env w (set_snapshot t entries w)
  set_snapshot-SameEntries memory entries w = files-SameEntries env w _ refl
  set_snapshot-SameEntries user entries w = files-SameEntries env w _ refl

  pub reconcile-SameEntries :
      (target : Target) → Keeps (SameEntries env) (reconcile_curated env config target)
  unfolding reconcile_curated
  reconcile-SameEntries target =
      let p = SameEntries-IsPreorder in
      >>=-Keeps p (read_curated_entries env target) _ (read-Keeps target) (λ current. λ v.
        >>=-Keeps p
          (apply_changes env config (filing config target)
            (missing_from current (snapshot_of target v))
            (missing_from (snapshot_of target v) current))
          _
          (apply_changes-Keeps env config (SameEntries env) SameEntries-IsFrame
            (filing config target) _ _)
          (λ _. set_snapshot-SameEntries target current) v)
