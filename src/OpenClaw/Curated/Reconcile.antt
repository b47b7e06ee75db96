-- ===== src/OpenClaw/Curated/Reconcile.antt =====
-- `reconcileCurated` on every branch: what it leaves in the snapshots, whatever fails.
use agent_memory_manager.Base.{◌≡◌, refl, Bool, true, false, Option, some, none, List, [], arith}
use agent_memory_manager.Base.Text.{Text}
use agent_memory_manager.OpenClaw.Config.{AmmConfig}
use agent_memory_manager.Effects.{Env, World, Res, done, threw, M, ◌>>◌, exists, read_file}
use agent_memory_manager.Effects.Keeps.{Keeps}
use agent_memory_manager.OpenClaw.Curated.Entries.{Target, memory, user, parse_entries}
use agent_memory_manager.OpenClaw.Curated.Store.{read_curated_entries, read_or, curated_file_path}
use agent_memory_manager.OpenClaw.Curated.Sync.{
  snapshot_of, set_snapshot, filing, missing_from, reconcile_curated, apply_changes,
}
use agent_memory_manager.OpenClaw.Curated.Frame.{apply_changes-Keeps}
use agent_memory_manager.OpenClaw.Curated.Snapshots.{
  SameMemory, SameMemory-IsPreorder, SameMemory-IsFrame,
}

abbrev readable : Bool → Option Text → List Text
readable true content = []
readable false none = []
readable false (some raw) = parse_entries raw

-- The entries that a curated file reads as: none where it is missing or cannot be read.
unfoldable pub read_value : Env → Target → World → List Text
read_value env target w = readable (env.fault w.step) (w.files (curated_file_path env target))

-- The snapshots and timers after a reconciliation: it ended, and the target's snapshot is what the
-- file was read as; or it threw, and both snapshots are what they were.
pub data SnapshotOutcome (env : Env) (target : Target) (before after : World)
    : Res (Unit {0}) → Type 0 where
  taken :
      SameMemory (set_snapshot target (read_value env target before) before) after
      → SnapshotOutcome env target before after (done tt)
  kept : SameMemory before after → SnapshotOutcome env target before after threw

set_snapshot-SameMemory :
    (target : Target) (entries : List Text) (u v : World)
    → SameMemory u v
    → SameMemory (set_snapshot target entries u) (set_snapshot target entries v)
set_snapshot-SameMemory memory entries u v h = record {
  timers = h.timers;
  snapshots = elim [ memory ↦ refl | user ↦ h.snapshots user ];
}
set_snapshot-SameMemory user entries u v h = record {
  timers = h.timers;
  snapshots = elim [ memory ↦ h.snapshots memory | user ↦ refl ];
}

module _ (env : Env) where
  read-value :
      (target : Target) (w : World)
      → (read_curated_entries env target w).0 ≡ done (read_value env target w)
  unfolding read_curated_entries read_or exists read_file read_value
  read-value target w = ground arith

  finished :
      (target : Target) (m : M (Unit {0})) (w v : World)
      → SameMemory w v
      → Keeps SameMemory m
      → let out = (m >> λ u. (done tt, set_snapshot target (read_value env target w) u)) v in
        SnapshotOutcome env target w out.1 out.0
  finished target m w v h k =
      go (m v).0 (m v).1 (SameMemory-IsPreorder.transitive w v (m v).1 h (k v))
    where
      go :
          (r : Res (Unit {0})) (u : World)
          → SameMemory w u
          → let out =
              ((λ x. (r, u)) >> λ u. (done tt, set_snapshot target (read_value env target w) u))
                v in
            SnapshotOutcome env target w out.1 out.0
      go (done a) u same = taken (set_snapshot-SameMemory target (read_value env target w) w u same)
      go threw u same = kept same

  -- Whatever fails, a reconciliation either ends, and then its target's snapshot is what the file was
  -- read as when it began, or throws, and then no snapshot has changed; the other snapshot and the
  -- pending timers are the same in both cases.
  pub reconcile-SnapshotOutcome :
      (config : AmmConfig) (target : Target) (w : World)
      → SnapshotOutcome env target w
          (reconcile_curated env config target w).1
          (reconcile_curated env config target w).0
  unfolding reconcile_curated
  reconcile-SnapshotOutcome config target w =
      let v = (read_curated_entries env target w).1 in
      let frame = SameMemory-IsFrame env config in
      rw (read-value target w) (
        finished target
          (apply_changes env config (filing config target)
            (missing_from (read_value env target w) (snapshot_of target v))
            (missing_from (snapshot_of target v) (read_value env target w)))
          w v (frame.reads target w)
          (apply_changes-Keeps env config SameMemory frame (filing config target) _ _))
