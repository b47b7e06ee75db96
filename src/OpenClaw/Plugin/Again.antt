-- ===== src/OpenClaw/Plugin/Again.antt =====
-- index.ts, agent_end: after a mirroring that ended, a second one has nothing to do.
use agent_memory_manager.Base.{◌≡◌, refl, sym, ◌∙◌, arith}
use agent_memory_manager.OpenClaw.Config.{AmmConfig}
use agent_memory_manager.Effects.{Env, World, Res, done}
use agent_memory_manager.Effects.Rules.{>>-ended}
use agent_memory_manager.OpenClaw.Curated.Entries.{Target, memory, user}
use agent_memory_manager.OpenClaw.Curated.Sync.{set_snapshot, reconcile_curated}
use agent_memory_manager.OpenClaw.Curated.Calm.{IsCalm, entries_of}
use agent_memory_manager.OpenClaw.Curated.Snapshots.{SameMemory}
use agent_memory_manager.OpenClaw.Curated.Stable.{SameEntries, reconcile-SameEntries}
use agent_memory_manager.OpenClaw.Curated.Reconcile.{
  SnapshotOutcome, taken, kept, read_value, reconcile-SnapshotOutcome,
}
use agent_memory_manager.OpenClaw.Plugin.{agent_end}
use agent_memory_manager.OpenClaw.Plugin.Turn.{IsSettled, agent_end_settled, taken-IsSettled}

pub done-SameMemory :
    {env : Env} {target : Target} {before after : World} {r : Res (Unit {0})}
    → SnapshotOutcome env target before after r
    → r ≡ done tt
    → SameMemory (set_snapshot target (read_value env target before) before) after
done-SameMemory (taken h) e = h
done-SameMemory (kept h) e = cc

module _ (env : Env) (config : AmmConfig) (calm : IsCalm env config) where
  read_value-calm : (t : Target) (w : World) → read_value env t w ≡ entries_of env t w
  unfolding read_value entries_of
  read_value-calm t w = rw (calm.no_fault w.step) (ground arith)

  -- Both parts ended.
  agent_end_done :
      (w : World)
      → (agent_end env config w).0 ≡ done tt
      → let v = (reconcile_curated env config memory w).1 in
        ((reconcile_curated env config memory w).0 ≡ done tt)
        × ((reconcile_curated env config user v).0 ≡ done tt)
        × (agent_end env config w ≡ reconcile_curated env config user v)
  unfolding agent_end
  agent_end_done w h =
      >>-ended (reconcile_curated env config memory) (reconcile_curated env config user) w h

  -- After both parts, the snapshots are the entries of the files.
  settled :
      (w v u : World)
      → SameMemory (set_snapshot memory (read_value env memory w) w) v
      → SameEntries env w v
      → SameMemory (set_snapshot user (read_value env user v) v) u
      → SameEntries env v u
      → IsSettled env u u
  settled w v u h e k d = record {
    files = refl;
    sent = refl;
    memory_entries =
        k.snapshots memory
        ∙ h.snapshots memory
        ∙ read_value-calm memory w
        ∙ sym (e memory)
        ∙ sym (d memory);
    user_entries = k.snapshots user ∙ read_value-calm user v ∙ sym (d user);
  }

  agent_end-IsSettled :
      (w : World)
      → (agent_end env config w).0 ≡ done tt
      → IsSettled env (agent_end env config w).1 (agent_end env config w).1
  agent_end-IsSettled w h =
      let (first, second, whole) = agent_end_done w h in
      let v = (reconcile_curated env config memory w).1 in
      rw whole (
        settled w v _ (done-SameMemory (reconcile-SnapshotOutcome env config memory w) first)
          (reconcile-SameEntries env config calm memory w)
          (done-SameMemory (reconcile-SnapshotOutcome env config user v) second)
          (reconcile-SameEntries env config calm user v))

  -- When no file operation fails, after a mirroring of both files that ended, whatever AMM
  -- answered, a second one ends too, sends nothing and changes no file, and the snapshots are the
  -- entries of the files.
  pub agent_end_again :
      (w : World)
      → (agent_end env config w).0 ≡ done tt
      → let u = (agent_end env config w).1 in
        ((agent_end env config u).0 ≡ done tt) × IsSettled env u (agent_end env config u).1
  agent_end_again w h =
      let u = (agent_end env config w).1 in
      let start = agent_end-IsSettled w h in
      rw (agent_end_settled env config calm u u start)
        (refl, taken-IsSettled env u user _ (taken-IsSettled env u memory u start))
