-- ===== src/OpenClaw/Plugin/Recorded.antt =====
-- index.ts, agent_end: where both files only gained entries, all of them get their records.
use agent_memory_manager.Base.{◌≡◌, refl, sym, ap, ◌∙◌, true, false, List, [], All}
use agent_memory_manager.Base.Text.{Text, is_empty}
use agent_memory_manager.OpenClaw.Config.{AmmConfig}
use agent_memory_manager.Effects.{Env, World, done}
use agent_memory_manager.OpenClaw.Curated.Entries.{Target, memory, user}
use agent_memory_manager.OpenClaw.Curated.Sync.{
  filing, missing_from, snapshot_of, reconcile_curated,
}
use agent_memory_manager.OpenClaw.Curated.Calm.{IsCalm, entries_of}
use agent_memory_manager.OpenClaw.Curated.Growth.{Grows, Grows-trans}
use agent_memory_manager.OpenClaw.Curated.Add.{
  IsAccepting, is_recorded, All-recorded-Grows, reconcile_adds_recorded,
}
use agent_memory_manager.OpenClaw.Curated.Reconcile.{reconcile-SnapshotOutcome}
use agent_memory_manager.OpenClaw.Plugin.{agent_end}
use agent_memory_manager.OpenClaw.Plugin.Again.{done-SameMemory}

module _ (env : Env) (config : AmmConfig) where
  -- Some entries have their records.
  abbrev pub AreRecorded : Target → World → List Text → Type 0
  AreRecorded t w entries = All (λ e. is_recorded env config (filing config t) w e ≡ true) entries

  -- Nothing went since the snapshot, of which every entry has its record.
  pub record IsGrown (t : Target) (w : World) : Type 0 where
    pub known : AreRecorded t w (snapshot_of t w)
    pub none_went : missing_from (entries_of env t w) (snapshot_of t w) ≡ []

  -- Every entry of the file has its record, and the file is the snapshot.
  pub record IsMirrored (t : Target) (w : World) : Type 0 where
    pub all_known : AreRecorded t w (entries_of env t w)
    pub snapshot : snapshot_of t w ≡ entries_of env t w

  -- The snapshot of the other file stays.
  user_snapshot_kept :
      (w v : World)
      → reconcile_curated env config memory w ≡ (done tt, v)
      → snapshot_of user v ≡ snapshot_of user w
  user_snapshot_kept w v e =
      let kept =
        done-SameMemory (reconcile-SnapshotOutcome env config memory w) (ap (λ o. o.0) e) in
      sym (ap (λ o. snapshot_of user o.1) e) ∙ kept.snapshots user

  memory_snapshot_kept :
      (w v : World)
      → reconcile_curated env config user w ≡ (done tt, v)
      → snapshot_of memory v ≡ snapshot_of memory w
  memory_snapshot_kept w v e =
      let kept = done-SameMemory (reconcile-SnapshotOutcome env config user w) (ap (λ o. o.0) e) in
      sym (ap (λ o. snapshot_of memory o.1) e) ∙ kept.snapshots memory

module _ (env : Env) (config : AmmConfig) (calm : IsCalm env config) (accepting : IsAccepting env)
    (online : is_empty config.api_url ≡ false) where
  -- What a reconciliation that only adds does not undo.
  IsGrown-kept :
      (t : Target) (w v : World)
      → Grows env config w v
      → snapshot_of t v ≡ snapshot_of t w
      → IsGrown env config t w
      → IsGrown env config t v
  IsGrown-kept t w v g same h = record {
    known =
        rw same
          (All-recorded-Grows env config calm accepting online (filing config t) _ w v g h.known);
    none_went = rw (same, g.entries t) (h.none_went);
  }

  IsMirrored-kept :
      (t : Target) (w v : World)
      → Grows env config w v
      → snapshot_of t v ≡ snapshot_of t w
      → IsMirrored env config t w
      → IsMirrored env config t v
  IsMirrored-kept t w v g same h = record {
    all_known =
        rw (g.entries t) (
          All-recorded-Grows env config calm accepting online (filing config t) _ w v g
            h.all_known);
    snapshot = rw (same, g.entries t) (h.snapshot);
  }

  reconcile-IsMirrored :
      (t : Target) (w : World)
      → IsGrown env config t w
      → (v : World) × (reconcile_curated env config t w ≡ (done tt, v))
        × IsMirrored env config t v
        × Grows env config w v
  reconcile-IsMirrored t w h =
      let (v, ended, known, snapshot, grown) =
        reconcile_adds_recorded env config calm accepting online t w h.known h.none_went in
      (
        v,
        ended,
        record { all_known = rw (grown.entries t) known; snapshot = rw (grown.entries t) snapshot },
        grown,
      )

  -- When no file operation fails, there is an API URL, AMM accepts what it is sent, every entry of the
  -- two snapshots has its record and no entry of either file went, the end of the agent's turn ends
  -- without an error, every entry of both files is recorded, the files are the snapshots, only POST
  -- requests are sent and no record is dropped.
  pub agent_end_recorded :
      (w : World)
      → IsGrown env config memory w
      → IsGrown env config user w
      → (v : World) × (agent_end env config w ≡ (done tt, v))
        × IsMirrored env config memory v
        × IsMirrored env config user v
        × Grows env config w v
  unfolding agent_end
  agent_end_recorded w m u =
      let (x, first, memories, grown) = reconcile-IsMirrored memory w m in
      let (v, second, users, more) =
        reconcile-IsMirrored user x
          (IsGrown-kept user w x grown (user_snapshot_kept env config w x first) u) in
      (
        v,
        rw (first, second) refl,
        IsMirrored-kept memory x v more (memory_snapshot_kept env config x v second) memories,
        users,
        Grows-trans env config w x v grown more,
      )
