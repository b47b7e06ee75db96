-- ===== src/OpenClaw/Curated/Snapshots.antt =====
-- The snapshots: which operations change them, and what a reconciliation leaves in them.
use agent_memory_manager.Base.{◌≡◌, refl, ◌∙◌, arith}
use agent_memory_manager.Base.Text.{Text}
use agent_memory_manager.Base.Json.{Fields}
use agent_memory_manager.OpenClaw.Config.{AmmConfig}
use agent_memory_manager.Effects.{
  Env, World, or_throw, ◌>>=◌, ◌>>◌, try_catch, exists, read_file, make_dir, random_hex, write_file,
  rename, unlink, iso_now, M, pure,
}
use agent_memory_manager.Effects.Keeps.{
  Keeps, IsPreorder, or_throw-Keeps, >>=-Keeps, if-Keeps, try_catch-Keeps,
}
use agent_memory_manager.OpenClaw.Transport.Requests.{post_json-LeavesAlone, succeeds-LeavesAlone}
use agent_memory_manager.OpenClaw.Curated.Entries.{Target, memory, user}
use agent_memory_manager.OpenClaw.Curated.Store.{
  now_rfc3339, read_curated_entries, load_sync_state, save_sync_state, queue_failed_sync, read_or,
  append_sync_queue, read_queue, replace_file, atomic_write, tmp_path, curated_file_path, map_path,
  queue_path,
}
use agent_memory_manager.OpenClaw.Curated.Sync.{snapshot_of}
use agent_memory_manager.OpenClaw.Curated.Frame.{IsFrame}

-- Both snapshots and the pending timers are the same.
pub record SameMemory (u w : World) : Type 0 where
  pub timers : w.timers ≡ u.timers
  pub snapshots : (t : Target) → snapshot_of t w ≡ snapshot_of t u

same_memory :
    (u w : World)
    → w.timers ≡ u.timers
    → w.memory_snapshot ≡ u.memory_snapshot
    → w.user_snapshot ≡ u.user_snapshot
    → SameMemory u w
same_memory u w t m s = record { timers = t; snapshots = elim [ memory ↦ m | user ↦ s ] }

pub SameMemory-IsPreorder : IsPreorder SameMemory
SameMemory-IsPreorder = record {
  reflexive = λ w. record { timers = refl; snapshots = λ t. refl };
  transitive = λ u v w h k. record {
    timers = k.timers ∙ h.timers;
    snapshots = λ t. k.snapshots t ∙ h.snapshots t;
  };
}

module _ (env : Env) where
  exists-Keeps : (path : Text) → Keeps SameMemory (exists path)
  unfolding exists
  exists-Keeps path w = same_memory w _ (ground arith) (ground arith) (ground arith)

  read_file-Keeps : (path : Text) → Keeps SameMemory (read_file env path)
  unfolding read_file
  read_file-Keeps path w = same_memory w _ (ground arith) (ground arith) (ground arith)

  write_file-Keeps : (path content : Text) → Keeps SameMemory (write_file env path content)
  unfolding write_file
  write_file-Keeps path content w = same_memory w _ (ground arith) (ground arith) (ground arith)

  rename-Keeps : (from to : Text) → Keeps SameMemory (rename env from to)
  unfolding rename
  rename-Keeps from to w = same_memory w _ (ground arith) (ground arith) (ground arith)

  unlink-Keeps : (path : Text) → Keeps SameMemory (unlink env path)
  unfolding unlink
  unlink-Keeps path w = same_memory w _ (ground arith) (ground arith) (ground arith)

  make_dir-Keeps : (path : Text) → Keeps SameMemory (make_dir env path)
  unfolding make_dir
  make_dir-Keeps path w = same_memory w _ (ground arith) (ground arith) (ground arith)

  read_or-Keeps :
      {A : Type 0} (path : Text) (fallback : A) (parse : Text → M A)
      → ((text : Text) → Keeps SameMemory (parse text))
      → Keeps SameMemory (read_or env path fallback parse)
  unfolding read_or
  read_or-Keeps path fallback parse h =
      let p = SameMemory-IsPreorder in
      >>=-Keeps p (exists path) _ (exists-Keeps path) (λ there.
        if-Keeps p there _ _
          (try_catch-Keeps p (read_file env path >>= parse) _
            (>>=-Keeps p (read_file env path) parse (read_file-Keeps path) h) p.reflexive)
          p.reflexive)

  replace_file-Keeps :
      (tmp path content : Text) → Keeps SameMemory (replace_file env tmp path content)
  unfolding replace_file
  replace_file-Keeps tmp path content =
      let p = SameMemory-IsPreorder in
      try_catch-Keeps p (do write_file env tmp content; rename env tmp path) _
        (>>=-Keeps p (write_file env tmp content) _ (write_file-Keeps tmp content)
          (λ _. rename-Keeps tmp path))
        (>>=-Keeps p (try_catch (unlink env tmp) (pure tt)) _
          (try_catch-Keeps p (unlink env tmp) _ (unlink-Keeps tmp) p.reflexive) (λ _. p.reflexive))

  random_hex-Keeps : Keeps SameMemory (random_hex env)
  unfolding random_hex
  random_hex-Keeps w = same_memory w _ refl refl refl

  atomic_write-Keeps : (path content : Text) → Keeps SameMemory (atomic_write env path content)
  unfolding atomic_write
  atomic_write-Keeps path content =
      let p = SameMemory-IsPreorder in
      >>=-Keeps p (make_dir env (env.dirname path)) _ (make_dir-Keeps (env.dirname path)) (λ _.
        >>=-Keeps p (random_hex env) _ random_hex-Keeps
          (λ hex. replace_file-Keeps (tmp_path env (env.dirname path) hex) path content))

  append_sync_queue-Keeps :
      (config : AmmConfig) (entry : Fields) → Keeps SameMemory (append_sync_queue env config entry)
  unfolding append_sync_queue read_queue
  append_sync_queue-Keeps config entry =
      >>=-Keeps SameMemory-IsPreorder (read_queue env config) _
        (read_or-Keeps (queue_path env config) _ _ (λ text. SameMemory-IsPreorder.reflexive))
        (λ lines. atomic_write-Keeps (queue_path env config) _)

  now-Keeps : Keeps SameMemory (now_rfc3339 env)
  unfolding now_rfc3339 iso_now
  now-Keeps w = same_memory w _ refl refl refl

  queue_failed_sync-Keeps :
      (config : AmmConfig) (action : Text) (t : Target) (project : Text) (details : Fields)
      (error : Text)
      → Keeps SameMemory (queue_failed_sync env config action t project details error)
  unfolding queue_failed_sync
  queue_failed_sync-Keeps config action t project details error =
      >>=-Keeps SameMemory-IsPreorder (now_rfc3339 env) _ now-Keeps
        (λ now. append_sync_queue-Keeps config _)

  -- Whatever fails, no part of the mirroring changes a snapshot or leaves a timer.
  pub SameMemory-IsFrame : (config : AmmConfig) → IsFrame env config SameMemory
  SameMemory-IsFrame config = record {
    preorder = SameMemory-IsPreorder;
    ticks = λ w. same_memory w _ refl refl refl;
    reads = λ t.
        unfold read_curated_entries in
        read_or-Keeps (curated_file_path env t) _ _ (λ text. SameMemory-IsPreorder.reflexive);
    loads =
        unfold load_sync_state in
        read_or-Keeps (map_path env config) _ _ (λ text.
          >>=-Keeps SameMemory-IsPreorder (or_throw (env.parse_map text)) _
            (or_throw-Keeps SameMemory-IsPreorder _) (λ file. SameMemory-IsPreorder.reflexive));
    saves = λ rs. unfold save_sync_state in atomic_write-Keeps (map_path env config) _;
    queues = queue_failed_sync-Keeps config;
    posts = λ path payload ms w.
        let h = post_json-LeavesAlone env config path payload ms w in
        same_memory w _ h.timers h.memory_snapshot h.user_snapshot;
    asks = λ req w.
        let h = succeeds-LeavesAlone env req w in
        same_memory w _ h.timers h.memory_snapshot h.user_snapshot;
  }
