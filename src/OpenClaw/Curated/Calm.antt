-- ===== src/OpenClaw/Curated/Calm.antt =====
-- The mirroring when no file operation fails: what each file operation of curated-sync.ts does to
-- the map of memory ids, as equations between worlds.
use agent_memory_manager.Base.{
  ℕ, suc, ◌≡◌, ◌≢◌, false, Option, some, none, List, [], ◌∷◌, ◌++◌, arith, All,
}
use agent_memory_manager.Base.Text.{Text, text_eq_iff, text_eq_refl}
use agent_memory_manager.OpenClaw.Config.{AmmConfig}
use agent_memory_manager.Effects.{
  Env, World, SyncRecord, records, done, tick, put, exists, read_file, make_dir, random_hex,
  write_file, rename,
}
use agent_memory_manager.OpenClaw.Curated.Entries.{Target, memory, user, newline, parse_entries}
use agent_memory_manager.OpenClaw.Curated.Store.{
  records_of, tmp_path, read_or, replace_file, atomic_write, map_path, queue_path,
  curated_file_path, load_sync_state, read_curated_entries, read_queue, file_lines,
}

-- The files that the mirroring reads.
abbrev pub managed_paths : Env → AmmConfig → List Text
managed_paths env config =
    map_path env config
    ∷ queue_path env config
    ∷ curated_file_path env memory
    ∷ curated_file_path env user
    ∷ []

abbrev pub tmp_for : Env → Text → ℕ → Text
tmp_for env path n = tmp_path env (env.dirname path) (env.random n)

-- No file operation throws, the map file can be parsed back, and the managed files and the
-- temporary ones have names of their own.
pub record IsCalm (env : Env) (config : AmmConfig) : Type 0 where
  pub no_fault : (n : ℕ) → env.fault n ≡ false
  pub codec :
      (rs : List SyncRecord) → env.parse_map (env.print_map rs ++ newline) ≡ some (records rs)
  pub map_tmp_fresh :
      (n : ℕ) → All (λ q. tmp_for env (map_path env config) n ≢ q) (managed_paths env config)
  pub queue_tmp_fresh :
      (n : ℕ) → All (λ q. tmp_for env (queue_path env config) n ≢ q) (managed_paths env config)
  pub map_ne_queue : map_path env config ≢ queue_path env config
  pub map_ne_curated : (t : Target) → map_path env config ≢ curated_file_path env t
  pub queue_ne_curated : (t : Target) → queue_path env config ≢ curated_file_path env t

-- The records that the map file holds.
abbrev parsed_records : Env → Option Text → List SyncRecord
parsed_records env none = []
parsed_records env (some text) = elim (env.parse_map text) [
  | none ↦ []
  | some file ↦ records_of file
]

unfoldable pub map_of : Env → AmmConfig → World → List SyncRecord
map_of env config w = parsed_records env (w.files (map_path env config))

abbrev parsed_entries : Option Text → List Text
parsed_entries none = []
parsed_entries (some raw) = parse_entries raw

-- The entries that a curated file holds.
unfoldable pub entries_of : Env → Target → World → List Text
entries_of env target w = parsed_entries (w.files (curated_file_path env target))

-- The world after a file has been looked for, and read where it is there.
unfoldable pub opened : Text → World → World
opened path w = elim (w.files path) [ none ↦ w | some t ↦ tick w ]

-- The world after an atomic write.
unfoldable pub written : Env → Text → Text → World → World
written env path content w =
    let tmp = tmp_for env path (suc w.step) in
    record w {
      files = put (put (put w.files tmp (some content)) path (some content)) tmp none;
      step = suc (suc (suc (suc w.step)));
    }

abbrev lines_or_none : Option Text → List Text
lines_or_none none = []
lines_or_none (some text) = file_lines text

-- The lines that the queue file holds.
unfoldable pub queue_of : Env → AmmConfig → World → List Text
queue_of env config w = lines_or_none (w.files (queue_path env config))

module _ (env : Env) (config : AmmConfig) (calm : IsCalm env config) where
  pub read_queue-calm :
      (w : World)
      → read_queue env config w ≡ (done (queue_of env config w), opened (queue_path env config) w)
  unfolding read_queue read_or exists read_file queue_of opened
  read_queue-calm w = ground (arith, calm.no_fault w.step)

  pub load-calm :
      (w : World)
      → load_sync_state env config w ≡ (done (map_of env config w), opened (map_path env config) w)
  unfolding load_sync_state read_or exists read_file map_of opened
  load-calm w = ground (arith, calm.no_fault w.step)

  pub read_curated-calm :
      (target : Target) (w : World)
      → read_curated_entries env target w
        ≡ (done (entries_of env target w), opened (curated_file_path env target) w)
  unfolding read_curated_entries read_or exists read_file entries_of opened
  read_curated-calm target w = ground (arith, calm.no_fault w.step)

  replace_file-calm :
      (tmp path content : Text) (w : World)
      → replace_file env tmp path content w ≡ (
        done tt,
        record w {
          files = put (put (put w.files tmp (some content)) path (some content)) tmp none;
          step = suc (suc w.step);
        },
      )
  unfolding replace_file write_file rename put
  replace_file-calm tmp path content w =
      ground (arith, calm.no_fault w.step, calm.no_fault (suc w.step), text_eq_refl tmp)

  pub atomic_write-calm :
      (path content : Text) (w : World)
      → atomic_write env path content w ≡ (done tt, written env path content w)
  unfolding atomic_write make_dir random_hex written
  atomic_write-calm path content w = rw (calm.no_fault w.step) (
      replace_file-calm (tmp_for env path (suc w.step)) path content
        (record w { step = suc (suc w.step) }))

  tmp_ne_curated :
      (path : Text) (t : Target) (n : ℕ)
      → All (λ q. tmp_for env path n ≢ q) (managed_paths env config)
      → tmp_for env path n ≢ curated_file_path env t
  tmp_ne_curated path memory n h = h.1.1.0
  tmp_ne_curated path user n h = h.1.1.1.0

  -- What the map holds after it has been saved.
  pub map_of-saved :
      (state : List SyncRecord) (w : World)
      → map_of env config (written env (map_path env config) (env.print_map state ++ newline) w)
        ≡ state
  unfolding map_of written put
  map_of-saved state w = ground (
    arith,
    text_eq_refl (map_path env config),
    text_eq_iff (tmp_for env (map_path env config) (suc w.step)) (map_path env config),
    (calm.map_tmp_fresh (suc w.step)).0,
    calm.codec state,
  )

  pub map_of-queued :
      (content : Text) (w : World)
      → map_of env config (written env (queue_path env config) content w) ≡ map_of env config w
  unfolding map_of written put
  map_of-queued content w = ground (
    arith,
    text_eq_iff (queue_path env config) (map_path env config),
    calm.map_ne_queue,
    text_eq_iff (tmp_for env (queue_path env config) (suc w.step)) (map_path env config),
    (calm.queue_tmp_fresh (suc w.step)).0,
  )

  pub entries_of-saved :
      (t : Target) (content : Text) (w : World)
      → entries_of env t (written env (map_path env config) content w) ≡ entries_of env t w
  unfolding entries_of written put
  entries_of-saved t content w = ground (
    arith,
    text_eq_iff (map_path env config) (curated_file_path env t),
    calm.map_ne_curated t,
    text_eq_iff (tmp_for env (map_path env config) (suc w.step)) (curated_file_path env t),
    tmp_ne_curated (map_path env config) t (suc w.step) (calm.map_tmp_fresh (suc w.step)),
  )

  pub entries_of-queued :
      (t : Target) (content : Text) (w : World)
      → entries_of env t (written env (queue_path env config) content w) ≡ entries_of env t w
  unfolding entries_of written put
  entries_of-queued t content w = ground (
    arith,
    text_eq_iff (queue_path env config) (curated_file_path env t),
    calm.queue_ne_curated t,
    text_eq_iff (tmp_for env (queue_path env config) (suc w.step)) (curated_file_path env t),
    tmp_ne_curated (queue_path env config) t (suc w.step) (calm.queue_tmp_fresh (suc w.step)),
  )
