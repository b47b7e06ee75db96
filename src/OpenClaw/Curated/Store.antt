-- ===== src/OpenClaw/Curated/Store.antt =====
-- curated-sync.ts, the files: the curated files, the map of memory ids, and the queue of failures.
use mathlib.Core.List.{reverse}
use agent_memory_manager.Base.{
  ℕ, Bool, ◌&&◌, List, [], ◌∷◌, ◌++◌, leb, ltb, ◌==◌, length, take_last, keep, if◌then◌else◌,
}
use agent_memory_manager.Base.Text.{Text, txt, split, join}
use agent_memory_manager.Base.Json.{str, obj, Fields, end, field, get_or}
use agent_memory_manager.OpenClaw.Config.{AmmConfig, home_dir}
use agent_memory_manager.Effects.{
  Env, SyncRecord, MapFile, no_records, records, M, pure, throw, or_throw, ◌>>=◌, ◌>>◌, try_catch,
  exists, read_file, make_dir, write_file, rename, unlink, iso_now, random_hex,
}
use agent_memory_manager.OpenClaw.Curated.Entries.{
  Target, memory, user, target_name, newline, not_empty, parse_entries,
}

abbrev pub max_queue_lines : ℕ
max_queue_lines = 500

abbrev file_name : Target → Text
file_name memory = txt "MEMORY.md"
file_name user = txt "USER.md"

abbrev is_digit : ℕ → Bool
is_digit c = leb b'0' c && leb c b'9'

-- `/\.\d{3}Z$/`, on the reversed text
abbrev drop_reversed_millis : Text → Text
drop_reversed_millis (z ∷ a ∷ b ∷ c ∷ dot ∷ s) =
    if z == b'Z' && is_digit a && is_digit b && is_digit c && dot == b'.'
    then b'Z' ∷ s
    else z ∷ a ∷ b ∷ c ∷ dot ∷ s
drop_reversed_millis s = s

unfoldable pub drop_millis : Text → Text
drop_millis iso = reverse (drop_reversed_millis (reverse iso))

-- The records that a parsed map file holds.
abbrev pub records_of : MapFile → List SyncRecord
records_of no_records = []
records_of (records rs) = rs

unfoldable pub file_lines : Text → List Text
file_lines s = keep not_empty (split s newline)

-- The queue after a line has been pushed: its newest `max_queue_lines` lines.
unfoldable pub push_line : List Text → Text → List Text
push_line lines line =
    let longer = lines ++ line ∷ [] in
    if ltb max_queue_lines (length longer) then take_last max_queue_lines longer else longer

module _ (env : Env) where
  unfoldable pub now_rfc3339 : M Text
  now_rfc3339 = do iso ← iso_now env; pure (drop_millis iso)

  unfoldable pub curated_file_path : Target → Text
  curated_file_path target =
      let home = env.join_path (home_dir env.environ) (txt ".openclaw") in
      let dir = get_or (env.environ "OPENCLAW_HOME") home in
      env.join_path (env.join_path dir (txt "memories")) (file_name target)

  unfoldable pub map_path : AmmConfig → Text
  map_path config = env.join_path config.state_dir (txt "curated-memory-id-map.json")

  unfoldable pub queue_path : AmmConfig → Text
  queue_path config = env.join_path config.state_dir (txt "curated-memory-sync-queue.jsonl")

  -- What a file reads as: `fallback` where it is missing, cannot be read, or makes `parse` throw.
  unfoldable pub read_or : {A : Type 0} → Text → A → (Text → M A) → M A
  read_or path fallback parse = do
    there ← exists path
    if there then try_catch (read_file env path >>= parse) (pure fallback) else pure fallback

  unfoldable pub read_curated_entries : Target → M (List Text)
  unfolding read_or
  read_curated_entries target =
      read_or (curated_file_path target) [] (λ raw. pure (parse_entries raw))

  abbrev pub tmp_path : Text → Text → Text
  tmp_path dir hex = env.join_path dir (txt "." ++ hex ++ txt ".tmp")

  -- The write to the temporary file and the rename, with the clean-up of a failure.
  unfoldable pub replace_file : Text → Text → Text → M (Unit {0})
  replace_file tmp path content =
      try_catch (do write_file env tmp content; rename env tmp path)
        (do try_catch (unlink env tmp) (pure tt); throw)

  unfoldable pub atomic_write : Text → Text → M (Unit {0})
  unfolding replace_file
  atomic_write path content = do
    make_dir env (env.dirname path)
    hex ← random_hex env
    replace_file (tmp_path (env.dirname path) hex) path content

  unfoldable pub load_sync_state : AmmConfig → M (List SyncRecord)
  unfolding read_or
  load_sync_state config =
      read_or (map_path config) []
        (λ text. do file ← or_throw (env.parse_map text); pure (records_of file))

  unfoldable pub save_sync_state : AmmConfig → List SyncRecord → M (Unit {0})
  save_sync_state config state = atomic_write (map_path config) (env.print_map state ++ newline)

  unfoldable pub read_queue : AmmConfig → M (List Text)
  unfolding read_or
  read_queue config = read_or (queue_path config) [] (λ text. pure (file_lines text))

  unfoldable pub append_sync_queue : AmmConfig → Fields → M (Unit {0})
  unfolding read_queue push_line
  append_sync_queue config entry = do
    lines ← read_queue config
    atomic_write (queue_path config)
        (join newline (push_line lines (env.stringify (obj entry))) ++ newline)

  unfoldable pub queue_failed_sync : AmmConfig → Text → Target → Text → Fields → Text → M (Unit {0})
  queue_failed_sync config action target project_id details error = do
    now ← now_rfc3339
    append_sync_queue config (
        field "occurred_at" (str now) (
          field "source_system" (str (txt "openclaw")) (
            field "kind" (str (txt "curated_memory_sync_failed")) (
              field "action" (str action) (
                field "target" (str (target_name target)) (
                  field "project_id" (str project_id)
                    (field "error" (str error) (field "details" (obj details) end))))))))
