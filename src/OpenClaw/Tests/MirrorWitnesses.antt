-- ===== src/OpenClaw/Tests/MirrorWitnesses.antt =====
-- The theorems on whole reconciliations and on the entries of curated files, each at a concrete input.
use agent_memory_manager.Base.{◌≡◌, refl, true, false, List, [], ◌∷◌, ◌++◌, All, arith}
use agent_memory_manager.Base.Text.{
  Text, txt, is_empty, text_eq, trim, drop_start, drop_end, is_space, all_units, split, starts_with,
  includes, join,
}
use agent_memory_manager.Base.Json.{as_string, prop}
use agent_memory_manager.Effects.{
  Env, World, done, put, exists, read_file, make_dir, random_hex, write_file, rename, iso_now,
  for_each, fetch, with_timer,
}
use agent_memory_manager.OpenClaw.Transport.{remember_memory, post_json, exchange, read_reply}
use agent_memory_manager.OpenClaw.Curated.Entries.{
  memory, user, normalize_text, parse_entries, entry_delimiter, extract_memory_id,
}
use agent_memory_manager.OpenClaw.Curated.Store.{
  map_path, curated_file_path, read_curated_entries, read_or, load_sync_state, save_sync_state,
  atomic_write, replace_file, now_rfc3339,
}
use agent_memory_manager.OpenClaw.Curated.Sync.{
  missing_from, has_disappeared, snapshot_of, holds_entry, has_fingerprint, reconcile_curated,
  apply_changes, sync_add, file_added,
}
use agent_memory_manager.OpenClaw.Curated.Calm.{map_of, entries_of}
use agent_memory_manager.OpenClaw.Curated.Format.{IsEntry, parse_entries-join, parse_entries-normal}
use agent_memory_manager.OpenClaw.Curated.Reconcile.{SnapshotOutcome, reconcile-SnapshotOutcome}
use agent_memory_manager.OpenClaw.Curated.Removals.{IsFiled, none_filed, one_filed, HasRemoved}
use agent_memory_manager.OpenClaw.Plugin.Recorded.{IsGrown, IsMirrored, agent_end_recorded}
use agent_memory_manager.OpenClaw.Curated.Growth.{Grows}
use agent_memory_manager.OpenClaw.Curated.Removed.{reconcile_removes}
use agent_memory_manager.OpenClaw.Plugin.{agent_end}
use agent_memory_manager.OpenClaw.Plugin.Turn.{IsSettled}
use agent_memory_manager.OpenClaw.Plugin.Again.{agent_end_again}
use agent_memory_manager.OpenClaw.Tests.World.{
  env, config, calm, accepting, stored, world, two_records, extended, parse_records, print_records,
}

online : is_empty config.api_url ≡ false
unfolding txt
online = refl

-- What the concrete texts and worlds compute through.
opens : Unit {0}
unfolding entries_of map_of map_path curated_file_path txt text_eq put print_records parse_records
    parse_entries trim drop_start drop_end is_space all_units split starts_with includes holds_entry
    has_disappeared normalize_text join missing_from
opens = tt

abbrev two_entries : List Text
two_entries = txt "a b" ∷ txt "c" ∷ []

two-IsEntry : All IsEntry two_entries
unfolding opens
two-IsEntry = (
  record { normal = refl; filled = refl; plain = (omega arith, (omega arith, (omega arith, tt))) },
  (record { normal = refl; filled = refl; plain = (omega arith, tt) }, tt),
)

parse_entries-join_example : parse_entries (join entry_delimiter two_entries) ≡ two_entries
parse_entries-join_example = parse_entries-join two_entries two-IsEntry

parse_entries-normal_example :
    All
      (λ e. (normalize_text e ≡ e) × (is_empty e ≡ false))
      (parse_entries (txt " a \n b\n" ++ entry_delimiter ++ txt "c"))
parse_entries-normal_example = parse_entries-normal (txt " a \n b\n" ++ entry_delimiter ++ txt "c")

-- Every file operation throws.
abbrev broken : Env
broken = record env { fault = λ n. true }

reconcile-SnapshotOutcome_example :
    SnapshotOutcome broken memory extended
      (reconcile_curated broken config memory extended).1
      (reconcile_curated broken config memory extended).0
reconcile-SnapshotOutcome_example = reconcile-SnapshotOutcome broken config memory extended

-- The first entry has gone.
abbrev shortened : World
shortened = world (b'b' ∷ []) two_records (txt "a" ∷ txt "b" ∷ [])

none_came : missing_from (snapshot_of memory shortened) (entries_of env memory shortened) ≡ []
unfolding opens
none_came = refl

a_went :
    missing_from (entries_of env memory shortened) (snapshot_of memory shortened) ≡ txt "a" ∷ []
unfolding opens
a_went = refl

a-IsFiled : IsFiled env memory (map_of env config shortened) (txt "a") (txt "m1")
unfolding opens
a-IsFiled = record {
  holder = stored (txt "a") (txt "m1");
  only = refl;
  named = refl;
  escaped = refl;
}

reconcile_removes_example :
    (v : World) × (reconcile_curated env config memory shortened ≡ (done tt, v))
    × HasRemoved env config memory
        (missing_from (entries_of env memory shortened) (snapshot_of memory shortened))
        (txt "m1" ∷ [])
        shortened
        v
    × (snapshot_of memory v ≡ entries_of env memory shortened)
reconcile_removes_example =
    reconcile_removes env config calm online (λ n part. refl) memory shortened none_came
      (rw a_went (tt, tt)) (rw a_went (one_filed a-IsFiled none_filed))

ended : (agent_end env config extended).0 ≡ done tt
unfolding opens agent_end reconcile_curated apply_changes read_curated_entries read_or exists
    read_file load_sync_state save_sync_state atomic_write replace_file make_dir random_hex
    write_file rename iso_now now_rfc3339 for_each sync_add file_added has_fingerprint
    remember_memory post_json exchange read_reply fetch with_timer extract_memory_id as_string prop
ended = refl

agent_end_again_example :
    ((agent_end env config (agent_end env config extended).1).0 ≡ done tt)
    × IsSettled env
        (agent_end env config extended).1
        (agent_end env config (agent_end env config extended).1).1
agent_end_again_example = agent_end_again env config calm extended ended

named : is_empty (stored (txt "b") (txt "m2")).amm_memory_id ≡ false
unfolding txt
named = refl

memory-IsGrown : IsGrown env config memory extended
unfolding opens
memory-IsGrown = record { known = tt; none_went = refl }

user-IsGrown : IsGrown env config user extended
unfolding opens
user-IsGrown = record { known = tt; none_went = refl }

agent_end_recorded_example :
    (v : World) × (agent_end env config extended ≡ (done tt, v))
    × IsMirrored env config memory v
    × IsMirrored env config user v
    × Grows env config extended v
agent_end_recorded_example =
    agent_end_recorded env config calm accepting online extended memory-IsGrown user-IsGrown
