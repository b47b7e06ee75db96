-- ===== src/OpenClaw/Tests/Witnesses.antt =====
-- The theorems on the OpenClaw plugin, each at a concrete input.
use agent_memory_manager.Base.{
  ℕ, suc, ◌≡◌, ◌≢◌, ◌⊎◌, ◌≤◌, ◌&&◌, refl, true, false, some, [], ◌∷◌, ◌++◌, All, length, arith,
  take_last,
}
use agent_memory_manager.Base.Text.{
  txt, is_empty, text_eq, trim, drop_start, drop_end, is_space, all_units, split, starts_with,
  includes, join,
}
use agent_memory_manager.Base.Text.Split.{Lacks}
use mathlib.Core.Path.{sym}
use agent_memory_manager.Base.Json.{nan, finite, num, obj, end}
use agent_memory_manager.OpenClaw.Config.{normalize_api_url, clamp_recall_limit}
use agent_memory_manager.OpenClaw.Config.Url.{IsApiUrl, normalize_api_url-IsApiUrl}
use agent_memory_manager.OpenClaw.Config.Limit.{clamp_recall_limit-whole}
use agent_memory_manager.Effects.{World, done, threw, put}
use agent_memory_manager.OpenClaw.Transport.{post_json}
use agent_memory_manager.OpenClaw.Transport.Requests.{
  LeavesAlone, posted, reply_value, post_json_configured,
}
use agent_memory_manager.OpenClaw.Curated.Entries.{
  memory, target_name, normalize_text, parse_entries, curated_scope, is_scope,
}
use agent_memory_manager.OpenClaw.Curated.Store.{
  map_path, curated_file_path, atomic_write, append_sync_queue, max_queue_lines,
}
use agent_memory_manager.OpenClaw.Curated.Sync.{
  holds_entry, has_disappeared, missing_from, snapshot_of, filing, reconcile_curated,
}
use agent_memory_manager.OpenClaw.Curated.Calm.{map_of, entries_of, queue_of, tmp_for}
use agent_memory_manager.OpenClaw.Curated.Atomic.{atomic_write_outcome}
use agent_memory_manager.OpenClaw.Curated.Growth.{Grows}
use agent_memory_manager.OpenClaw.Curated.Replace.{HasStale, reconcile_many_replaced}
use agent_memory_manager.OpenClaw.Curated.Add.{is_recorded, reconcile_adds_recorded}
use agent_memory_manager.OpenClaw.Curated.Queue.{IsLine, append_sync_queue_newest}
use agent_memory_manager.OpenClaw.Curated.Keys.{
  curated_scope_valid, effective_project, fingerprint_input_injective,
}
use agent_memory_manager.OpenClaw.Tests.World.{
  env, config, calm, accepting, stored, world, two_records, replaced, extended, edited,
  parse_records, print_records,
}

online : is_empty config.api_url ≡ false
unfolding txt
online = refl

named : is_empty (stored (txt "b") (txt "m2")).amm_memory_id ≡ false
unfolding txt
named = refl

-- What the concrete worlds compute through.
opens : Unit {0}
unfolding entries_of map_of map_path curated_file_path txt text_eq put print_records parse_records
    parse_entries trim drop_start drop_end is_space all_units split starts_with includes
    has_disappeared holds_entry normalize_text join missing_from
opens = tt

stale_two : HasStale env config memory (entries_of env memory replaced) replaced
unfolding opens
stale_two = (refl, omega arith)

no_fewer :
    length (missing_from (entries_of env memory replaced) (snapshot_of memory replaced))
    ≤ length (missing_from (snapshot_of memory replaced) (entries_of env memory replaced))
unfolding opens
no_fewer = omega arith

reconcile_many_replaced_example :
    Grows env config replaced (reconcile_curated env config memory replaced).1
reconcile_many_replaced_example =
    reconcile_many_replaced env config calm memory replaced stale_two no_fewer

none_went : missing_from (entries_of env memory extended) (snapshot_of memory extended) ≡ []
unfolding opens
none_went = refl

reconcile_adds_recorded_example :
    (v : World) × (reconcile_curated env config memory extended ≡ (done tt, v))
    × All
        (λ e. is_recorded env config (filing config memory) v e ≡ true)
        (entries_of env memory extended)
    × (snapshot_of memory v ≡ entries_of env memory extended)
    × Grows env config extended v
reconcile_adds_recorded_example =
    reconcile_adds_recorded env config calm accepting online memory extended tt none_went

path_ne_tmp : (n : ℕ) → tmp_for env (map_path env config) n ≢ map_path env config
path_ne_tmp n = (calm.map_tmp_fresh n).0

atomic_write_outcome_example :
    (((atomic_write env (map_path env config) (txt "x") edited).0 ≡ done tt)
      × ((atomic_write env (map_path env config) (txt "x") edited).1.files (map_path env config)
          ≡ put edited.files (map_path env config) (some (txt "x")) (map_path env config)))
    ⊎ (((atomic_write env (map_path env config) (txt "x") edited).0 ≡ threw)
        × ((atomic_write env (map_path env config) (txt "x") edited).1.files (map_path env config)
            ≡ edited.files (map_path env config)))
atomic_write_outcome_example =
    atomic_write_outcome env (map_path env config) (txt "x") (map_path env config) edited
      (path_ne_tmp 1) (λ e. path_ne_tmp 1 (sym e))

one-IsLine : IsLine (env.stringify (obj end))
unfolding txt
one-IsLine = (omega arith, refl)

append_sync_queue_newest_example :
    ((append_sync_queue env config end edited).0 ≡ done tt)
    × (queue_of env config (append_sync_queue env config end edited).1
        ≡ take_last max_queue_lines (queue_of env config edited ++ env.stringify (obj end) ∷ []))
    × (length (queue_of env config (append_sync_queue env config end edited).1) ≤ max_queue_lines)
append_sync_queue_newest_example = append_sync_queue_newest env config calm end edited one-IsLine

-- The file holds what the snapshot does.
abbrev kept : World
kept = world (txt "a") two_records (txt "a" ∷ [])

curated_scope_valid_example :
    (is_scope (curated_scope config memory []) ≡ true)
    × ((text_eq (curated_scope config memory []) (txt "project") && is_empty []) ≡ false)
curated_scope_valid_example = curated_scope_valid config memory []

plain : Lacks b'\n' (txt "project") × Lacks b'\n' (txt "p")
unfolding txt
plain = omega arith

fingerprint_input_injective_example :
    (target_name memory ≡ target_name memory)
    × (txt "project" ≡ txt "project")
    × (effective_project (txt "project") (txt "p") ≡ effective_project (txt "project") (txt "p"))
    × (txt "a" ≡ txt "a")
fingerprint_input_injective_example =
    fingerprint_input_injective memory memory (txt "a") (txt "a") (txt "project") (txt "project")
      (txt "p") (txt "p") plain.0 plain.0 plain.1 plain.1 refl

normalize_api_url-IsApiUrl_example :
    (normalize_api_url (some (txt "http://a")) ≡ [])
    ⊎ IsApiUrl (normalize_api_url (some (txt "http://a")))
normalize_api_url-IsApiUrl_example = normalize_api_url-IsApiUrl (some (txt "http://a"))

clamp_recall_limit-whole_example :
    (k : ℕ) × (clamp_recall_limit (λ v. nan) (num (finite false 7 1)) ≡ finite false (suc k) 0)
clamp_recall_limit-whole_example = clamp_recall_limit-whole (λ v. nan) (num (finite false 7 1))

post_json_configured_example :
    ((post_json env config (txt "/events") end 5000 kept).0
      ≡ done (reply_value env (env.reply 0 (posted env config (txt "/events") end 5000 kept))))
    × ((post_json env config (txt "/events") end 5000 kept).1.sent
        ≡ [] ++ posted env config (txt "/events") end 5000 kept ∷ [])
    × LeavesAlone kept (post_json env config (txt "/events") end 5000 kept).1
post_json_configured_example = post_json_configured env config (txt "/events") end 5000 kept online
