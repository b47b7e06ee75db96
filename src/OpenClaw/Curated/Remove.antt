-- ===== src/OpenClaw/Curated/Remove.antt =====
-- `syncRemove` and `syncReplace` where one record matches: one request, and the map follows its reply.
use agent_memory_manager.Base.{
  ℕ, suc, ◌≡◌, refl, ap, ◌∙◌, true, false, some, none, List, [], ◌∷◌, ◌++◌, arith, remove_at, set,
  if◌then◌else◌, Bool-cases, inl, inr,
}
use agent_memory_manager.Base.Text.{Text, txt, is_empty}
use agent_memory_manager.Base.Json.{Fields, obj}
use agent_memory_manager.OpenClaw.Config.{AmmConfig}
use agent_memory_manager.Effects.{Env, World, Request, SyncRecord, tick, iso_now}
use agent_memory_manager.OpenClaw.Transport.{request, succeeds, forget_memory, update_memory}
use agent_memory_manager.OpenClaw.Transport.Requests.{
  reply_ok, succeeds-step, succeeds-sent, succeeds-value, succeeds-LeavesAlone,
}
use agent_memory_manager.OpenClaw.Curated.Store.{
  queue_path, queue_failed_sync, append_sync_queue, map_path, curated_file_path, now_rfc3339,
  save_sync_state, drop_millis,
}
use agent_memory_manager.OpenClaw.Curated.Sync.{
  Filing, matching, holds_entry, has_disappeared, remove_matched, sync_remove, replace_payload,
  renewed, replace_matched, sync_replace,
}
use agent_memory_manager.OpenClaw.Curated.Calm.{
  IsCalm, map_of, entries_of, opened, written, load-calm, read_curated-calm, atomic_write-calm,
  map_of-saved, map_of-queued, read_queue-calm,
}
use agent_memory_manager.OpenClaw.Curated.Growth.{map_of-files, map_of-opened, opened-Grows}

module _ (env : Env) (config : AmmConfig) where
  -- The request that deletes a memory, whose identifier is escaped to `part`.
  abbrev pub delete_request : Text → Request
  delete_request part =
      request config "DELETE" (config.api_url ++ txt "/memories/" ++ part) none 10000

  -- The request that updates it.
  abbrev pub patch_request : Filing → Text → Text → Request
  patch_request f content part =
      request config "PATCH" (config.api_url ++ txt "/memories/" ++ part)
        (some (env.stringify (obj (replace_payload config f content)))) 10000

pub opened-sent : (path : Text) (w : World) → (opened path w).sent ≡ w.sent
unfolding opened
opened-sent path w = ground arith

module _ (env : Env) (config : AmmConfig) (calm : IsCalm env config)
    (online : is_empty config.api_url ≡ false) where
  -- A failure that is queued leaves the map alone.
  queued-map_of :
      (action : Text) (f : Filing) (details : Fields) (error : Text) (w : World)
      → map_of env config
          (queue_failed_sync env config action f.target f.project_id details error w).1
        ≡ map_of env config w
  unfolding queue_failed_sync append_sync_queue now_rfc3339 iso_now
  queued-map_of action f details error w =
      rw (read_queue-calm env config calm, atomic_write-calm env config calm)
        (map_of-queued env config calm _ _
          ∙ map_of-opened env config (queue_path env config) (tick w)
          ∙ map_of-files env config w (tick w) refl)

  queued-sent :
      (action : Text) (f : Filing) (details : Fields) (error : Text) (w : World)
      → (queue_failed_sync env config action f.target f.project_id details error w).1.sent ≡ w.sent
  unfolding queue_failed_sync append_sync_queue now_rfc3339 iso_now written
  queued-sent action f details error w =
      rw (read_queue-calm env config calm, atomic_write-calm env config calm)
        (opened-sent (queue_path env config) (tick w))

  -- After the reply to the deletion.
  forgotten :
      (f : Filing) (content part : Text) (index : ℕ) (r : SyncRecord) (state : List SyncRecord)
      (w : World)
      → map_of env config w ≡ state
      → is_empty r.amm_memory_id ≡ false
      → env.encode_uri r.amm_memory_id ≡ some part
      → ((remove_matched env config f content state ((index, r) ∷ []) w).1.sent
          ≡ w.sent ++ delete_request env config part ∷ [])
        × (map_of env config (remove_matched env config f content state ((index, r) ∷ []) w).1 ≡ (
            if reply_ok (env.reply w.step (delete_request env config part))
            then remove_at index state
            else state))
  unfolding remove_matched forget_memory save_sync_state
  forgotten f content part index r state w loaded named escaped =
      let req = delete_request env config part in
      let v = (succeeds env req w).1 in
      let same = map_of-files env config w v (succeeds-LeavesAlone env req w).files ∙ loaded in
      let sent = succeeds-sent env req w in
      let value = succeeds-value env req w in
      elim (Bool-cases (reply_ok (env.reply w.step req))) [
        | inl ok ↦
            rw (named, online, escaped, value, ok, atomic_write-calm env config calm)
              (unfold written in sent, map_of-saved env config calm (remove_at index state) v)
        | inr failed ↦
            rw (named, online, escaped, value, failed)
              (
                queued-sent (txt "remove") f _ (txt "delete_failed") v ∙ sent,
                queued-map_of (txt "remove") f _ (txt "delete_failed") v ∙ same,
              )
      ]

  -- When no file operation fails, there is an API URL, and exactly one record, with an identifier,
  -- holds the entry that went, its removal sends one DELETE for that identifier. The record leaves
  -- the map if the reply is a success, and the map is unchanged otherwise.
  pub sync_remove_one :
      (f : Filing) (content part : Text) (index : ℕ) (r : SyncRecord) (w : World)
      → matching (holds_entry f.target content) (map_of env config w) ≡ (index, r) ∷ []
      → is_empty r.amm_memory_id ≡ false
      → env.encode_uri r.amm_memory_id ≡ some part
      → ((sync_remove env config f content w).1.sent
          ≡ w.sent ++ delete_request env config part ∷ [])
        × (map_of env config (sync_remove env config f content w).1 ≡ (
            if reply_ok
              (env.reply (opened (map_path env config) w).step (delete_request env config part))
            then remove_at index (map_of env config w)
            else map_of env config w))
  unfolding sync_remove
  sync_remove_one f content part index r w only named escaped =
      let path = map_path env config in
      let (sent, records) =
        forgotten f content part index r (map_of env config w) (opened path w)
          (map_of-opened env config path w) named escaped in
      rw (load-calm env config calm w, only)
        (sent ∙ ap (λ s. s ++ delete_request env config part ∷ []) (opened-sent path w), records)

  -- After the reply to the update, if it is a success.
  updated :
      (f : Filing) (content part : Text) (index : ℕ) (r : SyncRecord) (state : List SyncRecord)
      (w : World)
      → is_empty r.amm_memory_id ≡ false
      → env.encode_uri r.amm_memory_id ≡ some part
      → reply_ok (env.reply w.step (patch_request env config f content part)) ≡ true
      → ((replace_matched env config f content state ((index, r) ∷ []) w).1.sent
          ≡ w.sent ++ patch_request env config f content part ∷ [])
        × (map_of env config (replace_matched env config f content state ((index, r) ∷ []) w).1
            ≡ set state index (renewed env config f content r (drop_millis (env.now (suc w.step)))))
  unfolding replace_matched update_memory save_sync_state now_rfc3339 iso_now
  updated f content part index r state w named escaped ok =
      let req = patch_request env config f content part in
      rw
        (
          named,
          online,
          escaped,
          succeeds-value env req w,
          ok,
          succeeds-step env req w,
          atomic_write-calm env config calm,
        )
        (unfold written in succeeds-sent env req w, map_of-saved env config calm _ _)

  -- When no file operation fails, there is an API URL, exactly one record of the target, with an
  -- identifier, is no longer in the file, and the update succeeds, a replacement sends one PATCH
  -- for that identifier, and that record alone changes: it holds the new content, its fingerprint
  -- and the scope and project it is now filed under.
  pub sync_replace_one :
      (f : Filing) (content part : Text) (index : ℕ) (r : SyncRecord) (w : World)
      → matching (has_disappeared f.target (entries_of env f.target w)) (map_of env config w)
        ≡ (index, r) ∷ []
      → is_empty r.amm_memory_id ≡ false
      → env.encode_uri r.amm_memory_id ≡ some part
      → ((n : ℕ) → reply_ok (env.reply n (patch_request env config f content part)) ≡ true)
      → ((sync_replace env config f content w).1.sent
          ≡ w.sent ++ patch_request env config f content part ∷ [])
        × (n : ℕ) × (map_of env config (sync_replace env config f content w).1
            ≡ set
                (map_of env config w)
                index
                (renewed env config f content r (drop_millis (env.now n))))
  unfolding sync_replace
  sync_replace_one f content part index r w only named escaped ok =
      let path = map_path env config in
      let file = curated_file_path env f.target in
      let first = opened-Grows env config path w in
      let v = opened file (opened path w) in
      let (sent, records) =
        updated f content part index r (map_of env config w) v named escaped (ok v.step) in
      rw
        (
          load-calm env config calm w,
          read_curated-calm env config calm f.target (opened path w),
          first.entries f.target,
          only,
        )
        (
          sent
              ∙ ap (λ s. s ++ patch_request env config f content part ∷ [])
                  (opened-sent file (opened path w) ∙ opened-sent path w),
          suc v.step,
          records,
        )
