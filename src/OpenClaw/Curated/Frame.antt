-- ===== src/OpenClaw/Curated/Frame.antt =====
-- What the file operations and the requests of the mirroring keep, all of its operations keep.
use agent_memory_manager.Base.{ℕ, List, [], ◌∷◌, some_of, take}
use agent_memory_manager.Base.Text.{Text, txt, is_empty}
use agent_memory_manager.Base.Json.{Fields, str, field, end}
use agent_memory_manager.OpenClaw.Config.{AmmConfig}
use agent_memory_manager.Effects.{
  Env, World, Request, SyncRecord, or_throw, ◌>>◌, for_each, tick, iso_now,
}
use agent_memory_manager.Effects.Keeps.{
  Keeps, IsPreorder, or_throw-Keeps, >>=-Keeps, if-Keeps, for_each-Keeps,
}
use agent_memory_manager.OpenClaw.Transport.{
  post_json, remember_memory, succeeds, update_memory, forget_memory,
}
use agent_memory_manager.OpenClaw.Curated.Entries.{Target, extract_memory_id}
use agent_memory_manager.OpenClaw.Curated.Store.{
  now_rfc3339, read_curated_entries, load_sync_state, save_sync_state, queue_failed_sync,
}
use agent_memory_manager.OpenClaw.Curated.Sync.{
  Filing, file_added, sync_add, remove_matched, sync_remove, replace_matched, sync_replace,
  apply_changes, matching, holds_entry, has_disappeared, add_payload, replace_payload, pair_count,
  has_fingerprint, entry_fingerprint,
}

-- A relation between worlds that the parts of the mirroring move along.
pub record IsFrame (env : Env) (config : AmmConfig) (R : World → World → Type 0) : Type 0 where
  pub preorder : IsPreorder R
  pub ticks : (w : World) → R w (tick w)
  pub reads : (t : Target) → Keeps R (read_curated_entries env t)
  pub loads : Keeps R (load_sync_state env config)
  pub saves : (rs : List SyncRecord) → Keeps R (save_sync_state env config rs)
  pub queues :
      (action : Text) (t : Target) (project : Text) (details : Fields) (error : Text)
      → Keeps R (queue_failed_sync env config action t project details error)
  pub posts :
      (path : Text) (payload : Fields) (ms : ℕ) → Keeps R (post_json env config path payload ms)
  pub asks : (req : Request) → Keeps R (succeeds env req)

module _ (env : Env) (config : AmmConfig) (R : World → World → Type 0)
    (frame : IsFrame env config R) (f : Filing) where
  forget-Keeps : (id : Text) → Keeps R (forget_memory env config id)
  unfolding forget_memory
  forget-Keeps id = if-Keeps frame.preorder (is_empty config.api_url) _ _ frame.preorder.reflexive (
      >>=-Keeps frame.preorder (or_throw (env.encode_uri id)) _ (or_throw-Keeps frame.preorder _)
        (λ part. frame.asks _))

  update-Keeps : (id : Text) (payload : Fields) → Keeps R (update_memory env config id payload)
  unfolding update_memory
  update-Keeps id payload =
      if-Keeps frame.preorder (is_empty config.api_url) _ _ frame.preorder.reflexive (
        >>=-Keeps frame.preorder (or_throw (env.encode_uri id)) _ (or_throw-Keeps frame.preorder _)
          (λ part. frame.asks _))

  now-Keeps : Keeps R (now_rfc3339 env)
  unfolding now_rfc3339 iso_now
  now-Keeps w = frame.ticks w

  file_added-Keeps :
      (content : Text) (state : List SyncRecord) (id : Text)
      → Keeps R (file_added env config f content state id)
  unfolding file_added
  file_added-Keeps content state id =
      if-Keeps frame.preorder (is_empty id) _ _ (frame.queues _ _ _ _ _)
        (>>=-Keeps frame.preorder (now_rfc3339 env) _ now-Keeps (λ _. frame.saves _))

  sync_add-Keeps : (content : Text) → Keeps R (sync_add env config f content)
  unfolding sync_add remember_memory
  sync_add-Keeps content =
      >>=-Keeps frame.preorder (load_sync_state env config) _ frame.loads (λ state.
        if-Keeps frame.preorder
          (some_of (has_fingerprint (entry_fingerprint env config f content)) state) _ _
          frame.preorder.reflexive
          (>>=-Keeps frame.preorder (remember_memory env config (add_payload config f content)) _
            (frame.posts _ _ _)
            (λ result.
              >>=-Keeps frame.preorder (or_throw (extract_memory_id result)) _
                (or_throw-Keeps frame.preorder _) (file_added-Keeps content state))))

  remove_matched-Keeps :
      (content : Text) (state : List SyncRecord) (ms : List (ℕ × SyncRecord))
      → Keeps R (remove_matched env config f content state ms)
  unfolding remove_matched forget_memory
  remove_matched-Keeps content state [] = frame.preorder.reflexive
  remove_matched-Keeps content state (a ∷ b ∷ ms) = frame.preorder.reflexive
  remove_matched-Keeps content state ((index, r) ∷ []) =
      if-Keeps frame.preorder (is_empty r.amm_memory_id) _ _ (frame.queues _ _ _ _ _) (
        >>=-Keeps frame.preorder (forget_memory env config r.amm_memory_id) _
          (forget-Keeps r.amm_memory_id)
          (λ ok. if-Keeps frame.preorder ok _ _ (frame.saves _) (frame.queues _ _ _ _ _)))

  sync_remove-Keeps : (content : Text) → Keeps R (sync_remove env config f content)
  unfolding sync_remove
  sync_remove-Keeps content =
      >>=-Keeps frame.preorder (load_sync_state env config) _ frame.loads (λ state.
        remove_matched-Keeps content state (matching (holds_entry f.target content) state))

  replace_matched-Keeps :
      (content : Text) (state : List SyncRecord) (ms : List (ℕ × SyncRecord))
      → Keeps R (replace_matched env config f content state ms)
  unfolding replace_matched
  replace_matched-Keeps content state [] = sync_add-Keeps content
  replace_matched-Keeps content state (a ∷ b ∷ ms) = sync_add-Keeps content
  replace_matched-Keeps content state ((index, r) ∷ []) =
      if-Keeps frame.preorder (is_empty r.amm_memory_id) _ _ (sync_add-Keeps content) (
        >>=-Keeps frame.preorder
          (update_memory env config r.amm_memory_id (replace_payload config f content)) _
          (update-Keeps r.amm_memory_id (replace_payload config f content))
          (λ ok.
            if-Keeps frame.preorder ok _ _
              (>>=-Keeps frame.preorder (now_rfc3339 env) _ now-Keeps (λ _. frame.saves _))
              (>>=-Keeps frame.preorder
                (queue_failed_sync env config (txt "replace") f.target f.project_id
                  (field "content" (str content) (field "amm_memory_id" (str r.amm_memory_id) end))
                  (txt "update_failed"))
                _ (frame.queues _ _ _ _ _) (λ _. sync_add-Keeps content))))

  sync_replace-Keeps : (content : Text) → Keeps R (sync_replace env config f content)
  unfolding sync_replace
  sync_replace-Keeps content =
      >>=-Keeps frame.preorder (load_sync_state env config) _ frame.loads (λ state.
        >>=-Keeps frame.preorder (read_curated_entries env f.target) _ (frame.reads f.target)
          (λ entries.
            replace_matched-Keeps content state
              (matching (has_disappeared f.target entries) state)))

  -- The removals of a list and then the additions of one.
  both-Keeps :
      (removed added : List Text)
      → Keeps R
          (for_each removed (sync_remove env config f) >> for_each added (sync_add env config f))
  both-Keeps removed added =
      >>=-Keeps frame.preorder (for_each removed (sync_remove env config f)) _
        (for_each-Keeps frame.preorder removed _ sync_remove-Keeps)
        (λ _. for_each-Keeps frame.preorder added _ sync_add-Keeps)

  -- Whatever entries went and came, their operations keep what the parts keep.
  pub apply_changes-Keeps :
      (removed added : List Text) → Keeps R (apply_changes env config f removed added)
  unfolding apply_changes
  apply_changes-Keeps [] added = both-Keeps [] added
  apply_changes-Keeps (gone ∷ removed) [] = both-Keeps (gone ∷ removed) []
  apply_changes-Keeps (gone ∷ removed) (new ∷ added) =
      >>=-Keeps frame.preorder
        (for_each (take (pair_count (gone ∷ removed) (new ∷ added)) (new ∷ added))
          (sync_replace env config f))
        _ (for_each-Keeps frame.preorder _ _ sync_replace-Keeps) (λ _. both-Keeps _ _)
