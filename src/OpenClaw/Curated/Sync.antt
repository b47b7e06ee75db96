-- ===== src/OpenClaw/Curated/Sync.antt =====
-- curated-sync.ts, the operations: adding, removing and replacing an entry, and the reconciliation
-- of a curated file with its snapshot.
use agent_memory_manager.Base.{
  ℕ, suc, Bool, not, ◌&&◌, List, [], ◌∷◌, ◌++◌, leb, length, take, drop, keep, some_of, remove_at,
  set, if◌then◌else◌,
}
use agent_memory_manager.Base.Text.{Text, txt, is_empty, text_eq, includes}
use agent_memory_manager.Base.Json.{str, Fields, end, field}
use agent_memory_manager.OpenClaw.Config.{AmmConfig}
use agent_memory_manager.Effects.{
  Env, World, done, SyncRecord, M, pure, or_throw, ◌>>=◌, ◌>>◌, for_each,
}
use agent_memory_manager.OpenClaw.Transport.{remember_memory, update_memory, forget_memory}
use agent_memory_manager.OpenClaw.Curated.Entries.{
  Target, memory, user, target_name, normalize_text, tight_description, fingerprint, curated_scope,
  curated_type, curated_subject, curated_project_id, extract_memory_id, not_empty,
}
use agent_memory_manager.OpenClaw.Curated.Store.{
  now_rfc3339, read_curated_entries, load_sync_state, save_sync_state, queue_failed_sync,
}

-- `xs.map((r, i) => ({ record: r, index: i }))`
abbrev pub indexed {ℓ} : {A : Type ℓ} → ℕ → List A → List (ℕ × A)
indexed i [] = []
indexed i (x ∷ xs) = (i, x) ∷ indexed (suc i) xs

-- Where the entry is filed: the scope, the configured project, and the project that the
-- fingerprint is taken with.
pub record Filing : Type 0 where
  pub target : Target
  pub project_id : Text
  pub scope : Text
  pub effective_project_id : Text

-- the test of `syncRemove`
unfoldable pub holds_entry : Target → Text → SyncRecord → Bool
holds_entry target content r =
    text_eq r.target (target_name target) && text_eq (normalize_text r.content) content

-- the test of `syncReplace`
unfoldable pub has_disappeared : Target → List Text → SyncRecord → Bool
has_disappeared target entries r =
    text_eq r.target (target_name target) && not (includes entries (normalize_text r.content))

unfoldable pub has_fingerprint : Text → SyncRecord → Bool
has_fingerprint fp r = text_eq r.fingerprint fp

-- The records that pass a test, with their indices.
abbrev pub matching : (SyncRecord → Bool) → List SyncRecord → List (ℕ × SyncRecord)
matching p rs = keep (λ m. p m.1) (indexed 0 rs)

unfoldable pub add_payload : AmmConfig → Filing → Text → Fields
add_payload config f content = field "type" (str (curated_type config f.target)) (
    field "scope" (str f.scope) (
      field "body" (str content) (
        field "tight_description" (str (tight_description content)) (
          field "subject" (str (curated_subject f.target)) (
            if text_eq f.scope (txt "project") && not_empty f.project_id
            then field "project_id" (str f.project_id) end
            else end)))))

unfoldable pub replace_payload : AmmConfig → Filing → Text → Fields
replace_payload config f content = field "body" (str content) (
    field "tight_description" (str (tight_description content)) (
      field "type" (str (curated_type config f.target))
        (field "scope" (str f.scope) (field "status" (str (txt "active")) end))))

module _ (env : Env) (config : AmmConfig) where
  abbrev pub entry_fingerprint : Filing → Text → Text
  entry_fingerprint f content =
      fingerprint env.sha256 (target_name f.target) content f.scope f.effective_project_id

  -- The record of an entry that AMM has stored.
  abbrev pub new_record : Filing → Text → Text → Text → SyncRecord
  new_record f content memory_id now = record {
    target = target_name f.target;
    scope = f.scope;
    content = content;
    fingerprint = entry_fingerprint f content;
    amm_memory_id = memory_id;
    project_id = f.effective_project_id;
    updated_at = now;
  }

  -- `{ ...record, … }`
  abbrev pub renewed : Filing → Text → SyncRecord → Text → SyncRecord
  renewed f content r now = record r {
    scope = f.scope;
    content = content;
    fingerprint = entry_fingerprint f content;
    project_id = f.effective_project_id;
    updated_at = now;
  }

  -- `syncAdd` after the answer of AMM
  unfoldable pub file_added : Filing → Text → List SyncRecord → Text → M (Unit {0})
  file_added f content state memory_id =
      if is_empty memory_id
      then queue_failed_sync env config (txt "add") f.target f.project_id
          (field "content" (str content) (field "scope" (str f.scope) end)) (txt "create_failed")
      else do
        now ← now_rfc3339 env
        save_sync_state env config (state ++ new_record f content memory_id now ∷ [])

  unfoldable pub sync_add : Filing → Text → M (Unit {0})
  unfolding file_added
  sync_add f content = do
    state ← load_sync_state env config
    if some_of (has_fingerprint (entry_fingerprint f content)) state then pure tt else do
      result ← remember_memory env config (add_payload config f content)
      memory_id ← or_throw (extract_memory_id result)
      file_added f content state memory_id

  -- `syncRemove` from the matches on
  unfoldable pub remove_matched :
      Filing → Text → List SyncRecord → List (ℕ × SyncRecord) → M (Unit {0})
  remove_matched f content state ((index, r) ∷ []) =
      if is_empty r.amm_memory_id
      then queue_failed_sync env config (txt "remove") f.target f.project_id
          (field "content" (str content) end) (txt "missing_memory_id")
      else do
        forgotten ← forget_memory env config r.amm_memory_id
        if forgotten
            then save_sync_state env config (remove_at index state)
            else queue_failed_sync env config (txt "remove") f.target f.project_id
                (field "content" (str content) (field "amm_memory_id" (str r.amm_memory_id) end))
                (txt "delete_failed")
  remove_matched f content state _ = pure tt

  unfoldable pub sync_remove : Filing → Text → M (Unit {0})
  unfolding remove_matched
  sync_remove f content = do
    state ← load_sync_state env config
    remove_matched f content state (matching (holds_entry f.target content) state)

  -- `syncReplace` from the records that have disappeared on
  unfoldable pub replace_matched :
      Filing → Text → List SyncRecord → List (ℕ × SyncRecord) → M (Unit {0})
  replace_matched f content state ((index, r) ∷ []) =
      if is_empty r.amm_memory_id then sync_add f content else do
        updated ← update_memory env config r.amm_memory_id (replace_payload config f content)
        if updated
            then (do
              now ← now_rfc3339 env
              save_sync_state env config (set state index (renewed f content r now)))
            else (do
              queue_failed_sync env config (txt "replace") f.target f.project_id
                  (field "content" (str content) (field "amm_memory_id" (str r.amm_memory_id) end))
                  (txt "update_failed")
              sync_add f content)
  replace_matched f content state _ = sync_add f content

  unfoldable pub sync_replace : Filing → Text → M (Unit {0})
  unfolding replace_matched
  sync_replace f content = do
    state ← load_sync_state env config
    entries ← read_curated_entries env f.target
    replace_matched f content state (matching (has_disappeared f.target entries) state)

-- The entries of `xs` that are not in `ys`.
unfoldable pub missing_from : List Text → List Text → List Text
missing_from ys xs = keep (λ e. not (includes ys e)) xs

abbrev pub snapshot_of : Target → World → List Text
snapshot_of memory w = w.memory_snapshot
snapshot_of user w = w.user_snapshot

abbrev pub set_snapshot : Target → List Text → World → World
set_snapshot memory entries w = record w { memory_snapshot = entries }
set_snapshot user entries w = record w { user_snapshot = entries }

abbrev pub filing : AmmConfig → Target → Filing
filing config target =
    let project = curated_project_id config in
    let scope = curated_scope config target project in
    record {
      target = target;
      project_id = project;
      scope = scope;
      effective_project_id = if text_eq scope (txt "project") then project else [];
    }

-- `Math.min(removed.length, added.length)`
abbrev pub pair_count : List Text → List Text → ℕ
pair_count removed added =
    if leb (length removed) (length added) then length removed else length added

module _ (env : Env) where
  unfoldable pub snapshot_curated : M (Unit {0})
  snapshot_curated = do
    entries ← read_curated_entries env memory
    (λ w. (done tt, set_snapshot memory entries w))
    others ← read_curated_entries env user
    λ w. (done tt, set_snapshot user others w)

  -- The operations of `reconcileCurated`, for the entries that went and those that came.
  unfoldable pub apply_changes : AmmConfig → Filing → List Text → List Text → M (Unit {0})
  apply_changes config f (gone ∷ removed) (new ∷ added) =
      let pairs = pair_count (gone ∷ removed) (new ∷ added) in
      do
        for_each (take pairs (new ∷ added)) (sync_replace env config f)
        for_each (drop pairs (gone ∷ removed)) (sync_remove env config f)
        for_each (drop pairs (new ∷ added)) (sync_add env config f)
  apply_changes config f removed added = do
    for_each removed (sync_remove env config f)
    for_each added (sync_add env config f)

  unfoldable pub reconcile_curated : AmmConfig → Target → M (Unit {0})
  unfolding apply_changes
  reconcile_curated config target = do
    current ← read_curated_entries env target
    previous ← (λ w. (done (snapshot_of target w), w))
    apply_changes config (filing config target) (missing_from current previous)
        (missing_from previous current)
    λ w. (done tt, set_snapshot target current w)
