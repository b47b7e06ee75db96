-- ===== src/OpenClaw/Curated/Growth.antt =====
-- Operations that only add: they send nothing but POST requests and only append to the map.
use agent_memory_manager.Base.{
  ℕ, ◌≡◌, refl, sym, ◌∙◌, Option, some, none, List, [], ◌∷◌, ◌++◌, arith, All, All-append,
  append-nil, append_assoc, Bool-cases, inl, inr, some_of,
}
use agent_memory_manager.Base.Text.{Text, is_empty}
use agent_memory_manager.Base.Json.{Fields}
use agent_memory_manager.OpenClaw.Config.{AmmConfig}
use agent_memory_manager.Effects.{Env, World, Request, SyncRecord, iso_now, tick, or_throw, ◌>>=◌}
use agent_memory_manager.Effects.Rules.{>>=-world, if-world}
use agent_memory_manager.OpenClaw.Transport.{post_json, remember_memory}
use agent_memory_manager.OpenClaw.Transport.Requests.{
  posted, post_json_unconfigured, post_json_configured, post_json-LeavesAlone,
}
use agent_memory_manager.OpenClaw.Curated.Store.{
  map_path, queue_path, queue_failed_sync, append_sync_queue, now_rfc3339, save_sync_state,
}
use agent_memory_manager.OpenClaw.Curated.Sync.{
  Filing, file_added, sync_add, add_payload, has_fingerprint, entry_fingerprint,
}
use agent_memory_manager.OpenClaw.Curated.Entries.{Target, newline, extract_memory_id}
use agent_memory_manager.OpenClaw.Curated.Calm.{
  IsCalm, map_of, entries_of, opened, written, map_of-saved, map_of-queued, entries_of-saved,
  entries_of-queued, load-calm, read_queue-calm, atomic_write-calm,
}

pub record Grows (env : Env) (config : AmmConfig) (u w : World) : Type 0 where
  pub new_requests : List Request
  pub new_records : List SyncRecord
  pub sent : w.sent ≡ u.sent ++ new_requests
  pub posts : All (λ r. r.method ≡ "POST") new_requests
  pub appended : map_of env config w ≡ map_of env config u ++ new_records
  pub entries : (t : Target) → entries_of env t w ≡ entries_of env t u

module _ (env : Env) (config : AmmConfig) where
  pub Grows-refl : (w : World) → Grows env config w w
  Grows-refl w = record {
    new_requests = [];
    new_records = [];
    sent = sym (append-nil _);
    posts = tt;
    appended = sym (append-nil _);
    entries = λ t. refl;
  }

  pub Grows-trans :
      (u v w : World) → Grows env config u v → Grows env config v w → Grows env config u w
  Grows-trans u v w g h = record {
    new_requests = g.new_requests ++ h.new_requests;
    new_records = g.new_records ++ h.new_records;
    sent = h.sent ∙ rw (g.sent) (append_assoc u.sent g.new_requests h.new_requests);
    posts = All-append (λ r. r.method ≡ "POST") g.new_requests h.new_requests g.posts h.posts;
    appended =
        h.appended
        ∙ rw (g.appended) (append_assoc (map_of env config u) g.new_records h.new_records);
    entries = λ t. h.entries t ∙ g.entries t;
  }

  -- A world with the same files, and perhaps more POST requests.
  pub Grows-same_files :
      (u w : World) (reqs : List Request)
      → w.files ≡ u.files
      → w.sent ≡ u.sent ++ reqs
      → All (λ r. r.method ≡ "POST") reqs
      → Grows env config u w
  unfolding map_of entries_of
  Grows-same_files u w reqs files sent posts = record {
    new_requests = reqs;
    new_records = [];
    sent = sent;
    posts = posts;
    appended = rw files (sym (append-nil _));
    entries = λ t. rw files;
  }

  pub map_of-files : (u w : World) → w.files ≡ u.files → map_of env config w ≡ map_of env config u
  unfolding map_of
  map_of-files u w e = rw e

  pub map_of-opened :
      (path : Text) (w : World) → map_of env config (opened path w) ≡ map_of env config w
  unfolding opened
  map_of-opened path w = map_of-files w (opened path w) (ground arith)

  pub map_of-post_json :
      (path : Text) (payload : Fields) (ms : ℕ) (w : World)
      → map_of env config (post_json env config path payload ms w).1 ≡ map_of env config w
  map_of-post_json path payload ms w =
      map_of-files w _ (post_json-LeavesAlone env config path payload ms w).files

  pub post_json-Grows :
      (path : Text) (payload : Fields) (ms : ℕ) (w : World)
      → Grows env config w (post_json env config path payload ms w).1
  post_json-Grows path payload ms w = elim (Bool-cases (is_empty config.api_url)) [
    | inl off ↦
        rw (post_json_unconfigured env config path payload ms w off)
          (Grows-same_files _ _ [] refl (sym (append-nil _)) tt)
    | inr on ↦
        let (value, sent, alone) = post_json_configured env config path payload ms w on in
        Grows-same_files _ _ (posted env config path payload ms w ∷ []) alone.files sent (refl, tt)
  ]

  ticked-Grows : (w : World) → Grows env config w (tick w)
  ticked-Grows w = Grows-same_files w (tick w) [] refl (sym (append-nil _)) tt

  pub opened-Grows : (path : Text) (w : World) → Grows env config w (opened path w)
  unfolding opened
  opened-Grows path w =
      Grows-same_files w (opened path w) [] (ground arith) (ground (arith, append-nil w.sent)) tt

module _ (env : Env) (config : AmmConfig) (calm : IsCalm env config) where
  -- Saving the map with records appended to it.
  pub saved-Grows :
      (new : List SyncRecord) (w : World)
      → Grows env config w (
          written env
            (map_path env config)
            (env.print_map (map_of env config w ++ new) ++ newline)
            w)
  saved-Grows new w = record {
    new_requests = [];
    new_records = new;
    sent = unfold written in sym (append-nil _);
    posts = tt;
    appended = map_of-saved env config calm (map_of env config w ++ new) w;
    entries = λ t. entries_of-saved env config calm t _ w;
  }

  queued-Grows :
      (content : Text) (w : World)
      → Grows env config w (written env (queue_path env config) content w)
  queued-Grows content w = record {
    new_requests = [];
    new_records = [];
    sent = unfold written in sym (append-nil _);
    posts = tt;
    appended = map_of-queued env config calm content w ∙ sym (append-nil _);
    entries = λ t. entries_of-queued env config calm t content w;
  }

  append_sync_queue-Grows :
      (entry : Fields) (w : World) → Grows env config w (append_sync_queue env config entry w).1
  unfolding append_sync_queue
  append_sync_queue-Grows entry w =
      rw (read_queue-calm env config calm w, atomic_write-calm env config calm)
        (Grows-trans env config _ _ _ (opened-Grows env config (queue_path env config) w)
          (queued-Grows _ _))

  pub queue_failed_sync-Grows :
      (action : Text) (t : Target) (project : Text) (details : Fields) (error : Text) (w : World)
      → Grows env config w (queue_failed_sync env config action t project details error w).1
  unfolding queue_failed_sync now_rfc3339 iso_now
  queue_failed_sync-Grows action t project details error w =
      Grows-trans env config _ _ _ (ticked-Grows env config w) (append_sync_queue-Grows _ (tick w))

  file_added-Grows :
      (f : Filing) (content : Text) (state : List SyncRecord) (id : Text) (w : World)
      → map_of env config w ≡ state
      → Grows env config w (file_added env config f content state id w).1
  unfolding file_added now_rfc3339 iso_now save_sync_state map_of
  file_added-Grows f content state id w loaded =
      if-world (Grows env config w) (is_empty id) _ _ w
        (λ _. queue_failed_sync-Grows _ f.target _ _ _ w)
        (λ _.
          rw (atomic_write-calm env config calm, ← loaded)
            (Grows-trans env config _ _ _ (ticked-Grows env config w) (saved-Grows _ (tick w))))

  -- From the answer of AMM on.
  answered-Grows :
      (f : Filing) (content : Text) (state : List SyncRecord) (result : Option Text) (w : World)
      → map_of env config w ≡ state
      → Grows env config w
          ((or_throw result >>= λ id. file_added env config f content state id) w).1
  answered-Grows f content state none w loaded = Grows-refl env config w
  answered-Grows f content state (some id) w loaded = file_added-Grows f content state id w loaded

  -- Adding an entry sends nothing but a POST, and the map only gains records.
  pub sync_add-Grows :
      (f : Filing) (content : Text) (w : World)
      → Grows env config w (sync_add env config f content w).1
  unfolding sync_add remember_memory
  sync_add-Grows f content w = rw (load-calm env config calm w) (
      Grows-trans env config _ _ _ (opened-Grows env config (map_path env config) w) (
        if-world (Grows env config (opened (map_path env config) w))
          (some_of (has_fingerprint (entry_fingerprint env config f content)) (map_of env config w))
          _ _ (opened (map_path env config) w) (λ _. Grows-refl env config _)
          (λ _.
            >>=-world (Grows env config (opened (map_path env config) w))
              (remember_memory env config (add_payload config f content)) _
              (opened (map_path env config) w) (λ _. post_json-Grows env config _ _ _ _)
              (λ result _. Grows-trans env config _ _ _ (post_json-Grows env config _ _ _ _) (
                answered-Grows f content (map_of env config w) (extract_memory_id result) _ (
                  map_of-post_json env config _ _ _ (opened (map_path env config) w)
                  ∙ map_of-opened env config (map_path env config) w))))))
