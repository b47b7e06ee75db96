-- ===== src/OpenClaw/Curated/Add.antt =====
-- `syncAdd` and `reconcileCurated` where AMM stores what it is sent: every entry gets its record.
use agent_memory_manager.Base.{
  ℕ, ◌≡◌, refl, ◌∙◌, Bool, true, false, some, List, [], ◌∷◌, arith, All, some_of, some_of-append,
  Bool-cases, inl, inr,
}
use agent_memory_manager.Base.Json.{Fields}
use agent_memory_manager.Base.Text.{
  Text, txt, is_empty, includes, text_eq, text_eq_iff, text_eq_refl,
}
use agent_memory_manager.OpenClaw.Config.{AmmConfig}
use agent_memory_manager.Effects.{
  Env, World, Request, SyncRecord, done, ◌>>=◌, or_throw, for_each, iso_now,
}
use agent_memory_manager.OpenClaw.Transport.{remember_memory}
use agent_memory_manager.OpenClaw.Transport.Requests.{posted, reply_value, post_json_configured}
use agent_memory_manager.OpenClaw.Curated.Entries.{Target, extract_memory_id}
use agent_memory_manager.OpenClaw.Curated.Store.{
  map_path, curated_file_path, now_rfc3339, save_sync_state,
}
use agent_memory_manager.OpenClaw.Curated.Sync.{
  Filing, has_fingerprint, entry_fingerprint, add_payload, file_added, sync_add, sync_remove,
  missing_from, snapshot_of, set_snapshot, filing, apply_changes, reconcile_curated,
}
use agent_memory_manager.OpenClaw.Curated.Calm.{
  IsCalm, map_of, entries_of, opened, load-calm, read_curated-calm, atomic_write-calm, map_of-saved,
}
use agent_memory_manager.OpenClaw.Curated.Growth.{
  Grows, Grows-refl, Grows-trans, sync_add-Grows, map_of-opened, opened-Grows,
}
use agent_memory_manager.Effects.Rules.{for_each-nil, for_each-cons}
use agent_memory_manager.OpenClaw.Curated.Replace.{
  snapshot_of-opened, snapshot_of-set_snapshot, set_snapshot-Grows,
}
use mathlib.Core.Path.{subst}

-- AMM answers every request with a value that holds an identifier.
abbrev pub IsAccepting : Env → Type 0
IsAccepting env =
    (n : ℕ) (req : Request)
    → (c : ℕ) × (id : Text) × (extract_memory_id (reply_value env (env.reply n req))
        ≡ some (c ∷ id))

-- The map has a record for an entry.
abbrev pub is_recorded : Env → AmmConfig → Filing → World → Text → Bool
is_recorded env config f w content =
    some_of (has_fingerprint (entry_fingerprint env config f content)) (map_of env config w)

All-includes :
    (P : Text → Type 0) (xs : List Text) (e : Text) → All P xs → includes xs e ≡ true → P e
unfolding includes
All-includes P [] e h i = cc
All-includes P (x ∷ xs) e h i = elim (Bool-cases (text_eq x e)) [
  | inl same ↦ subst P ((text_eq_iff x e).0 same) h.0
  | inr other ↦ All-includes P xs e h.1 (rw other at i)
]

module _ (env : Env) (config : AmmConfig) (calm : IsCalm env config) (accepting : IsAccepting env)
    (online : is_empty config.api_url ≡ false) where
  file_added-recorded :
      (f : Filing) (content : Text) (state : List SyncRecord) (c : ℕ) (id : Text) (w : World)
      → ((file_added env config f content state (c ∷ id) w).0 ≡ done tt)
        × (is_recorded env config f (file_added env config f content state (c ∷ id) w).1 content
            ≡ true)
  unfolding file_added now_rfc3339 iso_now save_sync_state has_fingerprint
  file_added-recorded f content state c id w =
      rw (atomic_write-calm env config calm, map_of-saved env config calm)
        (
          refl,
          rw (some_of-append)
              (ground (arith, text_eq_refl (entry_fingerprint env config f content))),
        )

  -- From the request on.
  remembered :
      (f : Filing) (content : Text) (state : List SyncRecord) (payload : Fields) (w : World)
      → let m = remember_memory env config payload >>= λ result.
          or_throw (extract_memory_id result) >>= λ id. file_added env config f content state id in
        ((m w).0 ≡ done tt) × (is_recorded env config f (m w).1 content ≡ true)
  unfolding remember_memory
  remembered f content state payload w =
      let path = txt "/memories" in
      let value = (post_json_configured env config path payload 10000 w online).0 in
      let (c, id, e) = accepting w.step (posted env config path payload 10000 w) in
      rw (value, e) (file_added-recorded f content state c id _)

  -- An entry that is added is recorded afterwards, and the call does not throw.
  pub sync_add-recorded :
      (f : Filing) (content : Text) (w : World)
      → ((sync_add env config f content w).0 ≡ done tt)
        × (is_recorded env config f (sync_add env config f content w).1 content ≡ true)
  unfolding sync_add
  sync_add-recorded f content w =
      let path = map_path env config in
      elim (Bool-cases (is_recorded env config f w content)) [
        | inl old ↦
            rw (load-calm env config calm w, old) (refl, rw (map_of-opened env config path w) old)
        | inr new ↦
            rw (load-calm env config calm w, new)
              (remembered f content (map_of env config w) (add_payload config f content)
                (opened path w))
      ]

  is_recorded-Grows :
      (f : Filing) (content : Text) (u w : World)
      → Grows env config u w
      → is_recorded env config f u content ≡ true
      → is_recorded env config f w content ≡ true
  is_recorded-Grows f content u w g h = rw (g.appended, some_of-append, h)

  pub All-recorded-Grows :
      (f : Filing) (xs : List Text) (u w : World)
      → Grows env config u w
      → All (λ e. is_recorded env config f u e ≡ true) xs
      → All (λ e. is_recorded env config f w e ≡ true) xs
  All-recorded-Grows f [] u w g h = tt
  All-recorded-Grows f (x ∷ xs) u w g h =
      (is_recorded-Grows f x u w g h.0, All-recorded-Grows f xs u w g h.1)

  -- What the loop over the entries that came has done.
  adds-recorded :
      (f : Filing) (added : List Text) (w : World)
      → (v : World) × (for_each added (sync_add env config f) w ≡ (done tt, v))
        × All (λ e. is_recorded env config f v e ≡ true) added
        × Grows env config w v
  adds-recorded f [] w = (w, unfold for_each in refl, tt, Grows-refl env config w)
  adds-recorded f (x ∷ xs) w =
      let here = sync_add-recorded f x w in
      let (v, ended, others, grown) = adds-recorded f xs (sync_add env config f x w).1 in
      (
        v,
        for_each-cons x xs (sync_add env config f) w here.0 ∙ ended,
        (is_recorded-Grows f x _ v grown here.1, others),
        Grows-trans env config _ _ _ (sync_add-Grows env config calm f x w) grown,
      )

  -- Every current entry came, or was there before.
  current-recorded :
      (f : Filing) (previous current : List Text) (w : World)
      → All (λ e. is_recorded env config f w e ≡ true) previous
      → All (λ e. is_recorded env config f w e ≡ true) (missing_from previous current)
      → All (λ e. is_recorded env config f w e ≡ true) current
  unfolding missing_from
  current-recorded f previous [] w old new = tt
  current-recorded f previous (x ∷ xs) w old new = elim (Bool-cases (includes previous x)) [
    | inl there ↦ (
      All-includes (λ e. is_recorded env config f w e ≡ true) previous x old there,
      current-recorded f previous xs w old (rw there at new),
    )
    | inr gone ↦ let both = rw gone at new in (both.0, current-recorded f previous xs w old both.1)
  ]

  -- Without entries that went, a reconciliation is the loop over those that came.
  reconcile-adds-eq :
      (target : Target) (w v : World)
      → missing_from (entries_of env target w) (snapshot_of target w) ≡ []
      → for_each
          (missing_from (snapshot_of target w) (entries_of env target w))
          (sync_add env config (filing config target))
          (opened (curated_file_path env target) w)
        ≡ (done tt, v)
      → reconcile_curated env config target w
        ≡ (done tt, set_snapshot target (entries_of env target w) v)
  unfolding reconcile_curated apply_changes
  reconcile-adds-eq target w v none_went ended = rw (
    read_curated-calm env config calm target w,
    snapshot_of-opened (curated_file_path env target) target w,
    none_went,
    for_each-nil (sync_remove env config (filing config target)),
    ended,
  )

  is_recorded-set_snapshot :
      (f : Filing) (t : Target) (entries xs : List Text) (v : World)
      → All (λ e. is_recorded env config f v e ≡ true) xs
      → All (λ e. is_recorded env config f (set_snapshot t entries v) e ≡ true) xs
  is_recorded-set_snapshot f t entries xs v h =
      All-recorded-Grows f xs v _ (set_snapshot-Grows env config calm t entries v) h

  -- When no file operation fails, there is an API URL, AMM accepts what it is sent, every entry of
  -- the snapshot has its record and no entry went, a reconciliation ends without an error, every
  -- entry of the file is recorded, the file is the new snapshot, only POST requests are sent and
  -- no record is dropped.
  pub reconcile_adds_recorded :
      (target : Target) (w : World)
      → All (λ e. is_recorded env config (filing config target) w e ≡ true) (snapshot_of target w)
      → missing_from (entries_of env target w) (snapshot_of target w) ≡ []
      → (v : World) × (reconcile_curated env config target w ≡ (done tt, v))
        × All
            (λ e. is_recorded env config (filing config target) v e ≡ true)
            (entries_of env target w)
        × (snapshot_of target v ≡ entries_of env target w)
        × Grows env config w v
  reconcile_adds_recorded target w old none_went =
      let f = filing config target in
      let current = entries_of env target w in
      let previous = snapshot_of target w in
      let first = opened-Grows env config (curated_file_path env target) w in
      let (v, ended, new, grown) =
        adds-recorded f (missing_from previous current) (opened (curated_file_path env target) w) in
      let whole = Grows-trans env config _ _ _ first grown in
      (
        set_snapshot target current v,
        reconcile-adds-eq target w v none_went ended,
        is_recorded-set_snapshot f target current current v (
            current-recorded f previous current v (All-recorded-Grows f previous w v whole old)
              new),
        snapshot_of-set_snapshot target current v,
        Grows-trans env config _ _ _ whole (set_snapshot-Grows env config calm target current v),
      )
