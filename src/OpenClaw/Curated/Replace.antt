-- ===== src/OpenClaw/Curated/Replace.antt =====
-- `syncReplace` and `reconcileCurated` where two or more recorded entries have left the file.
use agent_memory_manager.Base.{
  ℕ, suc, ◌≤◌, ◌≡◌, refl, sym, ap, ◌∙◌, Bool, List, [], ◌∷◌, ◌++◌, arith, length, keep, take, drop,
  append-nil,
}
use agent_memory_manager.Base.Text.{Text}
use agent_memory_manager.OpenClaw.Config.{AmmConfig}
use agent_memory_manager.Effects.{Env, World, SyncRecord, M, ◌>>◌, for_each, done}
use agent_memory_manager.Effects.Rules.{>>=-world, for_each-world}
use agent_memory_manager.OpenClaw.Curated.Entries.{Target, memory, user}
use agent_memory_manager.OpenClaw.Curated.Store.{map_path, curated_file_path}
use agent_memory_manager.OpenClaw.Curated.Sync.{
  Filing, indexed, matching, has_disappeared, replace_matched, sync_replace, sync_add, sync_remove,
  missing_from, snapshot_of, set_snapshot, filing, apply_changes, reconcile_curated, pair_count,
}
use agent_memory_manager.OpenClaw.Curated.Calm.{
  IsCalm, map_of, entries_of, opened, load-calm, read_curated-calm,
}
use agent_memory_manager.OpenClaw.Curated.Growth.{
  Grows, Grows-refl, Grows-trans, Grows-same_files, opened-Grows, sync_add-Grows,
}

-- More records, more matches.
matching-append-le :
    (p : SyncRecord → Bool) (i : ℕ) (xs ys : List SyncRecord)
    → length (keep (λ m. p m.1) (indexed i xs)) ≤ length (keep (λ m. p m.1) (indexed i (xs ++ ys)))
matching-append-le p i [] ys = omega arith
matching-append-le p i (x ∷ xs) ys = ground (arith, matching-append-le p (suc i) xs ys)

drop-length {ℓ} : {A : Type ℓ} (xs : List A) → drop (length xs) xs ≡ []
drop-length [] = refl
drop-length (x ∷ xs) = drop-length xs

drop-pair_count : (xs ys : List Text) → length xs ≤ length ys → drop (pair_count xs ys) xs ≡ []
drop-pair_count xs ys h = ground (arith, drop-length xs)

pub snapshot_of-opened :
    (path : Text) (t : Target) (w : World) → snapshot_of t (opened path w) ≡ snapshot_of t w
unfolding opened
snapshot_of-opened path memory w = ground arith
snapshot_of-opened path user w = ground arith

pub snapshot_of-set_snapshot :
    (t : Target) (entries : List Text) (w : World)
    → snapshot_of t (set_snapshot t entries w) ≡ entries
snapshot_of-set_snapshot memory entries w = refl
snapshot_of-set_snapshot user entries w = refl

module _ (env : Env) (config : AmmConfig) where
  -- With two or more candidates there is no replacement, only an addition.
  replace_matched_many :
      (f : Filing) (content : Text) (state : List SyncRecord) (ms : List (ℕ × SyncRecord))
      → 2 ≤ length ms
      → replace_matched env config f content state ms ≡ sync_add env config f content
  unfolding replace_matched
  replace_matched_many f content state [] h = absurd (omega arith)
  replace_matched_many f content state ((i, r) ∷ []) h = absurd (omega arith)
  replace_matched_many f content state (m ∷ n ∷ ms) h = refl

-- Two or more records of the target are no longer in its file, which holds `current`.
abbrev pub HasStale : Env → AmmConfig → Target → List Text → World → Type 0
HasStale env config target current w =
    (entries_of env target w ≡ current)
    × (2 ≤ length (matching (has_disappeared target current) (map_of env config w)))

module _ (env : Env) (config : AmmConfig) (calm : IsCalm env config) where
  HasStale-Grows :
      (target : Target) (current : List Text) (u w : World)
      → HasStale env config target current u
      → Grows env config u w
      → HasStale env config target current w
  HasStale-Grows target current u w stale g = (
    g.entries target ∙ stale.0,
    omega (
      arith,
      stale.1,
      matching-append-le (has_disappeared target current) 0 (map_of env config u) g.new_records,
      ap (λ rs. length (matching (has_disappeared target current) rs)) g.appended,
    ),
  )

  sync_replace-Grows :
      (f : Filing) (current : List Text) (content : Text) (w : World)
      → HasStale env config f.target current w
      → Grows env config w (sync_replace env config f content w).1
  unfolding sync_replace
  sync_replace-Grows f current content w stale =
      let path = map_path env config in
      let file = curated_file_path env f.target in
      let first = opened-Grows env config path w in
      let second = opened-Grows env config file (opened path w) in
      let state = map_of env config w in
      rw
        (
          load-calm env config calm w,
          read_curated-calm env config calm f.target (opened path w),
          first.entries f.target,
          replace_matched_many env config f content state
              (matching (has_disappeared f.target (entries_of env f.target w)) state)
              (rw (stale.0) (stale.1)),
        )
        (Grows-trans env config _ _ _ first
          (Grows-trans env config _ _ _ second (sync_add-Grows env config calm f content _)))

  unpaired-Grows :
      (f : Filing) (added : List Text) (w : World)
      → Grows env config w (for_each added (sync_add env config f) w).1
  unpaired-Grows f added w =
      for_each-world (Grows env config) (Grows-refl env config) (Grows-trans env config)
        (sync_add env config f) (λ _. Unit {0})
        (λ content v _. (sync_add-Grows env config calm f content v, tt)) added w tt

  paired-Grows :
      (f : Filing) (current added : List Text) (w : World)
      → HasStale env config f.target current w
      → Grows env config w (for_each added (sync_replace env config f) w).1
  paired-Grows f current added w =
      for_each-world (Grows env config) (Grows-refl env config) (Grows-trans env config)
        (sync_replace env config f) (HasStale env config f.target current)
        (λ content v stale.
          let g = sync_replace-Grows f current content v stale in
          (g, HasStale-Grows f.target current v _ stale g))
        added w

  -- One loop after another.
  then-Grows :
      (m n : M (Unit {0})) (w : World)
      → Grows env config w (m w).1
      → ((v : World) → Grows env config v (n v).1)
      → Grows env config w ((m >> n) w).1
  then-Grows m n w g h =
      >>=-world (Grows env config w) m (λ _. n) w (λ _. g)
        (λ _ _. Grows-trans env config _ _ _ g (h (m w).1))

  pairs-Grows :
      (f : Filing) (current removed added : List Text) (pairs : ℕ) (w : World)
      → HasStale env config f.target current w
      → drop pairs removed ≡ []
      → Grows env config w
          ((for_each (take pairs added) (sync_replace env config f)
              >> (for_each (drop pairs removed) (sync_remove env config f)
                  >> for_each (drop pairs added) (sync_add env config f)))
            w).1
  unfolding for_each
  pairs-Grows f current removed added pairs w stale e = rw e (
      then-Grows (for_each (take pairs added) (sync_replace env config f)) _ w
        (paired-Grows f current (take pairs added) w stale) (unpaired-Grows f (drop pairs added)))

  apply_changes-Grows :
      (f : Filing) (current removed added : List Text) (w : World)
      → HasStale env config f.target current w
      → length removed ≤ length added
      → Grows env config w (apply_changes env config f removed added w).1
  unfolding apply_changes for_each
  apply_changes-Grows f current [] added w stale h = unpaired-Grows f added w
  apply_changes-Grows f current (gone ∷ removed) [] w stale h = absurd (omega arith)
  apply_changes-Grows f current (gone ∷ removed) (new ∷ added) w stale h =
      pairs-Grows f current (gone ∷ removed) (new ∷ added)
        (pair_count (gone ∷ removed) (new ∷ added)) w stale
        (drop-pair_count (gone ∷ removed) (new ∷ added) h)

  pub set_snapshot-Grows :
      (t : Target) (entries : List Text) (w : World) → Grows env config w (set_snapshot t entries w)
  set_snapshot-Grows memory entries w =
      Grows-same_files env config w _ [] refl (sym (append-nil _)) tt
  set_snapshot-Grows user entries w =
      Grows-same_files env config w _ [] refl (sym (append-nil _)) tt

  -- When no file operation fails, two or more recorded entries are no longer in the file and at
  -- least as many entries came as went, a reconciliation updates and deletes no memory: it sends
  -- only POST requests and keeps every record.
  pub reconcile_many_replaced :
      (target : Target) (w : World)
      → HasStale env config target (entries_of env target w) w
      → length (missing_from (entries_of env target w) (snapshot_of target w))
        ≤ length (missing_from (snapshot_of target w) (entries_of env target w))
      → Grows env config w (reconcile_curated env config target w).1
  unfolding reconcile_curated
  reconcile_many_replaced target w stale h =
      let path = curated_file_path env target in
      let current = entries_of env target w in
      let previous = snapshot_of target w in
      let first = opened-Grows env config path w in
      let changed =
        apply_changes-Grows (filing config target) current (missing_from current previous)
          (missing_from previous current) (opened path w)
          (HasStale-Grows target current w (opened path w) stale first) h in
      rw (read_curated-calm env config calm target w, snapshot_of-opened path target w)
        (Grows-trans env config w (opened path w) _ first (
          then-Grows
            (apply_changes env config (filing config target) (missing_from current previous)
              (missing_from previous current))
            (λ v. (done tt, set_snapshot target current v)) (opened path w) changed
            (λ v. set_snapshot-Grows target current v)))
