-- ===== src/OpenClaw/Curated/Removals.antt =====
-- `syncRemove` for all entries that went, where each has one record and AMM deletes what it is asked to.
use agent_memory_manager.Base.{
  ℕ, ◌≡◌, refl, sym, ap, ◌∙◌, true, false, not, some, List, [], ◌∷◌, ◌++◌, map, arith, All, keep,
  some_of, append-nil, append_assoc,
}
use agent_memory_manager.Base.Text.{Text, is_empty, text_eq}
use agent_memory_manager.OpenClaw.Config.{AmmConfig}
use agent_memory_manager.Effects.{Env, World, SyncRecord, done, for_each}
use agent_memory_manager.Effects.Rules.{for_each-nil, for_each-cons}
use agent_memory_manager.OpenClaw.Transport.{forget_memory}
use agent_memory_manager.OpenClaw.Transport.Requests.{reply_ok, succeeds-value}
use agent_memory_manager.OpenClaw.Curated.Entries.{Target}
use agent_memory_manager.OpenClaw.Curated.Store.{map_path, save_sync_state}
use agent_memory_manager.OpenClaw.Curated.Sync.{
  Filing, matching, holds_entry, remove_matched, sync_remove,
}
use agent_memory_manager.OpenClaw.Curated.Matches.{
  keep-indexed-one, keep-true, keep-other, keep-not_or, holds_entry_one,
}
use agent_memory_manager.OpenClaw.Curated.Calm.{
  IsCalm, map_of, opened, load-calm, atomic_write-calm,
}
use agent_memory_manager.OpenClaw.Curated.Remove.{delete_request, sync_remove_one}

-- The records that hold none of some entries.
abbrev pub without_entries : Target → List Text → List SyncRecord → List SyncRecord
without_entries t gone rs = keep (λ r. not (some_of (λ c. holds_entry t c r) gone)) rs

-- One record holds the entry, with an identifier that is escaped to `part`.
pub record IsFiled (env : Env) (t : Target) (state : List SyncRecord) (content part : Text)
    : Type 0 where
  pub holder : SyncRecord
  pub only : keep (holds_entry t content) state ≡ holder ∷ []
  pub named : is_empty holder.amm_memory_id ≡ false
  pub escaped : env.encode_uri holder.amm_memory_id ≡ some part

-- So it is for each of some entries.
pub data AreFiled (env : Env) (t : Target) (state : List SyncRecord)
    : List Text → List Text → Type 0 where
  none_filed : AreFiled env t state [] []
  one_filed :
      {content part : Text} {contents parts : List Text}
      → IsFiled env t state content part
      → AreFiled env t state contents parts
      → AreFiled env t state (content ∷ contents) (part ∷ parts)

-- No entry occurs twice.
abbrev pub IsDistinct : List Text → Type 0
IsDistinct [] = Unit
IsDistinct (c ∷ cs) = All (λ d. text_eq c d ≡ false) cs × IsDistinct cs

AreFiled-other :
    (env : Env) (t : Target) (state : List SyncRecord) (c : Text) {gone parts : List Text}
    → All (λ d. text_eq c d ≡ false) gone
    → AreFiled env t state gone parts
    → AreFiled env t (keep (λ r. not (holds_entry t c r)) state) gone parts
AreFiled-other env t state c h none_filed = none_filed
AreFiled-other env t state c h (one_filed {content = d} k ks) =
    one_filed
      (record {
        holder = k.holder;
        only =
            keep-other (holds_entry t c) (holds_entry t d) state (λ r. holds_entry_one t c d r h.0)
            ∙ k.only;
        named = k.named;
        escaped = k.escaped;
      })
      (AreFiled-other env t state c h.1 ks)

-- AMM deletes what it is asked to.
abbrev pub IsDeleting : Env → AmmConfig → Type 0
IsDeleting env config =
    (n : ℕ) (part : Text) → reply_ok (env.reply n (delete_request env config part)) ≡ true

-- What the removal of some entries has done: the deletions are sent in their order, and the records
-- that held the entries are gone from the map.
pub record HasRemoved (env : Env) (config : AmmConfig) (t : Target) (gone parts : List Text)
    (before after : World) : Type 0 where
  pub left : map_of env config after ≡ without_entries t gone (map_of env config before)
  pub sent : after.sent ≡ before.sent ++ map (delete_request env config) parts

module _ (env : Env) (config : AmmConfig) (calm : IsCalm env config)
    (online : is_empty config.api_url ≡ false) (deleting : IsDeleting env config) (f : Filing) where
  forgotten_done :
      (content part : Text) (index : ℕ) (r : SyncRecord) (state : List SyncRecord) (w : World)
      → is_empty r.amm_memory_id ≡ false
      → env.encode_uri r.amm_memory_id ≡ some part
      → (remove_matched env config f content state ((index, r) ∷ []) w).0 ≡ done tt
  unfolding remove_matched forget_memory save_sync_state
  forgotten_done content part index r state w named escaped =
      let req = delete_request env config part in
      rw
        (
          named,
          online,
          escaped,
          succeeds-value env req w,
          deleting w.step part,
          atomic_write-calm env config calm,
        )
        refl

  done_one :
      (content part : Text) (index : ℕ) (r : SyncRecord) (w : World)
      → matching (holds_entry f.target content) (map_of env config w) ≡ (index, r) ∷ []
      → is_empty r.amm_memory_id ≡ false
      → env.encode_uri r.amm_memory_id ≡ some part
      → (sync_remove env config f content w).0 ≡ done tt
  unfolding sync_remove
  done_one content part index r w only named escaped =
      rw (load-calm env config calm w, only)
        (forgotten_done content part index r (map_of env config w) (opened (map_path env config) w)
          named escaped)

  sync_remove_done :
      (content part : Text) (w : World)
      → IsFiled env f.target (map_of env config w) content part
      → let out = sync_remove env config f content w in
        (out.0 ≡ done tt)
        × (map_of env config out.1
            ≡ keep (λ r. not (holds_entry f.target content r)) (map_of env config w))
        × (out.1.sent ≡ w.sent ++ delete_request env config part ∷ [])
  sync_remove_done content part w k =
      let (i, found, left) =
        keep-indexed-one (holds_entry f.target content) 0 (map_of env config w) k.holder k.only in
      let at_i = found ∙ ap (λ n. (n, k.holder) ∷ []) (omega arith) in
      let (sent, records) =
        sync_remove_one env config calm online f content part i k.holder w at_i k.named k.escaped in
      (
        done_one content part i k.holder w at_i k.named k.escaped,
        (rw (deleting (opened (map_path env config) w).step part) at records) ∙ left,
        sent,
      )

  -- The loop over the entries that went.
  pub removals :
      {parts : List Text} (gone : List Text) (w : World)
      → AreFiled env f.target (map_of env config w) gone parts
      → IsDistinct gone
      → (v : World) × (for_each gone (sync_remove env config f) w ≡ (done tt, v))
        × HasRemoved env config f.target gone parts w v
  removals [] w none_filed h = (
    w,
    for_each-nil (sync_remove env config f) w,
    record { left = sym (keep-true (map_of env config w)); sent = sym (append-nil w.sent) },
  )
  removals (c ∷ gone) w (one_filed {part = part} {parts = parts} k ks) h =
      let (ended, left, sent) = sync_remove_done c part w k in
      let u = (sync_remove env config f c w).1 in
      let (v, others, rest) =
        removals {parts = parts} gone u
          (rw left (AreFiled-other env f.target (map_of env config w) c h.0 ks)) h.1 in
      (
        v,
        for_each-cons c gone (sync_remove env config f) w ended ∙ others,
        record {
          left =
              rest.left
              ∙ ap (without_entries f.target gone) left
              ∙ keep-not_or (holds_entry f.target c)
                  (λ r. some_of (λ d. holds_entry f.target d r) gone) (map_of env config w);
          sent =
              rest.sent
              ∙ ap (λ s. s ++ map (delete_request env config) parts) sent
              ∙ append_assoc w.sent (delete_request env config part ∷ [])
                  (map (delete_request env config) parts);
        },
      )
