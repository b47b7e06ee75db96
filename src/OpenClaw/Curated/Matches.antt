-- ===== src/OpenClaw/Curated/Matches.antt =====
-- The records that pass a test: where the only one stands, and what is left without it.
use agent_memory_manager.Base.{
  ℕ, suc, ◌+◌, ◌≡◌, refl, sym, ap, ◌∙◌, Bool, true, false, not, ◌||◌, List, [], ◌∷◌, arith, keep,
  remove_at, Bool-cases, inl, inr,
}
use agent_memory_manager.Base.Text.{Text, text_eq, text_eq_iff}
use agent_memory_manager.Effects.{SyncRecord}
use agent_memory_manager.OpenClaw.Curated.Entries.{Target, normalize_text}
use agent_memory_manager.OpenClaw.Curated.Sync.{indexed, holds_entry}

module _ (p : SyncRecord → Bool) where
  -- No element passes.
  keep-indexed-nil :
      (k : ℕ) (rs : List SyncRecord)
      → keep p rs ≡ []
      → (keep (λ m. p m.1) (indexed k rs) ≡ []) × (keep (λ r. not (p r)) rs ≡ rs)
  keep-indexed-nil k [] h = (refl, refl)
  keep-indexed-nil k (r ∷ rs) h = elim (Bool-cases (p r)) [
    | inl e ↦ let bad = rw e at h in cc
    | inr e ↦
        let rest = keep-indexed-nil (suc k) rs (rw e at h) in
        (rw e rest.0, rw e (ap (λ xs. r ∷ xs) rest.1))
  ]

  -- One element passes: where it stands, and what is left without it.
  pub keep-indexed-one :
      (k : ℕ) (rs : List SyncRecord) (r : SyncRecord)
      → keep p rs ≡ r ∷ []
      → (i : ℕ) × (keep (λ m. p m.1) (indexed k rs) ≡ (k + i, r) ∷ [])
        × (remove_at i rs ≡ keep (λ x. not (p x)) rs)
  keep-indexed-one k [] r h = cc
  keep-indexed-one k (x ∷ rs) r h = elim (Bool-cases (p x)) [
    | inl e ↦
        let eq = rw e at h in
        let rest = keep-indexed-nil (suc k) rs (cc) in
        (0, rw (e, rest.0) (ground arith), rw e (sym rest.1))
    | inr e ↦
        let (i, found, left) = keep-indexed-one (suc k) rs r (rw e at h) in
        (suc i, rw e (found ∙ ground arith), rw e (ap (λ xs. x ∷ xs) left))
  ]

pub keep-true : (rs : List SyncRecord) → keep (λ r. true) rs ≡ rs
keep-true [] = refl
keep-true (r ∷ rs) = ap (λ xs. r ∷ xs) (keep-true rs)

module _ (p q : SyncRecord → Bool) where
  pub keep-other :
      (rs : List SyncRecord)
      → ((r : SyncRecord) → q r ≡ true → p r ≡ false)
      → keep q (keep (λ r. not (p r)) rs) ≡ keep q rs
  keep-other [] h = refl
  keep-other (r ∷ rs) h = ground (arith, keep-other rs h, h r)

  pub keep-not_or :
      (rs : List SyncRecord)
      → keep (λ r. not (q r)) (keep (λ r. not (p r)) rs) ≡ keep (λ r. not (p r || q r)) rs
  keep-not_or [] = refl
  keep-not_or (r ∷ rs) = ground (arith, keep-not_or rs)

-- A record holds one entry at most.
pub holds_entry_one :
    (t : Target) (c d : Text) (r : SyncRecord)
    → text_eq c d ≡ false
    → holds_entry t d r ≡ true
    → holds_entry t c r ≡ false
unfolding holds_entry
holds_entry_one t c d r h k = ground (
  arith,
  text_eq_iff (normalize_text r.content) d,
  text_eq_iff (normalize_text r.content) c,
  text_eq_iff c d,
)
