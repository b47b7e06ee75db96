-- ===== src/OpenClaw/Config/Limit.antt =====
-- `clampRecallLimit` of config.ts: the limit is a whole number that is at least one.
use native.Mathlib.Nat.{pow-suc}
use agent_memory_manager.Base.{
  ℕ, zero, suc, ◌≤◌, ◌<◌, ◌/◌, ◌^◌, ◌≡◌, refl, false, arith, Bool-cases, inl, inr,
}
use agent_memory_manager.Base.Json.{Number, nan, infinite, finite, Json, num}
use agent_memory_manager.OpenClaw.Config.{below_one, clamp_number, clamp_recall_limit}

pow-pos : (e : ℕ) → 0 < 2 ^ e
pow-pos zero = omega arith
pow-pos (suc e) = rw (pow-suc) (omega (arith, pow-pos e))

div-pos : (m d : ℕ) → 0 < d → d ≤ m → 0 < m / d
div-pos m d h k = grind arith

suc_of_pos : (n : ℕ) → 0 < n → (k : ℕ) × (n ≡ suc k)
suc_of_pos zero h = absurd (omega arith)
suc_of_pos (suc k) h = (k, refl)

clamp_number-whole : (n : Number) → (k : ℕ) × (clamp_number n ≡ finite false (suc k) 0)
unfolding clamp_number
clamp_number-whole nan = (4, refl)
clamp_number-whole (infinite negative) = (4, refl)
clamp_number-whole (finite negative m e) = elim (Bool-cases (below_one negative m e)) [
  | inl low ↦ (4, rw low)
  | inr high ↦
      let (k, eq) = suc_of_pos (m / 2 ^ e) (div-pos m (2 ^ e) (pow-pos e) (ground arith)) in
      (k, rw (high, eq))
]

-- Whatever the setting holds, the recall limit is a whole number that is at least one.
pub clamp_recall_limit-whole :
    (to_number : Json → Number) (raw : Json)
    → (k : ℕ) × (clamp_recall_limit to_number raw ≡ finite false (suc k) 0)
unfolding clamp_recall_limit
clamp_recall_limit-whole to_number (num n) = clamp_number-whole n
clamp_recall_limit-whole to_number raw = clamp_number-whole (to_number raw)
