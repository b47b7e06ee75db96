-- ===== src/Base/Text/Delimited.antt =====
-- `split` and `join` at a separator of three code units whose middle unit does not occur in the parts.
use agent_memory_manager.Base.Lists.{All}
use Prim.Native.Nat.{ℕ}
use mathlib.Core.Path.{◌≡◌, refl, ap, ◌∙◌}
use mathlib.Core.Logic.{◌≢◌}
use mathlib.Core.List.{List, [], ◌∷◌, ◌++◌, append_assoc}
use native.Mathlib.Omega.{arith}
use agent_memory_manager.Base.Text.{Text, starts_with, split_from, split, push_head, join}
use agent_memory_manager.Base.Text.Split.{Lacks}

-- The first unit, if there is one, is another.
abbrev StartsOther : ℕ → Text → Type 0
StartsOther d [] = Unit
StartsOther d (c ∷ s) = c ≢ d

module _ (a d b : ℕ) (differ : a ≢ d) where
  abbrev separator : Text
  separator = a ∷ d ∷ b ∷ []

  scan-separator :
      (s : Text) → split_from separator 0 (a ∷ d ∷ b ∷ s) ≡ [] ∷ split_from separator 0 s
  unfolding split_from starts_with
  scan-separator s = ground arith

  scan-other :
      (c : ℕ) (s : Text)
      → StartsOther d s
      → split_from separator 0 (c ∷ s) ≡ push_head c (split_from separator 0 s)
  unfolding split_from starts_with
  scan-other c [] h = ground arith
  scan-other c (e ∷ s) h = ground arith

  StartsOther-append : (p s : Text) → Lacks d p → StartsOther d (p ++ a ∷ s)
  StartsOther-append [] s h = differ
  StartsOther-append (c ∷ p) s h = h.0

  Lacks-StartsOther : (p : Text) → Lacks d p → StartsOther d p
  Lacks-StartsOther [] h = tt
  Lacks-StartsOther (c ∷ p) h = h.0

  split-separator :
      (p s : Text) → Lacks d p → split (p ++ a ∷ d ∷ b ∷ s) separator ≡ p ∷ split s separator
  unfolding split
  split-separator [] s h = scan-separator s
  split-separator (c ∷ p) s h = rw (
    scan-other c (p ++ a ∷ d ∷ b ∷ s) (StartsOther-append p (d ∷ b ∷ s) h.1),
    split-separator p s h.1,
  )

  split-Lacks : (p : Text) → Lacks d p → split p separator ≡ p ∷ []
  unfolding split
  split-Lacks [] h = unfold split_from in refl
  split-Lacks (c ∷ p) h = rw (scan-other c p (Lacks-StartsOther p h.1), split-Lacks p h.1)

  -- A joined list of parts is split into them again.
  pub split-join_delimited :
      (p : Text) (ps : List Text)
      → All (Lacks d) (p ∷ ps)
      → split (join separator (p ∷ ps)) separator ≡ p ∷ ps
  unfolding join
  split-join_delimited p [] h = split-Lacks p h.0
  split-join_delimited p (q ∷ ps) h =
      let rest = join separator (q ∷ ps) in
      ap (λ s. split s separator) (append_assoc p separator rest)
      ∙ split-separator p rest h.0
      ∙ ap (λ parts. p ∷ parts) (split-join_delimited q ps h.1)
