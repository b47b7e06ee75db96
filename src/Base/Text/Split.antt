-- ===== src/Base/Text/Split.antt =====
-- `split` and `join` at a separator of one code unit.
use agent_memory_manager.Base.Lists.{All}
use Prim.Native.Nat.{ℕ}
use mathlib.Core.Path.{◌≡◌, refl, ap, ◌∙◌}
use mathlib.Core.Logic.{◌≢◌}
use mathlib.Core.List.{List, [], ◌∷◌, ◌++◌, append_assoc}
use native.Mathlib.Omega.{arith}
use native.Mathlib.Decide.{ℕ_discrete}
use agent_memory_manager.Base.Text.{Text, starts_with, split_from, split, push_head, join}

module _ (d : ℕ) where
  -- A text without the separator.
  abbrev pub Lacks : Text → Type 0
  Lacks s = All (λ c. c ≢ d) s

  scan-separator : (s : Text) → split_from (d ∷ []) 0 (d ∷ s) ≡ [] ∷ split_from (d ∷ []) 0 s
  unfolding split_from starts_with
  scan-separator s = ground arith

  scan-other :
      (c : ℕ) (s : Text)
      → c ≢ d
      → split_from (d ∷ []) 0 (c ∷ s) ≡ push_head c (split_from (d ∷ []) 0 s)
  unfolding split_from starts_with
  scan-other c s h = ground arith

  pub split-separator : (p s : Text) → Lacks p → split (p ++ d ∷ s) (d ∷ []) ≡ p ∷ split s (d ∷ [])
  unfolding split
  split-separator [] s h = scan-separator s
  split-separator (c ∷ p) s h = rw (scan-other c (p ++ d ∷ s) h.0, split-separator p s h.1)

  pub split-Lacks : (p : Text) → Lacks p → split p (d ∷ []) ≡ p ∷ []
  unfolding split
  split-Lacks [] h = unfold split_from in refl
  split-Lacks (c ∷ p) h = rw (scan-other c p h.0, split-Lacks p h.1)

  -- A unit other than the separator stays in its part.
  pub split-other :
      (c : ℕ) (s : Text) → c ≢ d → split (c ∷ s) (d ∷ []) ≡ push_head c (split s (d ∷ []))
  unfolding split
  split-other c s h = scan-other c s h

  -- A joined list of parts, each without the separator, is split into them again.
  pub split-join :
      (p : Text) (ps : List Text)
      → All Lacks (p ∷ ps)
      → split (join (d ∷ []) (p ∷ ps)) (d ∷ []) ≡ p ∷ ps
  unfolding join
  split-join p [] h = split-Lacks p h.0
  split-join p (q ∷ ps) h =
      let rest = join (d ∷ []) (q ∷ ps) in
      ap (λ s. split s (d ∷ [])) (append_assoc p (d ∷ []) rest)
      ∙ split-separator p rest h.0
      ∙ ap (λ parts. p ∷ parts) (split-join q ps h.1)

  -- So too with a separator behind the last part.
  pub split-join-separator :
      (p : Text) (ps : List Text)
      → All Lacks (p ∷ ps)
      → split (join (d ∷ []) (p ∷ ps) ++ d ∷ []) (d ∷ []) ≡ (p ∷ ps) ++ [] ∷ []
  unfolding join
  split-join-separator p [] h = rw (split-separator p [] h.0, split-Lacks [] tt)
  split-join-separator p (q ∷ ps) h =
      let rest = join (d ∷ []) (q ∷ ps) in
      ap (λ s. split s (d ∷ []))
        (append_assoc (p ++ d ∷ []) rest (d ∷ []) ∙ append_assoc p (d ∷ []) (rest ++ d ∷ []))
      ∙ split-separator p (rest ++ d ∷ []) h.0
      ∙ ap (λ parts. p ∷ parts) (split-join-separator q ps h.1)

  push_head-Lacks : (c : ℕ) (ps : List Text) → c ≢ d → All Lacks ps → All Lacks (push_head c ps)
  push_head-Lacks c [] h k = ((h, tt), tt)
  push_head-Lacks c (p ∷ ps) h k = ((h, k.0), k.1)

  -- No part of a split holds the separator.
  pub split-All-Lacks : (s : Text) → All Lacks (split s (d ∷ []))
  unfolding split
  split-All-Lacks [] = unfold split_from in (tt, tt)
  split-All-Lacks (c ∷ s) = elim (ℕ_discrete c d) [
    | yes e ↦ rw (e, scan-separator s) (tt, split-All-Lacks s)
    | no h ↦ rw (scan-other c s h) (push_head-Lacks c _ h (split-All-Lacks s))
  ]
