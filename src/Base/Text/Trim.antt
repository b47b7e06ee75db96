-- ===== src/Base/Text/Trim.antt =====
-- `trim` and its parts: what they drop, and the texts that they leave alone.
use Prim.Native.Nat.{ℕ}
use mathlib.Core.Path.{◌≡◌, refl, ap, ◌∙◌, sym}
use mathlib.Core.Logic.{inl, inr}
use mathlib.Core.Bool.{Bool, true, false}
use mathlib.Core.List.{[], ◌∷◌, ◌++◌, reverse, reverse-append, reverse-reverse}
use native.Mathlib.Omega.{arith}
use agent_memory_manager.Base.Tests.{Bool-cases}
use agent_memory_manager.Base.Text.{
  Text, is_space, drop_start, all_units, drop_end, trim, starts_with, ends_with,
}

module _ (p : ℕ → Bool) where
  -- The first unit, if there is one, fails the test.
  abbrev pub StartsClean : Text → Type 0
  StartsClean [] = Unit
  StartsClean (c ∷ s) = p c ≡ false

  -- The last unit, if there is one, fails the test.
  abbrev pub EndsClean : Text → Type 0
  EndsClean [] = Unit
  EndsClean (c ∷ []) = p c ≡ false
  EndsClean (c ∷ d ∷ s) = EndsClean (d ∷ s)

  pub drop_start-StartsClean : (s : Text) → StartsClean (drop_start p s)
  unfolding drop_start
  drop_start-StartsClean [] = tt
  drop_start-StartsClean (c ∷ s) = elim (Bool-cases (p c)) [
    | inl h ↦ rw h (drop_start-StartsClean s)
    | inr h ↦ rw h h
  ]

  pub drop_start_of_StartsClean : (s : Text) → StartsClean s → drop_start p s ≡ s
  unfolding drop_start
  drop_start_of_StartsClean [] h = refl
  drop_start_of_StartsClean (c ∷ s) h = rw h

  -- A text that ends cleanly and is not empty has a unit that fails the test.
  all_units_of_EndsClean : (c : ℕ) (s : Text) → EndsClean (c ∷ s) → all_units p (c ∷ s) ≡ false
  unfolding all_units
  all_units_of_EndsClean c [] h = ground arith
  all_units_of_EndsClean c (d ∷ s) h = ground (arith, all_units_of_EndsClean d s h)

  pub drop_end_of_EndsClean : (s : Text) → EndsClean s → drop_end p s ≡ s
  unfolding drop_end
  drop_end_of_EndsClean [] h = refl
  drop_end_of_EndsClean (c ∷ []) h = rw (all_units_of_EndsClean c [] h)
  drop_end_of_EndsClean (c ∷ d ∷ s) h =
      rw (all_units_of_EndsClean c (d ∷ s) h) (ap (λ t. c ∷ t) (drop_end_of_EndsClean (d ∷ s) h))

  EndsClean-cons : (c : ℕ) (s : Text) → EndsClean s → (s ≡ [] → p c ≡ false) → EndsClean (c ∷ s)
  EndsClean-cons c [] h k = k refl
  EndsClean-cons c (d ∷ s) h k = h

  drop_end-nil : (s : Text) → drop_end p s ≡ [] → all_units p s ≡ true
  unfolding drop_end all_units
  drop_end-nil [] h = refl
  drop_end-nil (c ∷ s) h = ground arith

  pub drop_end-EndsClean : (s : Text) → EndsClean (drop_end p s)
  unfolding drop_end
  drop_end-EndsClean [] = tt
  drop_end-EndsClean (c ∷ s) = elim (Bool-cases (all_units p (c ∷ s))) [
    | inl h ↦ rw h tt
    | inr h ↦ rw h (
        EndsClean-cons c (drop_end p s) (drop_end-EndsClean s)
          (λ e. unfold all_units in ground (arith, drop_end-nil s e)))
  ]

  -- Dropping at the end keeps the start clean.
  pub drop_end-keeps_StartsClean :
      (q : ℕ → Bool) (s : Text) → StartsClean s → StartsClean (drop_end q s)
  unfolding drop_end
  drop_end-keeps_StartsClean q [] h = tt
  drop_end-keeps_StartsClean q (c ∷ s) h = elim (Bool-cases (all_units q (c ∷ s))) [
    | inl e ↦ rw e tt
    | inr e ↦ rw e h
  ]

  pub EndsClean-append : (s : Text) (c : ℕ) (t : Text) → EndsClean (c ∷ t) → EndsClean (s ++ c ∷ t)
  EndsClean-append [] c t h = h
  EndsClean-append (a ∷ []) c t h = h
  EndsClean-append (a ∷ b ∷ s) c t h = EndsClean-append (b ∷ s) c t h

pub trim_of_clean : (s : Text) → StartsClean is_space s → EndsClean is_space s → trim s ≡ s
unfolding trim
trim_of_clean s h k =
    ap (drop_end is_space) (drop_start_of_StartsClean is_space s h)
    ∙ drop_end_of_EndsClean is_space s k

pub trim-StartsClean : (s : Text) → StartsClean is_space (trim s)
unfolding trim
trim-StartsClean s =
    drop_end-keeps_StartsClean is_space is_space _ (drop_start-StartsClean is_space s)

pub trim-EndsClean : (s : Text) → EndsClean is_space (trim s)
unfolding trim
trim-EndsClean s = drop_end-EndsClean is_space (drop_start is_space s)

-- `trim` has nothing left to drop.
pub trim_idempotent : (s : Text) → trim (trim s) ≡ trim s
trim_idempotent s = trim_of_clean (trim s) (trim-StartsClean s) (trim-EndsClean s)

starts_with-append : (s t : Text) → starts_with (s ++ t) s ≡ true
unfolding starts_with
starts_with-append [] t = ground arith
starts_with-append (c ∷ s) t = ground (arith, starts_with-append s t)

pub starts_with→append : (s t : Text) → starts_with s t ≡ true → (u : Text) × (s ≡ t ++ u)
unfolding starts_with
starts_with→append s [] h = (s, refl)
starts_with→append [] (b ∷ t) h = cc
starts_with→append (a ∷ s) (b ∷ t) h =
    let (u, e) = starts_with→append s t (ground arith) in (u, ground arith)

pub ends_with-append : (s t : Text) → ends_with (s ++ t) t ≡ true
unfolding ends_with
ends_with-append s t = rw (reverse-append) (starts_with-append (reverse t) (reverse s))

pub ends_with→append : (s t : Text) → ends_with s t ≡ true → (u : Text) × (s ≡ u ++ t)
unfolding ends_with
ends_with→append s t h =
    let (u, e) = starts_with→append (reverse s) (reverse t) h in
    (reverse u, sym (reverse-reverse s) ∙ ap reverse e ∙ rw (reverse-append, reverse-reverse))
