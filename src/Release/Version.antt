-- ===== src/Release/Version.antt =====
-- The version check: what a release version is made of.
use agent_memory_manager.Base.{
  ℕ, ◌≡◌, ==_iff, refl, Bool, true, ◌&&◌, ◌||◌, Option, some, none, [], ◌∷◌, ◌==◌, arith,
  Bool-cases, inl, inr,
}
use agent_memory_manager.Base.Text.{Text, drop_start, all_units}
use agent_memory_manager.Base.Json.{get_or}
use agent_memory_manager.Release.{
  is_digit, is_identifier_unit, after_some, after_unit, then_on, after_part, after_numbers, is_end,
  is_semver,
}

-- A unit of a version: of an identifier, or a plus.
abbrev pub is_version_unit : ℕ → Bool
is_version_unit c = is_identifier_unit c || c == b'+'

-- A text all of whose units are of a version, where what is left of it is.
IsPlainBefore : Text → Text → Type 0
IsPlainBefore s t = all_units is_version_unit t ≡ true → all_units is_version_unit s ≡ true

drop_start-IsPlainBefore :
    (p : ℕ → Bool) (sound : (c : ℕ) → p c ≡ true → is_version_unit c ≡ true) (s : Text)
    → IsPlainBefore s (drop_start p s)
unfolding drop_start all_units IsPlainBefore
drop_start-IsPlainBefore p sound [] h = refl
drop_start-IsPlainBefore p sound (c ∷ s) h =
    ground (arith, sound c, drop_start-IsPlainBefore p sound s)

module _ (p : ℕ → Bool) (sound : (c : ℕ) → p c ≡ true → is_version_unit c ≡ true) where
  after_some-IsPlainBefore : (s t : Text) → after_some p s ≡ some t → IsPlainBefore s t
  unfolding all_units IsPlainBefore
  after_some-IsPlainBefore [] t e h = ground arith
  after_some-IsPlainBefore (c ∷ s) t e h =
      ground (arith, sound c, drop_start-IsPlainBefore p sound s)

after_unit-IsPlainBefore :
    (c : ℕ) → is_version_unit c ≡ true → (s t : Text) → after_unit c s ≡ some t → IsPlainBefore s t
unfolding all_units IsPlainBefore
after_unit-IsPlainBefore c sound [] t e h = ground arith
after_unit-IsPlainBefore c sound (d ∷ s) t e h = ground arith

identifier_sound : (c : ℕ) → is_identifier_unit c ≡ true → is_version_unit c ≡ true
identifier_sound c h = ground arith

digit_sound : (c : ℕ) → is_digit c ≡ true → is_version_unit c ≡ true
digit_sound c h = ground arith

same_unit : (d c : ℕ) → d == c ≡ true → is_version_unit c ≡ true → is_version_unit d ≡ true
same_unit d c same h = rw ((==_iff d c).0 same) h

and_intro : {a b : Bool} → a ≡ true → b ≡ true → (a && b) ≡ true
and_intro h k = rw (h, k) refl

after_part-IsPlainBefore :
    (c : ℕ) → is_version_unit c ≡ true → (s : Text) → IsPlainBefore s (after_part c s)
unfolding all_units IsPlainBefore
after_part-IsPlainBefore c sound [] = λ h. h
after_part-IsPlainBefore c sound (d ∷ s) = elim (Bool-cases (d == c)) [
  | inl same ↦ rw same (go (after_some is_identifier_unit s) refl (same_unit d c same sound))
  | inr other ↦ rw other (λ h. h)
]
  where
    go :
        (o : Option Text)
        → after_some is_identifier_unit s ≡ o
        → is_version_unit d ≡ true
        → all_units is_version_unit (get_or o (d ∷ s)) ≡ true
        → all_units is_version_unit (d ∷ s) ≡ true
    go none e unit h = h
    go (some t) e unit h =
        and_intro unit (after_some-IsPlainBefore is_identifier_unit identifier_sound s t e h)

-- What a step of the pattern leaves of a text is such that, if it is plain, so is the text.
abbrev LeavesPlain : Text → Option Text → Type 0
LeavesPlain s o = (t : Text) → o ≡ some t → IsPlainBefore s t

then_on-LeavesPlain :
    (s : Text) (o : Option Text) (f : Text → Option Text)
    → LeavesPlain s o
    → ((u : Text) → LeavesPlain u (f u))
    → LeavesPlain s (then_on o f)
unfolding IsPlainBefore
then_on-LeavesPlain s none f first next t e h = ground arith
then_on-LeavesPlain s (some u) f first next t e h = first u refl (next u t e h)

after_numbers-LeavesPlain : (s : Text) → LeavesPlain s (after_numbers s)
unfolding after_numbers
after_numbers-LeavesPlain s =
    let number = after_some-IsPlainBefore is_digit digit_sound in
    let dot = after_unit-IsPlainBefore b'.' refl in
    then_on-LeavesPlain s _ _ (number s) λ a.
      then_on-LeavesPlain a _ _ (dot a) λ b.
        then_on-LeavesPlain b _ _ (number b) λ c. then_on-LeavesPlain c _ _ (dot c) λ d. number d

is_end-inv : (o : Option Text) → is_end o ≡ true → o ≡ some []
is_end-inv none h = ground arith
is_end-inv (some []) h = refl
is_end-inv (some (c ∷ s)) h = ground arith

-- A release version consists of digits, letters, dots, dashes and pluses.
pub is_semver-plain : (s : Text) → is_semver s ≡ true → all_units is_version_unit s ≡ true
unfolding is_semver IsPlainBefore all_units
is_semver-plain s h =
    then_on-LeavesPlain s (after_numbers s) (λ rest. some (after_part b'+' (after_part b'-' rest)))
      (after_numbers-LeavesPlain s)
      (λ u t e plain.
        after_part-IsPlainBefore b'-' refl u
          (after_part-IsPlainBefore b'+' refl (after_part b'-' u) (ground arith)))
      [] (is_end-inv _ h) refl
