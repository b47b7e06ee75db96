-- ===== src/Release/Grammar.antt =====
-- The version check: the scan accepts exactly the texts of the pattern.
use agent_memory_manager.Base.{
  ℕ, ◌≡◌, ◌↔◌, refl, sym, ap, ◌∙◌, Bool, true, false, Option, some, none, [], ◌∷◌, ◌++◌, ◌==◌,
  ==_iff, arith, Bool-cases, inl, inr, append-nil,
}
use agent_memory_manager.Base.Text.{Text, is_empty, drop_start, all_units}
use agent_memory_manager.Base.Text.Trim.{StartsClean}
use agent_memory_manager.Base.Json.{get_or}
use agent_memory_manager.Release.{
  is_digit, is_identifier_unit, after_some, after_unit, then_on, after_part, after_numbers, is_end,
  is_semver,
}

-- `[…]+`: units that pass a test, at least one.
abbrev pub IsRun : (ℕ → Bool) → Text → Type 0
IsRun p s = (is_empty s ≡ false) × (all_units p s ≡ true)

-- `(?:c[0-9A-Za-z.-]+)?`
pub data IsPart (c : ℕ) : Text → Type 0 where
  absent : IsPart c []
  present : (s : Text) → IsRun is_identifier_unit s → IsPart c (c ∷ s)

-- `\d+\.\d+\.\d+(?:-[0-9A-Za-z.-]+)?(?:\+[0-9A-Za-z.-]+)?`
pub record IsVersion (s : Text) : Type 0 where
  pub major : Text
  pub minor : Text
  pub patch : Text
  pub pre : Text
  pub build : Text
  pub major_run : IsRun is_digit major
  pub minor_run : IsRun is_digit minor
  pub patch_run : IsRun is_digit patch
  pub pre_part : IsPart b'-' pre
  pub build_part : IsPart b'+' build
  pub whole : s ≡ major ++ b'.' ∷ (minor ++ b'.' ∷ (patch ++ (pre ++ build)))

module _ (p : ℕ → Bool) where
  drop_start-append :
      (s t : Text) → all_units p s ≡ true → StartsClean p t → drop_start p (s ++ t) ≡ t
  unfolding drop_start all_units
  drop_start-append [] [] h k = refl
  drop_start-append [] (c ∷ t) h k = rw k
  drop_start-append (c ∷ s) t h k = ground (arith, drop_start-append s t)

  -- The scan takes a whole run.
  after_some-append : (s t : Text) → IsRun p s → StartsClean p t → after_some p (s ++ t) ≡ some t
  unfolding all_units
  after_some-append [] t h k = cc
  after_some-append (c ∷ s) t h k = ground (arith, drop_start-append s t)

  drop_start-split : (s : Text) → (a : Text) × (all_units p a ≡ true) × (s ≡ a ++ drop_start p s)
  unfolding drop_start all_units
  drop_start-split [] = ([], refl, refl)
  drop_start-split (c ∷ s) = elim (Bool-cases (p c)) [
    | inl e ↦
        let (a, passes, eq) = drop_start-split s in (c ∷ a, ground arith, rw e (ap (λ t. c ∷ t) eq))
    | inr e ↦ ([], refl, rw e refl)
  ]

  after_some-split : (s t : Text) → after_some p s ≡ some t → (a : Text) × IsRun p a × (s ≡ a ++ t)
  unfolding all_units
  after_some-split [] t e = ground arith
  after_some-split (c ∷ s) t e = elim (Bool-cases (p c)) [
    | inl h ↦
        let (a, passes, eq) = drop_start-split s in
        let left : drop_start p s ≡ t = ground arith in
        (c ∷ a, (refl, ground arith), ap (λ u. c ∷ u) (eq ∙ ap (λ u. a ++ u) left))
    | inr h ↦ let bad = rw h at e in cc
  ]

after_unit-split : (c : ℕ) (s t : Text) → after_unit c s ≡ some t → s ≡ c ∷ t
after_unit-split c [] t e = ground arith
after_unit-split c (d ∷ s) t e = ground (arith, ==_iff d c)

-- The scan of an optional part takes one that is there.
after_part-split : (c : ℕ) (s : Text) → (a : Text) × IsPart c a × (s ≡ a ++ after_part c s)
after_part-split c [] = ([], absent, refl)
after_part-split c (d ∷ s) = elim (Bool-cases (d == c)) [
  | inl same ↦ rw same (go (after_some is_identifier_unit s) refl ((==_iff d c).0 same))
  | inr other ↦ ([], absent, rw other refl)
]
  where
    go :
        (o : Option Text)
        → after_some is_identifier_unit s ≡ o
        → d ≡ c
        → (a : Text) × IsPart c a × (d ∷ s ≡ a ++ get_or o (d ∷ s))
    go none e unit = ([], absent, refl)
    go (some t) e unit =
        let (a, run, eq) = after_some-split is_identifier_unit s t e in
        (c ∷ a, present a run, ground (arith, eq))

-- What may stand behind a part: not a unit of an identifier, and not the unit of the part.
abbrev StopsPart : ℕ → Text → Type 0
StopsPart c [] = Unit
StopsPart c (d ∷ s) = (is_identifier_unit d ≡ false) × ((d == c) ≡ false)

StopsPart-StartsClean : (c : ℕ) (s : Text) → StopsPart c s → StartsClean is_identifier_unit s
StopsPart-StartsClean c [] h = tt
StopsPart-StartsClean c (d ∷ s) h = h.0

after_part-append :
    (c : ℕ) {a : Text} (t : Text) → IsPart c a → StopsPart c t → after_part c (a ++ t) ≡ t
after_part-append c [] absent h = refl
after_part-append c (d ∷ t) absent h = rw (h.1) refl
after_part-append c t (present s run) h =
    rw (after_some-append is_identifier_unit s t run (StopsPart-StartsClean c t h)) (ground arith)

-- What a part that is not there, or begins with its unit, is for another.
IsPart-StopsPart : {b : Text} → IsPart b'+' b → StopsPart b'-' b
IsPart-StopsPart absent = tt
IsPart-StopsPart (present s run) = (refl, refl)

-- No digit begins the parts behind the numbers.
parts-StartsClean : {a b : Text} → IsPart b'-' a → IsPart b'+' b → StartsClean is_digit (a ++ b)
parts-StartsClean absent absent = tt
parts-StartsClean absent (present s run) = refl
parts-StartsClean (present s run) part = refl

end_part : {b : Text} → IsPart b'+' b → after_part b'+' b ≡ []
end_part {b} part = ap (after_part b'+') (sym (append-nil b)) ∙ after_part-append b'+' [] part tt

-- The scan accepts a text of the pattern.
IsVersion-accepted : (s : Text) → IsVersion s → is_semver s ≡ true
unfolding is_semver after_numbers
IsVersion-accepted s v =
    let rest = v.pre ++ v.build in
    let third = v.patch ++ rest in
    let second = v.minor ++ b'.' ∷ third in
    rw
      (
        v.whole,
        after_some-append is_digit v.major (b'.' ∷ second) v.major_run refl,
        after_some-append is_digit v.minor (b'.' ∷ third) v.minor_run refl,
        after_some-append is_digit v.patch rest v.patch_run
            (parts-StartsClean v.pre_part v.build_part),
        after_part-append b'-' v.build v.pre_part (IsPart-StopsPart v.build_part),
        end_part v.build_part,
      )
      refl

then_on-some :
    (o : Option Text) (f : Text → Option Text) (t : Text)
    → then_on o f ≡ some t
    → (u : Text) × (o ≡ some u) × (f u ≡ some t)
then_on-some none f t e = cc
then_on-some (some u) f t e = (u, refl, e)

-- Three numbers with dots between them.
pub record HasNumbers (s rest : Text) : Type 0 where
  pub major : Text
  pub minor : Text
  pub patch : Text
  pub major_run : IsRun is_digit major
  pub minor_run : IsRun is_digit minor
  pub patch_run : IsRun is_digit patch
  pub whole : s ≡ major ++ b'.' ∷ (minor ++ b'.' ∷ (patch ++ rest))

after_numbers-HasNumbers : (s rest : Text) → after_numbers s ≡ some rest → HasNumbers s rest
unfolding after_numbers
after_numbers-HasNumbers s rest e =
    let (a, major, e1) = then_on-some (after_some is_digit s) _ rest e in
    let (b, dot, e2) = then_on-some (after_unit b'.' a) _ rest e1 in
    let (c, minor, e3) = then_on-some (after_some is_digit b) _ rest e2 in
    let (d, dot2, patch) = then_on-some (after_unit b'.' c) _ rest e3 in
    let (x, x_run, x_eq) = after_some-split is_digit s a major in
    let (y, y_run, y_eq) = after_some-split is_digit b c minor in
    let (z, z_run, z_eq) = after_some-split is_digit d rest patch in
    record {
      major = x;
      minor = y;
      patch = z;
      major_run = x_run;
      minor_run = y_run;
      patch_run = z_run;
      whole =
          x_eq
          ∙ ap (λ t. x ++ t)
              (after_unit-split b'.' a b dot
                ∙ ap (λ t. b'.' ∷ t)
                    (y_eq
                      ∙ ap (λ t. y ++ t)
                          (after_unit-split b'.' c d dot2 ∙ ap (λ t. b'.' ∷ t) z_eq)));
    }

is_end-some : (o : Option Text) → is_end o ≡ true → o ≡ some []
is_end-some none h = ground arith
is_end-some (some []) h = refl
is_end-some (some (c ∷ s)) h = ground arith

-- A text that the scan accepts is one of the pattern.
accepted-IsVersion : (s : Text) → is_semver s ≡ true → IsVersion s
unfolding is_semver
accepted-IsVersion s h =
    let (rest, numbers, parts) = then_on-some (after_numbers s) _ [] (is_end-some _ h) in
    let n = after_numbers-HasNumbers s rest numbers in
    let (x, x_part, x_eq) = after_part-split b'-' rest in
    let (y, y_part, y_eq) = after_part-split b'+' (after_part b'-' rest) in
    let ends : after_part b'+' (after_part b'-' rest) ≡ [] = ground (arith, parts) in
    record {
      major = n.major;
      minor = n.minor;
      patch = n.patch;
      pre = x;
      build = y;
      major_run = n.major_run;
      minor_run = n.minor_run;
      patch_run = n.patch_run;
      pre_part = x_part;
      build_part = y_part;
      whole =
          n.whole
          ∙ ap (λ t. n.major ++ b'.' ∷ (n.minor ++ b'.' ∷ (n.patch ++ t)))
              (x_eq ∙ ap (λ t. x ++ t) (y_eq ∙ ap (λ t. y ++ t) ends ∙ append-nil y));
    }

-- The version check passes exactly the texts of the pattern: three numbers with dots between them,
-- and then, where they are there, a pre-release behind a dash and a build behind a plus.
pub is_semver_iff : (s : Text) → (is_semver s ≡ true) ↔ IsVersion s
is_semver_iff s = (accepted-IsVersion s, IsVersion-accepted s)
