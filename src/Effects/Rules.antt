-- ===== src/Effects/Rules.antt =====
-- Proof rules for programs with effects: what holds of the world after a bind, a branch, a handler
-- and a loop.
use agent_memory_manager.Base.{◌≡◌, refl, Bool, true, false, List, [], ◌∷◌, if◌then◌else◌}
use agent_memory_manager.Effects.{
  World, Res, done, threw, M, continue, pure, recover, ◌>>=◌, ◌>>◌, try_catch, for_each,
}

module _ {A B : Type 0} (P : World → Type 0) where
  continue_world :
      (r : Res A) (f : A → M B) (w : World)
      → (r ≡ threw → P w)
      → ((a : A) → r ≡ done a → P (f a w).1)
      → P (continue r f w).1
  continue_world (done a) f w thrown next = next a refl
  continue_world threw f w thrown next = thrown refl

  -- After a bind: the first part threw, or the second ran from the world it left.
  pub >>=-world :
      (m : M A) (f : A → M B) (w : World)
      → ((m w).0 ≡ threw → P (m w).1)
      → ((a : A) → (m w).0 ≡ done a → P (f a (m w).1).1)
      → P ((m >>= f) w).1
  >>=-world m f w = continue_world (m w).0 f (m w).1

module _ {A : Type 0} (P : World → Type 0) where
  pub if-world :
      (b : Bool) (m n : M A) (w : World)
      → (b ≡ true → P (m w).1)
      → (b ≡ false → P (n w).1)
      → P ((if b then m else n) w).1
  if-world true m n w yes_case no_case = yes_case refl
  if-world false m n w yes_case no_case = no_case refl

  recover_world :
      (r : Res A) (handler : M A) (w : World)
      → ((a : A) → r ≡ done a → P w)
      → (r ≡ threw → P (handler w).1)
      → P (recover r handler w).1
  recover_world (done a) handler w ended thrown = ended a refl
  recover_world threw handler w ended thrown = thrown refl

  pub try_catch-world :
      (m handler : M A) (w : World)
      → ((a : A) → (m w).0 ≡ done a → P (m w).1)
      → ((m w).0 ≡ threw → P (handler (m w).1).1)
      → P (try_catch m handler w).1
  try_catch-world m handler w = recover_world (m w).0 handler (m w).1

-- A loop keeps what every round keeps, whether a round throws or not.
module _ {A : Type 0} (R : World → World → Type 0) where
  pub for_each-world :
      (refl_R : (w : World) → R w w) (trans_R : (u v w : World) → R u v → R v w → R u w)
      (body : A → M (Unit {0})) (P : World → Type 0)
      (round : (a : A) (w : World) → P w → R w (body a w).1 × P (body a w).1) (xs : List A)
      (w : World)
      → P w
      → R w (for_each xs body w).1
  unfolding for_each
  for_each-world refl_R trans_R body P round [] w p = refl_R w
  for_each-world refl_R trans_R body P round (x ∷ xs) w p =
      let here = round x w p in
      >>=-world (R w) (body x) (λ _. for_each xs body) w (λ _. here.0)
        (λ _ _.
          trans_R w _ _ here.0 (for_each-world refl_R trans_R body P round xs (body x w).1 here.1))

-- A loop whose first round does not throw.
pub for_each-cons :
    {A : Type 0} (x : A) (xs : List A) (body : A → M (Unit {0})) (w : World)
    → (body x w).0 ≡ done tt
    → for_each (x ∷ xs) body w ≡ for_each xs body (body x w).1
unfolding for_each
for_each-cons x xs body w e = rw e

pub for_each-nil :
    {A : Type 0} (body : A → M (Unit {0})) (w : World) → for_each [] body w ≡ (done tt, w)
unfolding for_each
for_each-nil body w = refl

-- A bind whose first part ended with a value.
pub >>=-done :
    {A B : Type 0} (m : M A) (f : A → M B) (w : World) (a : A)
    → (m w).0 ≡ done a
    → (m >>= f) w ≡ f a (m w).1
>>=-done m f w a e = rw e refl

-- A sequence that ended: both parts did.
pub >>-ended :
    (m n : M (Unit {0})) (w : World)
    → ((m >> n) w).0 ≡ done tt
    → ((m w).0 ≡ done tt) × ((n (m w).1).0 ≡ done tt) × ((m >> n) w ≡ n (m w).1)
>>-ended m n w = go (m w).0 (m w).1
  where
    go :
        (r : Res (Unit {0})) (v : World)
        → (continue r (λ _. n) v).0 ≡ done tt
        → (r ≡ done tt) × ((n v).0 ≡ done tt) × (continue r (λ _. n) v ≡ n v)
    go (done a) v h = (refl, h, refl)
    go threw v h = cc

-- Two pure steps after a first part are one.
pub >>=-pure :
    {A B C : Type 0} (m : M A) (f : A → B) (g : B → C) (h : A → C) (w : World)
    → ((a : A) → h a ≡ g (f a))
    → (m >>= λ a. pure (h a)) w ≡ ((m >>= λ a. pure (f a)) >>= λ b. pure (g b)) w
>>=-pure {A = A} m f g h w same = go (m w).0 (m w).1
  where
    go :
        (r : Res A) (v : World)
        → continue r (λ a. pure (h a)) v
          ≡ continue
              (continue r (λ a. pure (f a)) v).0
              (λ b. pure (g b))
              (continue r (λ a. pure (f a)) v).1
    go (done a) v = rw (same a) refl
    go threw v = refl
