-- ===== src/Effects/Keeps.antt =====
-- Programs that move the world along a relation, whatever they return: what holds of the parts of a
-- program holds of the whole.
use agent_memory_manager.Base.{Bool, Option, none, some, List, if◌then◌else◌}
use agent_memory_manager.Effects.{World, M, or_throw, ◌>>=◌, try_catch, for_each}
use agent_memory_manager.Effects.Rules.{>>=-world, if-world, try_catch-world, for_each-world}

-- The program goes from every world to one that is related to it.
abbrev pub Keeps : {A : Type 0} → (World → World → Type 0) → M A → Type 0
Keeps R m = (w : World) → R w (m w).1

pub record IsPreorder (R : World → World → Type 0) : Type 0 where
  pub reflexive : (w : World) → R w w
  pub transitive : (u v w : World) → R u v → R v w → R u w

module _ {R : World → World → Type 0} (p : IsPreorder R) where
  pub or_throw-Keeps : {A : Type 0} (o : Option A) → Keeps R (or_throw o)
  or_throw-Keeps none w = p.reflexive w
  or_throw-Keeps (some a) w = p.reflexive w

  pub >>=-Keeps :
      {A B : Type 0} (m : M A) (f : A → M B)
      → Keeps R m
      → ((a : A) → Keeps R (f a))
      → Keeps R (m >>= f)
  >>=-Keeps m f h k w =
      >>=-world (R w) m f w (λ _. h w) (λ a _. p.transitive w _ _ (h w) (k a (m w).1))

  pub if-Keeps :
      {A : Type 0} (b : Bool) (m n : M A) → Keeps R m → Keeps R n → Keeps R (if b then m else n)
  if-Keeps b m n h k w = if-world (R w) b m n w (λ _. h w) (λ _. k w)

  pub try_catch-Keeps :
      {A : Type 0} (m handler : M A) → Keeps R m → Keeps R handler → Keeps R (try_catch m handler)
  try_catch-Keeps m handler h k w =
      try_catch-world (R w) m handler w (λ _ _. h w) (λ _. p.transitive w _ _ (h w) (k (m w).1))

  pub for_each-Keeps :
      {A : Type 0} (xs : List A) (body : A → M (Unit {0}))
      → ((a : A) → Keeps R (body a))
      → Keeps R (for_each xs body)
  for_each-Keeps xs body h w =
      for_each-world R p.reflexive p.transitive body (λ _. Unit) (λ a v _. (h a v, tt)) xs w tt
