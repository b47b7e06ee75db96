-- ===== src/Base/Text/Lines.antt =====
-- Texts by lines: which texts are made of lines that end cleanly.
use agent_memory_manager.Base.Lists.{All}
use agent_memory_manager.Base.Tests.{Bool-cases}
use Prim.Native.Nat.{ℕ}
use mathlib.Core.Path.{◌≡◌, refl, ap, sym, subst}
use mathlib.Core.Logic.{◌≢◌, inl, inr}
use mathlib.Core.Bool.{false}
use mathlib.Core.List.{List, [], ◌∷◌, ◌++◌, map, append_assoc}
use native.Mathlib.Decide.{ℕ_discrete}
use agent_memory_manager.Base.Text.{
  Text, is_space, drop_start, all_units, drop_end, trim, trim_end, split, push_head, join,
}
use agent_memory_manager.Base.Text.Split.{Lacks, split-separator, split-Lacks, split-other}
use agent_memory_manager.Base.Text.Trim.{EndsClean, drop_end_of_EndsClean, drop_end-EndsClean}

abbrev nl : ℕ
nl = b'\n'

abbrev IsLine : Text → Type 0
IsLine p = EndsClean is_space p × Lacks nl p

-- No white space stands just before a line break, but for other line breaks.
pub IsTidy : Text → Type 0
IsTidy [] = Unit
IsTidy (c ∷ []) = Unit
IsTidy (c ∷ d ∷ s) = (c ≢ nl → d ≡ nl → is_space c ≡ false) × IsTidy (d ∷ s)

IsTidy-tail : (c : ℕ) (s : Text) → IsTidy (c ∷ s) → IsTidy s
unfolding IsTidy
IsTidy-tail c [] h = tt
IsTidy-tail c (d ∷ s) h = h.1

drop_start-IsTidy : (s : Text) → IsTidy s → IsTidy (drop_start is_space s)
unfolding drop_start
drop_start-IsTidy [] h = h
drop_start-IsTidy (c ∷ s) h = elim (Bool-cases (is_space c)) [
  | inl e ↦ rw e (drop_start-IsTidy s (IsTidy-tail c s h))
  | inr e ↦ rw e h
]

IsTidy-cons :
    (c d : ℕ) (s : Text)
    → IsTidy (c ∷ d ∷ s)
    → IsTidy (drop_end is_space (d ∷ s))
    → IsTidy (c ∷ drop_end is_space (d ∷ s))
unfolding drop_end IsTidy
IsTidy-cons c d s h k = elim (Bool-cases (all_units is_space (d ∷ s))) [
  | inl e ↦ rw e tt
  | inr e ↦ rw e (h.0, rw e at k)
]

drop_end-IsTidy : (s : Text) → IsTidy s → IsTidy (drop_end is_space s)
unfolding drop_end IsTidy
drop_end-IsTidy [] h = tt
drop_end-IsTidy (c ∷ []) h = elim (Bool-cases (all_units is_space (c ∷ []))) [
  | inl e ↦ rw e tt
  | inr e ↦ rw e tt
]
drop_end-IsTidy (c ∷ d ∷ s) h = elim (Bool-cases (all_units is_space (c ∷ d ∷ s))) [
  | inl e ↦ rw e tt
  | inr e ↦ rw e (IsTidy-cons c d s h (drop_end-IsTidy (d ∷ s) h.1))
]

-- Trimming keeps a text tidy.
pub trim-IsTidy : (s : Text) → IsTidy s → IsTidy (trim s)
unfolding trim
trim-IsTidy s h = drop_end-IsTidy _ (drop_start-IsTidy s h)

Lacks-IsTidy : (p : Text) → Lacks nl p → IsTidy p
unfolding IsTidy
Lacks-IsTidy [] h = tt
Lacks-IsTidy (c ∷ []) h = tt
Lacks-IsTidy (c ∷ d ∷ p) h = ((λ _ e. absurd (h.1.0 e)), Lacks-IsTidy (d ∷ p) h.1)

nl-IsTidy : (s : Text) → IsTidy s → IsTidy (nl ∷ s)
unfolding IsTidy
nl-IsTidy [] h = tt
nl-IsTidy (d ∷ s) h = ((λ n _. absurd (n refl)), h)

-- A line and a line break before a tidy text.
line-IsTidy : (p s : Text) → IsLine p → IsTidy s → IsTidy (p ++ nl ∷ s)
unfolding IsTidy
line-IsTidy [] s h k = nl-IsTidy s k
line-IsTidy (c ∷ []) s h k = ((λ _ _. h.0), nl-IsTidy s k)
line-IsTidy (c ∷ d ∷ p) s h k = ((λ _ e. absurd (h.1.1.0 e)), line-IsTidy (d ∷ p) s (h.0, h.1.1) k)

-- Lines that end cleanly make a tidy text.
pub join-IsTidy : (ps : List Text) → All IsLine ps → IsTidy (join (nl ∷ []) ps)
unfolding join
join-IsTidy [] h = unfold IsTidy in tt
join-IsTidy (p ∷ []) h = Lacks-IsTidy p h.0.1
join-IsTidy (p ∷ q ∷ ps) h =
    let rest = join (nl ∷ []) (q ∷ ps) in
    subst IsTidy (sym (append_assoc p (nl ∷ []) rest))
      (line-IsTidy p rest h.0 (join-IsTidy (q ∷ ps) h.1))

trim_end-Lacks : (p : Text) → Lacks nl p → Lacks nl (trim_end p)
unfolding drop_end
trim_end-Lacks [] h = tt
trim_end-Lacks (c ∷ p) h = elim (Bool-cases (all_units is_space (c ∷ p))) [
  | inl e ↦ rw e tt
  | inr e ↦ rw e (h.0, trim_end-Lacks p h.1)
]

pub map-IsLine : (ps : List Text) → All (Lacks nl) ps → All IsLine (map trim_end ps)
map-IsLine [] h = tt
map-IsLine (p ∷ ps) h = ((drop_end-EndsClean is_space p, trim_end-Lacks p h.0), map-IsLine ps h.1)

split-nl : (s : Text) → split (nl ∷ s) (nl ∷ []) ≡ [] ∷ split s (nl ∷ [])
split-nl s = split-separator nl [] s tt

split-nil : split [] (nl ∷ []) ≡ [] ∷ []
split-nil = split-Lacks nl [] tt

push_head-EndsClean :
    (c d : ℕ) (ps : List Text)
    → All (EndsClean is_space) (push_head d ps)
    → All (EndsClean is_space) (push_head c (push_head d ps))
push_head-EndsClean c d [] h = h
push_head-EndsClean c d (p ∷ ps) h = h

-- The lines of a tidy text that ends cleanly end cleanly.
split-All-EndsClean :
    (s : Text) → IsTidy s → EndsClean is_space s → All (EndsClean is_space) (split s (nl ∷ []))
unfolding IsTidy
split-All-EndsClean [] h k = rw split-nil (tt, tt)
split-All-EndsClean (c ∷ []) h k = elim (ℕ_discrete c nl) [
  | yes e ↦ rw (e, split-nl [], split-nil) (tt, (tt, tt))
  | no n ↦ rw (split-other nl c [] n, split-nil) (k, tt)
]
split-All-EndsClean (c ∷ d ∷ s) h k =
    let rest = split-All-EndsClean (d ∷ s) h.1 k in
    elim (ℕ_discrete c nl) [
      | yes e ↦ rw (e, split-nl (d ∷ s)) (tt, rest)
      | no n ↦ rw (split-other nl c (d ∷ s) n) (elim (ℕ_discrete d nl) [
        | yes e ↦ rw (e, split-nl s) (h.0 n e, (rw (e, split-nl s) at rest).1)
        | no m ↦
            rw (split-other nl d s m)
              (push_head-EndsClean c d _ (rw (split-other nl d s m) at rest))
      ])
    ]

map-trim_end : (ps : List Text) → All (EndsClean is_space) ps → map trim_end ps ≡ ps
map-trim_end [] h = refl
map-trim_end (p ∷ ps) h = rw (drop_end_of_EndsClean is_space p h.0, map-trim_end ps h.1)

pub trimmed_lines :
    (s : Text)
    → IsTidy s
    → EndsClean is_space s
    → map trim_end (split s (nl ∷ [])) ≡ split s (nl ∷ [])
trimmed_lines s h k = map-trim_end _ (split-All-EndsClean s h k)

join-push_head : (sep : Text) (c : ℕ) (ps : List Text) → join sep (push_head c ps) ≡ c ∷ join sep ps
unfolding join
join-push_head sep c [] = refl
join-push_head sep c (p ∷ []) = refl
join-push_head sep c (p ∷ q ∷ ps) = refl

join-nil-cons : (sep : Text) (ps : List Text) → ps ≢ [] → join sep ([] ∷ ps) ≡ sep ++ join sep ps
unfolding join
join-nil-cons sep [] h = absurd (h refl)
join-nil-cons sep (p ∷ ps) h = refl

push_head-cons : (c : ℕ) (ps : List Text) → push_head c ps ≢ []
push_head-cons c [] e = cc
push_head-cons c (p ∷ ps) e = cc

split-cons : (s : Text) → split s (nl ∷ []) ≢ []
split-cons [] = rw split-nil (λ e. cc)
split-cons (c ∷ s) = elim (ℕ_discrete c nl) [
  | yes e ↦ rw (e, split-nl s) (λ e. cc)
  | no n ↦ rw (split-other nl c s n) (push_head-cons c _)
]

-- The lines of a text, joined.
pub join-split : (s : Text) → join (nl ∷ []) (split s (nl ∷ [])) ≡ s
join-split [] = rw split-nil (unfold join in refl)
join-split (c ∷ s) = elim (ℕ_discrete c nl) [
  | yes e ↦
      rw (e, split-nl s, join-nil-cons (nl ∷ []) (split s (nl ∷ [])) (split-cons s))
        (ap (λ t. nl ∷ t) (join-split s))
  | no n ↦ rw (split-other nl c s n, join-push_head (nl ∷ []) c) (ap (λ t. c ∷ t) (join-split s))
]
