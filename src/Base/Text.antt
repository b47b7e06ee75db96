-- ===== src/Base/Text.antt =====
-- JavaScript strings as lists of UTF-16 code units, and the methods of `String.prototype` that the
-- plugins call.
pub mod Split
pub mod Delimited
pub mod Lines
pub mod Trim
use Prim.Native.Nat.{ℕ, zero, suc, ◌+◌, ◌-◌}
use Prim.Native.Char.{code}
use Prim.Native.String.{String}
use mathlib.Core.Path.{◌≡◌, refl}
use mathlib.Core.Logic.{◌↔◌}
use mathlib.Core.Bool.{Bool, true, false, ◌&&◌, ◌||◌}
use mathlib.Core.List.{List, [], ◌∷◌, ◌++◌, reverse}
use native.Mathlib.Omega.{arith}
use agent_memory_manager.Base.Tests.{leb, ◌==◌, if◌then◌else◌}
use agent_memory_manager.Base.Lists.{length}

abbrev pub Text : Type 0
Text = List ℕ

codes : String → Text
codes String.[] = []
codes (String.◌∷◌ c s) = code c ∷ codes s

-- A string literal of the source. All of them lie in the basic plane, where a code point is one
-- code unit. It is shut, so that a literal stays one term in a goal.
unfoldable pub txt : String → Text
unfolding codes
txt s = codes s

-- `a === b` on strings.
unfoldable pub text_eq : Text → Text → Bool
text_eq [] [] = true
text_eq (a ∷ s) (b ∷ t) = a == b && text_eq s t
text_eq _ _ = false

pub text_eq_iff : (s t : Text) → (text_eq s t ≡ true) ↔ (s ≡ t)
unfolding text_eq
text_eq_iff [] [] = ground arith
text_eq_iff [] (b ∷ t) = ground arith
text_eq_iff (a ∷ s) [] = ground arith
text_eq_iff (a ∷ s) (b ∷ t) = ground (arith, text_eq_iff s t)

pub text_eq_refl : (s : Text) → text_eq s s ≡ true
text_eq_refl s = (text_eq_iff s s).1 refl

-- `s.length === 0`, that is, a string that is falsy.
abbrev pub is_empty : Text → Bool
is_empty [] = true
is_empty (c ∷ s) = false

-- White space and line terminators, as `trim` reads them.
unfoldable pub is_space : ℕ → Bool
is_space c =
    leb 9 c && leb c 13
    || c == 32
    || c == 160
    || c == 0x1680
    || leb 0x2000 c && leb c 0x200a
    || c == 0x2028
    || c == 0x2029
    || c == 0x202f
    || c == 0x205f
    || c == 0x3000
    || c == 0xfeff

-- Drops the leading units that pass a test.
unfoldable pub drop_start : (ℕ → Bool) → Text → Text
drop_start p [] = []
drop_start p (c ∷ s) = let rest = drop_start p s in if p c then rest else c ∷ s

-- Whether every unit passes a test.
unfoldable pub all_units : (ℕ → Bool) → Text → Bool
all_units p [] = true
all_units p (c ∷ s) = p c && all_units p s

-- Drops the trailing units that pass a test.
unfoldable pub drop_end : (ℕ → Bool) → Text → Text
unfolding all_units
drop_end p [] = []
drop_end p (c ∷ s) = if all_units p (c ∷ s) then [] else c ∷ drop_end p s

-- `s.trimEnd()`
abbrev pub trim_end : Text → Text
trim_end s = drop_end is_space s

-- `s.trim()`
unfoldable pub trim : Text → Text
trim s = trim_end (drop_start is_space s)

-- `s.startsWith(t)`
unfoldable pub starts_with : Text → Text → Bool
starts_with s [] = true
starts_with [] (b ∷ t) = false
starts_with (a ∷ s) (b ∷ t) = a == b && starts_with s t

-- `s.endsWith(t)`
unfoldable pub ends_with : Text → Text → Bool
unfolding starts_with
ends_with s t = starts_with (reverse s) (reverse t)

-- Puts a unit in front of the first part.
abbrev push_head : ℕ → List Text → List Text
push_head c [] = (c ∷ []) ∷ []
push_head c (part ∷ parts) = (c ∷ part) ∷ parts

-- The scan of `split`: `skip` units of a separator are still to be passed over.
split_from : Text → ℕ → Text → List Text
split_from sep skip [] = [] ∷ []
split_from sep (suc skip) (c ∷ s) = split_from sep skip s
split_from sep zero (c ∷ s) = elim (starts_with (c ∷ s) sep) [
  | true ↦ [] ∷ split_from sep (length sep - 1) s
  | false ↦ push_head c (split_from sep zero s)
]

-- `s.split(sep)`, for a separator that is not empty.
unfoldable pub split : Text → Text → List Text
unfolding split_from starts_with
split s sep = split_from sep zero s

-- `parts.join(sep)`
unfoldable pub join : Text → List Text → Text
join sep [] = []
join sep (part ∷ []) = part
join sep (part ∷ next ∷ parts) = part ++ sep ++ join sep (next ∷ parts)

-- `s.toLowerCase()`, on ASCII letters. The source compares the result only with ASCII words, to
-- which no other letter is lowered.
unfoldable pub to_lower_case : Text → Text
to_lower_case [] = []
to_lower_case (c ∷ s) = (if leb b'A' c && leb c b'Z' then c + 32 else c) ∷ to_lower_case s

-- `list.includes(s)`, and `new Set(list).has(s)`.
unfoldable pub includes : List Text → Text → Bool
unfolding text_eq
includes [] s = false
includes (x ∷ xs) s = text_eq x s || includes xs s
