-- ===== src/Base/Json.antt =====
-- Values of the language as the plugins meet them: parsed JSON and hook payloads. `undefined` is
-- the `none` of `Option Json`.
use Prim.Native.Nat.{ℕ, zero, ◌*◌, ◌^◌}
use Prim.Native.String.{String}
use mathlib.Core.Bool.{Bool, true, false, not}
use mathlib.Core.List.{List, [], ◌∷◌}
use mathlib.Core.Option.{Option, none, some}
use text.Mathlib.Text.{◌==◌}
use agent_memory_manager.Base.Tests.{ltb, if◌then◌else◌}
use agent_memory_manager.Base.Text.{Text}

-- A number of the language. Every finite double is a signed `mantissa / 2 ^ scale`, written
-- `finite negative mantissa scale`; `infinite negative` is an infinity of either sign.
pub data Number : Type 0 where
  nan : Number
  infinite : Bool → Number
  finite : Bool → ℕ → ℕ → Number

mutual
  pub data Json : Type 0 where
    null : Json
    bool : Bool → Json
    num : Number → Json
    str : Text → Json
    arr : Items → Json
    obj : Fields → Json

  pub data Items : Type 0 where
    nil : Items
    cons : Json → Items → Items

  pub data Fields : Type 0 where
    end : Fields
    field : String → Json → Fields → Fields

-- The elements of an array.
abbrev pub elems : Items → List Json
elems nil = []
elems (cons v vs) = v ∷ elems vs

-- A property of an object's own; `none` is `undefined`.
unfoldable pub get_field : String → Fields → Option Json
get_field k end = none
get_field k (field j v fs) = if j == k then some v else get_field k fs

-- `v[k]` for a key that no array, string, number or Boolean has; the access throws at `null`,
-- which each caller tests or treats by itself.
unfoldable pub prop : String → Json → Option Json
unfolding get_field
prop k (obj fs) = get_field k fs
prop k _ = none

-- `a ?? b`, with null and undefined passed over.
abbrev pub or_nullish : Option Json → Option Json → Option Json
or_nullish none b = b
or_nullish (some null) b = b
or_nullish (some v) b = some v

-- `typeof v === "string" && v.length > 0 ? v : undefined`
unfoldable pub as_string : Option Json → Option Text
as_string (some (str [])) = none
as_string (some (str (c ∷ s))) = some (c ∷ s)
as_string _ = none

-- `a ?? b` on strings that may be undefined.
abbrev pub or_else {ℓ} : {A : Type ℓ} → Option A → Option A → Option A
or_else none b = b
or_else (some a) b = some a

-- `a ?? d`
abbrev pub get_or {ℓ} : {A : Type ℓ} → Option A → A → A
get_or none d = d
get_or (some a) d = a

-- `n * 1000`, without the rounding of a double
abbrev pub times_thousand : Number → Number
times_thousand (finite negative m e) = finite negative (m * 1000) e
times_thousand n = n

-- `n > 1_000_000_000_000`
abbrev pub is_milliseconds : Number → Bool
is_milliseconds (infinite negative) = not negative
is_milliseconds (finite false m e) = ltb (1000000000000 * 2 ^ e) m
is_milliseconds n = false

abbrev pub is_finite : Number → Bool
is_finite (finite negative m e) = true
is_finite n = false

-- Whether a value is truthy.
abbrev pub is_truthy : Json → Bool
is_truthy null = false
is_truthy (bool b) = b
is_truthy (num nan) = false
is_truthy (num (finite negative zero e)) = false
is_truthy (str []) = false
is_truthy v = true

-- The properties of an object that have a value: those that `JSON.stringify` prints.
unfoldable pub without_undefined : List (String × Option Json) → Fields
without_undefined [] = end
without_undefined ((key, none) ∷ rest) = without_undefined rest
without_undefined ((key, some v) ∷ rest) = field key v (without_undefined rest)

-- A string as a property, where it is there.
abbrev pub str_property : Option Text → Option Json
str_property none = none
str_property (some s) = some (str s)
