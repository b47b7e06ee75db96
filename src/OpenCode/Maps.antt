-- ===== src/OpenCode/Maps.antt =====
-- The maps of the plugin: what a key holds after another has been set.
use agent_memory_manager.Base.{◌≡◌, ◌↔◌, refl, true, false, Option, some, none, arith}
use agent_memory_manager.Base.Text.{Text, text_eq_iff}
use agent_memory_manager.OpenCode.State.{Map, key_eq, map_set}

pub key_eq_iff : (j k : Option Text) → (key_eq j k ≡ true) ↔ (j ≡ k)
unfolding key_eq
key_eq_iff none none = ground arith
key_eq_iff none (some t) = ground arith
key_eq_iff (some s) none = ground arith
key_eq_iff (some s) (some t) = ground (arith, text_eq_iff s t)

pub key_eq_refl : (k : Option Text) → key_eq k k ≡ true
key_eq_refl k = (key_eq_iff k k).1 refl

pub map_set_self : {V : Type 0} (m : Map V) (k : Option Text) (v : V) → map_set m k v k ≡ some v
unfolding map_set
map_set_self m k v = ground (arith, key_eq_iff k k)

pub map_set-other :
    {V : Type 0} (m : Map V) (k j : Option Text) (v : V)
    → key_eq k j ≡ false
    → map_set m k v j ≡ m j
unfolding map_set
map_set-other m k j v h = rw h
