-- ===== src/OpenCode/State.antt =====
-- amm.js: the three maps that the hooks share, what a hook is called with, and what it ingests.
use agent_memory_manager.Base.{
  ℕ, String, Bool, true, false, Option, some, none, List, ◌∷◌, if◌then◌else◌,
}
use agent_memory_manager.Base.Text.{Text, txt, text_eq}
use agent_memory_manager.Base.Json.{Json, null, num, finite, prop}
use agent_memory_manager.OpenCode.Message.{Event, string_of}

-- The event that `ingestEvent` prints for `amm ingest event`; its `source_system` is "opencode".
pub record Ingest : Type 0 where
  pub kind : Text
  pub session_id : Option Text
  pub project_id : Text
  pub actor_type : Option Text
  pub content : Option Json
  pub metadata : List (String × Text)
  pub occurred_at : Text

-- `Map`, whose keys are strings or `undefined`.
abbrev pub Map : Type 0 → Type 0
Map V = Option Text → Option V

unfoldable pub key_eq : Option Text → Option Text → Bool
key_eq none none = true
key_eq (some s) (some t) = text_eq s t
key_eq _ _ = false

unfoldable pub map_set : {V : Type 0} → Map V → Option Text → V → Map V
map_set m key v k = if key_eq key k then some v else m k

-- The maps of the module, and the events ingested so far with the times of the calls, newest first.
pub record State : Type 0 where
  pub emitted : Map Text
  pub last_idle : Map ℕ
  pub activity : Map Bool
  pub ingested : List (ℕ × Ingest)

unfoldable pub ingest_event : ℕ → Ingest → State → State
ingest_event now event s = record s { ingested = (now, event) ∷ s.ingested }

abbrev pub idle_throttle_ms : ℕ
idle_throttle_ms = 60000

-- The arguments of the two tool hooks. Session ids are strings where they are there.
pub record ToolInput : Type 0 where
  pub session_id : Option Text
  pub tool : Option Json
  pub call_id : Option Json
  pub args : Option Json

pub record ToolOutput : Type 0 where
  pub output : Option Json
  pub title : Option Json
  pub metadata : Option Json

pub data HookCall : Type 0 where
  tool_before : ToolInput → HookCall
  tool_after : ToolInput → ToolOutput → HookCall
  bus_event : Event → HookCall

abbrev pub unknown : Text
unknown = txt "unknown"

-- `event.properties?.sessionID`
abbrev pub session_of : Event → Option Text
session_of event = elim event.properties [ none ↦ none | some p ↦ string_of (prop "sessionID" p) ]

-- `Date.now()` as a value
abbrev pub time_value : ℕ → Json
time_value now = num (finite false now 0)

-- `m.get(key) === version`
abbrev pub seen : Option Text → Text → Bool
seen none v = false
seen (some u) v = text_eq u v

-- A value whose properties can be read: neither undefined nor null.
abbrev pub object_like : Option Json → Option Json
object_like none = none
object_like (some null) = none
object_like (some v) = some v

abbrev pub nested : String → Option Json → Option Json
nested key none = none
nested key (some v) = prop key v

infixl 5 ◌>>=◌
abbrev pub ◌>>=◌ : {A B : Type 0} → Option A → (A → Option B) → Option B
none >>= f = none
some a >>= f = f a
