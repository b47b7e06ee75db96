-- ===== src/OpenCode/Steps.antt =====
-- The ways in which one call of a hook changes the state.
use agent_memory_manager.Base.{
  ℕ, ◌≡◌, ◌⊎◌, refl, Bool, true, false, ◌&&◌, ◌||◌, not, Option, some, none, ◌∷◌, if◌then◌else◌,
  Bool-cases, Option-cases, inl, inr,
}
use mathlib.Core.Option
use agent_memory_manager.Base.Text.{Text, txt, text_eq, is_empty}
use agent_memory_manager.Base.Json.{Json, get_or, prop}
use agent_memory_manager.OpenCode.Message.{
  Builtins, Event, extract_message_role, extract_message_text, extract_message_payload,
  is_message_final, string_of,
}
use agent_memory_manager.OpenCode.State.{
  State, Ingest, Map, HookCall, tool_before, tool_after, bus_event, unknown, session_of, seen,
  map_set, ingest_event, object_like, nested,
}
use agent_memory_manager.OpenCode.Hooks.{
  version_key, version, message_ingest, emit_message, on_payload, on_message, on_session_created,
  on_idle, on_event, on_tool_before, on_tool_after, call,
}

abbrev pub is_idle : Text → Bool
is_idle kind = text_eq kind (txt "session_idle")

-- The kinds that count as activity.
abbrev pub is_active : Text → Bool
is_active kind =
    text_eq kind (txt "tool_call")
    || text_eq kind (txt "message_user")
    || text_eq kind (txt "message_assistant")

-- The key under which the activity of an event is remembered: its session, or "unknown".
abbrev pub IsActivityKey : Option Text → Option Text → Type 0
IsActivityKey k session = (k ≡ session) ⊎ (k ≡ some unknown)

pub data Change (js : Builtins) (project_id : Text) (now : ℕ) (s t : State) : Type 0 where
  unchanged : t ≡ s → Change js project_id now s t
  active :
      (k : Option Text) (i : Ingest) (emitted : Map Text)
      → is_active i.kind ≡ true
      → is_idle i.kind ≡ false
      → IsActivityKey k i.session_id
      → t ≡ record {
        emitted = emitted;
        last_idle = s.last_idle;
        activity = map_set s.activity k true;
        ingested = (now, i) ∷ s.ingested;
      }
      → Change js project_id now s t
  passive :
      (i : Ingest)
      → is_active i.kind ≡ false
      → is_idle i.kind ≡ false
      → t ≡ ingest_event now i s
      → Change js project_id now s t
  idle :
      (event : Event) (k : Option Text)
      → t ≡ on_idle js project_id now event k s
      → Change js project_id now s t

message_kind : Bool → Text
message_kind b = if b then txt "message_user" else txt "message_assistant"

message_kind-active :
    (b : Bool)
    → (is_active (if b then txt "message_user" else txt "message_assistant") ≡ true)
      × (is_idle (if b then txt "message_user" else txt "message_assistant") ≡ false)
unfolding txt text_eq
message_kind-active true = (refl, refl)
message_kind-active false = (refl, refl)

tool_kinds :
    (is_active (txt "tool_call") ≡ true)
    × (is_idle (txt "tool_call") ≡ false)
    × (is_active (txt "tool_result") ≡ false)
    × (is_idle (txt "tool_result") ≡ false)
    × (is_active (txt "session_start") ≡ false)
    × (is_idle (txt "session_start") ≡ false)
unfolding txt text_eq
tool_kinds = (refl, refl, refl, refl, refl, refl)

activity_key : (session : Option Text) → IsActivityKey (some (get_or session unknown)) session
activity_key none = inr refl
activity_key (some s) = inl refl

module _ (js : Builtins) (project_id : Text) (now : ℕ) where
  emit_message-Change :
      (event : Event) (message : Json) (role content : Text) (s : State)
      → Change js project_id now s (emit_message js project_id now event message role content s)
  unfolding emit_message ingest_event message_ingest
  emit_message-Change event message role content s =
      let key = some (version_key js project_id event message role) in
      let kinds = message_kind-active (text_eq role (txt "user")) in
      elim (Bool-cases (seen (s.emitted key) (version js project_id content))) [
        | inl old ↦ unchanged (rw old)
        | inr new ↦
            active (some (get_or (session_of event) unknown))
              (message_ingest js project_id now event message role content)
              (map_set s.emitted key (version js project_id content)) kinds.0 kinds.1
              (activity_key (session_of event)) (rw new)
      ]

  on_payload-Change :
      (event : Event) (payload : Option Json) (s : State)
      → Change js project_id now s (on_payload js project_id now event payload s)
  unfolding on_message
  on_payload-Change event none s = unchanged refl
  on_payload-Change event (some message) s = elim (Option-cases (extract_message_role message)) [
    | inl e ↦ rw e (unchanged refl)
    | inr (role, e) ↦
        let content = extract_message_text message in
        elim (Bool-cases (
          (text_eq role (txt "user") || text_eq role (txt "assistant"))
          && (not (is_empty content) && is_message_final message event.type))) [
            | inl h ↦ rw (e, h) (emit_message-Change event message role content s)
            | inr h ↦ rw (e, h) (unchanged refl)
          ]
  ]

  -- A hook that ends, or the state that one that throws leaves.
  created-Change :
      (event : Event) (properties : Option Json) (s : State)
      → Change js project_id now s
          (get_or (on_session_created js project_id now event properties s) s)
  unfolding on_session_created
  created-Change event properties s = elim (Option-cases (object_like (nested "info" properties))) [
    | inl e ↦ rw e (unchanged refl)
    | inr (info, e) ↦ elim (Option-cases (object_like (prop "time" info))) [
      | inl f ↦ rw (e, f) (unchanged refl)
      | inr (time, f) ↦ rw (e, f) (passive _ tool_kinds.4 tool_kinds.5 refl)
    ]
  ]

  idle-Change :
      (event : Event) (properties : Option Json) (s : State)
      → Change js project_id now s (
          get_or
            (Option.map
              (λ p. on_idle js project_id now event (string_of (prop "sessionID" p)) s)
              (object_like properties))
            s)
  idle-Change event properties s = elim (Option-cases (object_like properties)) [
    | inl e ↦ rw e (unchanged refl)
    | inr (p, e) ↦ rw e (idle event (string_of (prop "sessionID" p)) refl)
  ]

  on_event-Change :
      (event : Event) (s : State)
      → Change js project_id now s (get_or (on_event js project_id now event s) s)
  unfolding on_event
  on_event-Change event s =
      let t = event.type in
      elim (Bool-cases (text_eq t (txt "message.created") || text_eq t (txt "message.updated"))) [
        | inl h ↦ rw h (on_payload-Change event (extract_message_payload event) s)
        | inr h ↦ elim (Bool-cases (text_eq t (txt "session.created"))) [
          | inl k ↦ rw (h, k) (created-Change event event.properties s)
          | inr k ↦ elim (Bool-cases (text_eq t (txt "session.idle"))) [
            | inl l ↦ rw (h, k, l) (idle-Change event event.properties s)
            | inr l ↦ rw (h, k, l) (unchanged refl)
          ]
        ]
      ]

  -- Every call of a hook is one of the four changes.
  pub call-Change :
      (c : HookCall) (s : State) → Change js project_id now s (call js project_id now c s)
  unfolding call on_tool_before on_tool_after ingest_event
  call-Change (tool_before input) s =
      active input.session_id _ s.emitted tool_kinds.0 tool_kinds.1 (inl refl) refl
  call-Change (tool_after input output) s = passive _ tool_kinds.2 tool_kinds.3 refl
  call-Change (bus_event event) s = on_event-Change event s
