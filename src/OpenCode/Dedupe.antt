-- ===== src/OpenCode/Dedupe.antt =====
-- A message is ingested once in each of its versions.
use agent_memory_manager.Base.{
  ℕ, ◌≡◌, refl, Bool, true, ◌&&◌, ◌||◌, not, Option, some, none, Bool-cases, inl, inr,
}
use agent_memory_manager.Base.Text.{Text, txt, is_empty, text_eq, text_eq_refl}
use agent_memory_manager.Base.Json.{Json}
use agent_memory_manager.OpenCode.Message.{
  Builtins, Event, extract_message_role, extract_message_text, is_message_final, is_message_event,
  extract_message_payload,
}
use agent_memory_manager.OpenCode.State.{State, seen, ingest_event, bus_event}
use agent_memory_manager.OpenCode.Hooks.{
  version_key, version, emit_message, on_role, on_payload, on_message, on_event, call,
}
use agent_memory_manager.OpenCode.Maps.{map_set_self}

-- the condition of the source before a message is emitted
abbrev ready : Text → Text → Event → Json → Bool
ready role content event message =
    (text_eq role (txt "user") || text_eq role (txt "assistant"))
    && (not (is_empty content) && is_message_final message event.type)

module _ (js : Builtins) (project_id : Text) where
  -- Once a version has been emitted, emitting it again does nothing.
  emit_message_twice :
      (now later : ℕ) (event : Event) (message : Json) (role content : Text) (s : State)
      → emit_message js project_id later event message role content
          (emit_message js project_id now event message role content s)
        ≡ emit_message js project_id now event message role content s
  unfolding emit_message
  emit_message_twice now later event message role content s =
      let key = some (version_key js project_id event message role) in
      elim (Bool-cases (seen (s.emitted key) (version js project_id content))) [
        | inl old ↦ rw (old, old)
        | inr new ↦ rw new (
            unfold ingest_event in
            rw (
              map_set_self s.emitted key (version js project_id content),
              text_eq_refl (version js project_id content),
            ))
      ]

  on_role_twice :
      (now later : ℕ) (event : Event) (message : Json) (role : Option Text) (s : State)
      → on_role js project_id later event message role
          (on_role js project_id now event message role s)
        ≡ on_role js project_id now event message role s
  on_role_twice now later event message none s = refl
  on_role_twice now later event message (some role) s =
      let content = extract_message_text message in
      elim (Bool-cases (ready role content event message)) [
        | inl h ↦ rw h (emit_message_twice now later event message role content s)
        | inr h ↦ rw h
      ]

  on_payload_twice :
      (now later : ℕ) (event : Event) (payload : Option Json) (s : State)
      → on_payload js project_id later event payload (on_payload js project_id now event payload s)
        ≡ on_payload js project_id now event payload s
  unfolding on_message
  on_payload_twice now later event none s = refl
  on_payload_twice now later event (some message) s =
      on_role_twice now later event message (extract_message_role message) s

  -- The state after a message event has been handled once is the state after it has been handled
  -- again, at any later time: no version of a message is ingested twice in a row.
  pub call_message_twice :
      (now later : ℕ) (event : Event) (s : State)
      → is_message_event event.type ≡ true
      → call js project_id later (bus_event event) (call js project_id now (bus_event event) s)
        ≡ call js project_id now (bus_event event) s
  unfolding call on_event
  call_message_twice now later event s h =
      rw h (on_payload_twice now later event (extract_message_payload event) s)
