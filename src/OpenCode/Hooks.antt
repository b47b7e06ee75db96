-- ===== src/OpenCode/Hooks.antt =====
-- amm.js, the hooks: what each ingests, and what it does to the three maps.
use agent_memory_manager.Base.{
  ℕ, ◌+◌, Bool, true, false, not, ◌&&◌, ◌||◌, Option, some, none, List, [], ◌∷◌, ◌++◌, ltb, length,
  if◌then◌else◌,
}
use mathlib.Core.Option
use agent_memory_manager.Base.Text.{Text, txt, is_empty, text_eq}
use agent_memory_manager.Base.Json.{Json, num, finite, str, prop, or_nullish, get_or}
use agent_memory_manager.OpenCode.Message.{
  Builtins, Event, now_rfc3339, stringify_value, stringify_record, extract_message_payload,
  extract_message_role, extract_message_text, extract_message_id, extract_message_timestamp,
  is_message_final, string_of,
}
use agent_memory_manager.OpenCode.State.{
  Ingest, map_set, State, ingest_event, idle_throttle_ms, ToolInput, ToolOutput, HookCall,
  tool_before, tool_after, bus_event, unknown, session_of, time_value, seen, object_like, nested,
  ◌>>=◌,
}

module _ (js : Builtins) (project_id : Text) where
  abbrev length_text : Text → Text
  length_text s = js.to_text (num (finite false (length s) 0))

  -- `${sessionID ?? "unknown"}:${messageID}:${role}`
  unfoldable pub version_key : Event → Json → Text → Text
  version_key event message role =
      get_or (session_of event) unknown
      ++ (txt ":" ++ (get_or (extract_message_id message) unknown ++ (txt ":" ++ role)))

  -- `${content.length}:${content}`
  unfoldable pub version : Text → Text
  version content = length_text content ++ (txt ":" ++ content)

  -- `${v}`
  abbrev template_text : Option Json → Text
  template_text none = txt "undefined"
  template_text (some v) = js.to_text v

  -- `nowRfc3339(v)`, whose default is the present
  abbrev created_at : ℕ → Option Json → Text
  created_at now v = now_rfc3339 js now (get_or v (time_value now))

  abbrev is_user : Text → Bool
  is_user role = text_eq role (txt "user")

  unfoldable pub message_ingest : ℕ → Event → Json → Text → Text → Ingest
  message_ingest now event message role content = record {
    kind = if is_user role then txt "message_user" else txt "message_assistant";
    session_id = session_of event;
    project_id = project_id;
    actor_type = some role;
    content = some (str content);
    metadata = stringify_record js (
        ("hook_event", some (str event.type))
        ∷ (
          "message_id",
          elim (extract_message_id message) [ none ↦ none | some id ↦ some (str id) ],
        )
        ∷ ("status", prop "status" message)
        ∷ []);
    occurred_at =
        now_rfc3339 js now
          (get_or (or_nullish (extract_message_timestamp message) none) (time_value now));
  }

  -- A message whose role and text are known and that is final: ingested, unless this version of it
  -- has been already.
  unfoldable pub emit_message : ℕ → Event → Json → Text → Text → State → State
  unfolding version_key version map_set ingest_event
  emit_message now event message role content s =
      let key = some (version_key event message role) in
      if seen (s.emitted key) (version content)
      then s
      else ingest_event now (message_ingest now event message role content) (record s {
        emitted = map_set s.emitted key (version content);
        activity = map_set s.activity (some (get_or (session_of event) unknown)) true;
      })

  -- A message whose role has been looked for.
  abbrev pub on_role : ℕ → Event → Json → Option Text → State → State
  on_role now event message none s = s
  on_role now event message (some role) s =
      let content = extract_message_text message in
      if (text_eq role (txt "user") || text_eq role (txt "assistant"))
        && (not (is_empty content) && is_message_final message event.type)
      then emit_message now event message role content s
      else s

  -- The part of the `event` hook for messages, once the payload is found.
  unfoldable pub on_message : ℕ → Event → Json → State → State
  on_message now event message s = on_role now event message (extract_message_role message) s

  abbrev pub on_payload : ℕ → Event → Option Json → State → State
  on_payload now event none s = s
  on_payload now event (some message) s = on_message now event message s

  -- `none` is the error of a property that is missing; nothing has changed by then.
  unfoldable pub on_session_created : ℕ → Event → Option Json → State → Option State
  unfolding ingest_event
  on_session_created now event properties s = do
    info ← object_like (nested "info" properties)
    time ← object_like (prop "time" info)
    some (
        ingest_event now
          (record {
            kind = txt "session_start";
            session_id = string_of (prop "id" info);
            project_id = project_id;
            actor_type = none;
            content =
                some (
                  str
                    (txt "OpenCode session created in " ++ template_text (prop "directory" info)));
            metadata = stringify_record js (
                ("hook_event", some (str event.type))
                ∷ ("directory", prop "directory" info)
                ∷ ("project_ref", prop "projectID" info)
                ∷ []);
            occurred_at = created_at now (prop "created" time);
          })
          s)

  -- the `session_idle` event
  abbrev idle_ingest : ℕ → Event → Option Text → Ingest
  idle_ingest now event key = record {
    kind = txt "session_idle";
    session_id = key;
    project_id = project_id;
    actor_type = none;
    content = some (str (txt "OpenCode session became idle."));
    metadata = stringify_record js (("hook_event", some (str event.type)) ∷ []);
    occurred_at = now_rfc3339 js now (time_value now);
  }

  -- `session.idle` for a session, at `now`: at most once in `idle_throttle_ms`, and ingested only
  -- if there was activity since the last one that was.
  unfoldable pub on_idle : ℕ → Event → Option Text → State → State
  unfolding map_set ingest_event
  on_idle now event key s =
      if ltb now (get_or (s.last_idle key) 0 + idle_throttle_ms)
      then s
      else if not (get_or (s.activity key) false)
      then record s { last_idle = map_set s.last_idle key now }
      else ingest_event now (idle_ingest now event key) (record s {
        last_idle = map_set s.last_idle key now;
        activity = map_set s.activity key false;
      })

  -- The `event` hook; an event has one type, so one of the three parts applies.
  unfoldable pub on_event : ℕ → Event → State → Option State
  unfolding on_message on_session_created on_idle
  on_event now event s =
      if text_eq event.type (txt "message.created") || text_eq event.type (txt "message.updated")
      then some (on_payload now event (extract_message_payload event) s)
      else if text_eq event.type (txt "session.created")
      then on_session_created now event event.properties s
      else if text_eq event.type (txt "session.idle")
      then Option.map (λ p. on_idle now event (string_of (prop "sessionID" p)) s)
          (object_like event.properties)
      else some s

  unfoldable pub on_tool_before : ℕ → ToolInput → State → State
  unfolding map_set ingest_event
  on_tool_before now input s =
      ingest_event now
        (record {
          kind = txt "tool_call";
          session_id = input.session_id;
          project_id = project_id;
          actor_type = some (txt "tool");
          content = some (str (get_or (stringify_value js input.args) []));
          metadata = stringify_record js (
              ("hook_event", some (str (txt "tool.execute.before")))
              ∷ ("tool_name", input.tool)
              ∷ ("call_id", input.call_id)
              ∷ ("tool_input", input.args)
              ∷ []);
          occurred_at = now_rfc3339 js now (time_value now);
        })
        (record s { activity = map_set s.activity input.session_id true })

  unfoldable pub on_tool_after : ℕ → ToolInput → ToolOutput → State → State
  unfolding ingest_event
  on_tool_after now input output s =
      ingest_event now
        (record {
          kind = txt "tool_result";
          session_id = input.session_id;
          project_id = project_id;
          actor_type = some (txt "tool");
          content = output.output;
          metadata = stringify_record js (
              ("hook_event", some (str (txt "tool.execute.after")))
              ∷ ("tool_name", input.tool)
              ∷ ("call_id", input.call_id)
              ∷ ("tool_input", input.args)
              ∷ ("title", output.title)
              ∷ ("tool_metadata", output.metadata)
              ∷ []);
          occurred_at = now_rfc3339 js now (time_value now);
        })
        s

  -- A call of a hook; one that throws leaves the state as it is.
  unfoldable pub call : ℕ → HookCall → State → State
  unfolding on_event on_tool_before on_tool_after
  call now (tool_before input) s = on_tool_before now input s
  call now (tool_after input output) s = on_tool_after now input output s
  call now (bus_event event) s = get_or (on_event now event s) s

  -- The calls of a session of the plugin, in order, with their times.
  unfoldable pub run : List (ℕ × HookCall) → State → State
  unfolding call
  run [] s = s
  run ((now, c) ∷ calls) s = run calls (call now c s)

abbrev pub init : State
init = record { emitted = λ k. none; last_idle = λ k. none; activity = λ k. none; ingested = [] }
