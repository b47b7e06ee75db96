-- ===== src/OpenClaw/Capture/Payload.antt =====
-- capture.ts: what the payload of a captured event says.
use text.Mathlib.Text.{◌==◌}
use agent_memory_manager.Base.{
  ◌≡◌, refl, ◌∙◌, String, Option, some, none, List, [], ◌∷◌, ◌++◌, arith, if◌then◌else◌,
}
use agent_memory_manager.Base.Text.{Text, txt}
use agent_memory_manager.Base.Json.{
  Json, str, obj, Fields, get_field, or_else, without_undefined, str_property,
}
use agent_memory_manager.OpenClaw.Config.{AmmConfig}
use agent_memory_manager.OpenClaw.Capture.{
  HookEvent, Kind, context_of, context_string, pick_tool_name, metadata_fields, metadata_of,
  capture_fields, capture_payload, kind_name,
}

-- A property of an object that is written as a list of properties, some of them undefined.
value_of : String → List (String × Option Json) → Option Json
value_of k [] = none
value_of k ((key, v) ∷ rest) = if key == k then or_else v (value_of k rest) else value_of k rest

get_field-without_undefined :
    (k : String) (fields : List (String × Option Json))
    → get_field k (without_undefined fields) ≡ value_of k fields
unfolding get_field without_undefined value_of
get_field-without_undefined k [] = refl
get_field-without_undefined k ((key, none) ∷ rest) =
    ground (arith, get_field-without_undefined k rest)
get_field-without_undefined k ((key, some v) ∷ rest) =
    ground (arith, get_field-without_undefined k rest)

-- What the payload says of an event that is recorded.
pub record Describes (config : AmmConfig) (event : HookEvent) (kind actor content at : Text)
    (sent : Fields) : Type 0 where
  pub kind_field : get_field "kind" sent ≡ some (str kind)
  pub source_field : get_field "source_system" sent ≡ some (str (txt "openclaw"))
  pub session_field :
      get_field "session_id" sent
      ≡ str_property
          (or_else event.session_key (context_string "conversationId" (context_of event)))
  pub project_field : get_field "project_id" sent ≡ some (str config.project_id)
  pub actor_field : get_field "actor_type" sent ≡ some (str actor)
  pub content_field : get_field "content" sent ≡ some (str content)
  pub time_field : get_field "occurred_at" sent ≡ some (str at)
  pub metadata : Fields
  pub metadata_field : get_field "metadata" sent ≡ some (obj metadata)
  pub hook_field :
      get_field "hook_event" metadata ≡ some (str (event.type ++ txt ":" ++ event.action))
  pub tool_field : get_field "tool_name" metadata ≡ str_property (pick_tool_name (context_of event))

or_else-none : (v : Option Json) → or_else v none ≡ v
or_else-none none = refl
or_else-none (some v) = refl

module _ (event : HookEvent) where
  metadata_hook :
      get_field "hook_event" (metadata_of event)
      ≡ some (str (event.type ++ txt ":" ++ event.action))
  unfolding metadata_of metadata_fields value_of
  metadata_hook = get_field-without_undefined "hook_event" (metadata_fields event)

  metadata_tool :
      get_field "tool_name" (metadata_of event) ≡ str_property (pick_tool_name (context_of event))
  unfolding metadata_of metadata_fields value_of
  metadata_tool = get_field-without_undefined "tool_name" (metadata_fields event) ∙ or_else-none _

module _ (config : AmmConfig) (event : HookEvent) (kind : Kind) (actor content at : Text) where
  pub payload-Describes :
      Describes config event
        (kind_name kind)
        actor
        content
        at
        (capture_payload config event kind actor content at)
  unfolding capture_payload capture_fields value_of
  payload-Describes = record {
    kind_field =
        get_field-without_undefined "kind" (capture_fields config event kind actor content at);
    source_field =
        get_field-without_undefined "source_system"
          (capture_fields config event kind actor content at);
    session_field =
        get_field-without_undefined "session_id" (capture_fields config event kind actor content at)
        ∙ or_else-none _;
    project_field =
        get_field-without_undefined "project_id"
          (capture_fields config event kind actor content at);
    actor_field =
        get_field-without_undefined "actor_type"
          (capture_fields config event kind actor content at);
    content_field =
        get_field-without_undefined "content" (capture_fields config event kind actor content at);
    time_field =
        get_field-without_undefined "occurred_at"
          (capture_fields config event kind actor content at);
    metadata = metadata_of event;
    metadata_field =
        get_field-without_undefined "metadata" (capture_fields config event kind actor content at);
    hook_field = metadata_hook event;
    tool_field = metadata_tool event;
  }
