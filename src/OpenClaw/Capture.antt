-- ===== src/OpenClaw/Capture.antt =====
-- examples/openclaw/src/capture.ts: which hook events are ingested, and with what content.
pub mod Outcome
pub mod Payload
pub mod Captured
pub mod Sent
use agent_memory_manager.Base.{
  ℕ, String, Bool, true, false, ◌&&◌, ◌||◌, Option, none, some, List, [], ◌∷◌, ◌++◌, if◌then◌else◌,
}
use agent_memory_manager.Base.Text.{Text, txt, text_eq, join}
use agent_memory_manager.Base.Json.{
  Json, null, bool, num, str, arr, obj, Fields, end, field, get_field, as_string, or_nullish,
  or_else, get_or, times_thousand, is_milliseconds, is_finite, without_undefined, str_property,
}
use agent_memory_manager.OpenClaw.Config.{AmmConfig}
use agent_memory_manager.Effects.{Env, M, pure, ◌>>=◌, ◌>>◌, string_text, iso_now}
use agent_memory_manager.OpenClaw.Transport.{ingest_event}

-- A timestamp: a `Date`, with its ISO text unless it is invalid, or a value. The values of a context
-- are those of JSON.
pub data Moment : Type 0 where
  date : Option Text → Moment
  value : Json → Moment

pub record HookEvent : Type 0 where
  pub type : Text
  pub action : Text
  pub session_key : Option Text
  pub timestamp : Option Moment
  pub context : Option Fields

-- `toText`
unfoldable pub to_text : Env → Option Json → Option Text
to_text env none = none
to_text env (some null) = some (txt "null")
to_text env (some (str [])) = some (env.stringify (str []))
to_text env (some (str (c ∷ s))) = some (c ∷ s)
to_text env (some (arr vs)) = some (env.stringify (arr vs))
to_text env (some (obj fs)) = some (env.stringify (obj fs))
to_text env (some v) = string_text env v

-- The tests of `toIsoTimestamp`; `none` is where it takes the present.
unfoldable pub iso_of : Env → Option Moment → Option Text
iso_of env (some (date iso)) = iso
iso_of env (some (value (num n))) =
    if is_finite n
    then env.iso_of_number (if is_milliseconds n then n else times_thousand n)
    else none
iso_of env (some (value (str s))) = env.iso_of_text s
iso_of env _ = none

abbrev pub iso_or_now : Env → Option Text → M Text
iso_or_now env none = iso_now env
iso_or_now env (some iso) = pure iso

unfoldable pub to_iso_timestamp : Env → Option Moment → M Text
unfolding iso_of
to_iso_timestamp env moment = iso_or_now env (iso_of env moment)

-- `asString(ctx[key])`
unfoldable pub context_string : String → Fields → Option Text
context_string key ctx = as_string (get_field key ctx)

unfoldable pub pick_inbound_content : Fields → Option Text
pick_inbound_content ctx = or_else (context_string "bodyForAgent" ctx) (
    or_else (context_string "transcript" ctx)
      (or_else (context_string "body" ctx) (context_string "content" ctx)))

unfoldable pub pick_outbound_content : Fields → Option Text
pick_outbound_content ctx = context_string "content" ctx

unfoldable pub pick_tool_name : Fields → Option Text
pick_tool_name ctx =
    or_else (context_string "name" ctx)
      (or_else (context_string "toolName" ctx) (context_string "functionName" ctx))

abbrev pub pick_tool_input : Fields → Option Json
pick_tool_input ctx =
    or_nullish (or_nullish (get_field "arguments" ctx) (get_field "args" ctx))
      (get_field "input" ctx)

abbrev pub pick_tool_output : Fields → Option Json
pick_tool_output ctx =
    or_nullish (or_nullish (get_field "output" ctx) (get_field "result" ctx))
      (get_field "content" ctx)

-- One line of the content of a tool call, where there is a value for it.
abbrev pub labelled : Text → Option Text → List Text
labelled label none = []
labelled label (some s) = (label ++ s) ∷ []

-- The lines of a tool call; `undefined` where there is none.
abbrev pub joined_lines : List Text → Option Text
joined_lines [] = none
joined_lines (line ∷ lines) = some (join (b'\n' ∷ []) (line ∷ lines))

unfoldable pub build_tool_call_content : Env → Fields → Option Text
build_tool_call_content env ctx = joined_lines (
    labelled (txt "name: ") (pick_tool_name ctx)
    ++ labelled (txt "arguments: ") (to_text env (pick_tool_input ctx)))

unfoldable pub build_tool_result_content : Env → Fields → Option Text
build_tool_result_content env ctx = to_text env (pick_tool_output ctx)

pub data Kind : Type 0 where
  message_user message_assistant tool_call tool_result : Kind

pub record EventClassification : Type 0 where
  pub kind : Kind
  pub actor_type : Text
  pub content : Option Text

abbrev pub kind_name : Kind → Text
kind_name message_user = txt "message_user"
kind_name message_assistant = txt "message_assistant"
kind_name tool_call = txt "tool_call"
kind_name tool_result = txt "tool_result"

-- `event.context ?? {}`
abbrev pub context_of : HookEvent → Fields
context_of event = get_or event.context end

-- `type === t && action === a`
abbrev pub is_hook : HookEvent → Text → Text → Bool
is_hook event t a = text_eq event.type t && text_eq event.action a

-- `(type === "tool" || type === "function") && action === a`
abbrev pub is_tool_hook : HookEvent → Text → Bool
is_tool_hook event a =
    (text_eq event.type (txt "tool") || text_eq event.type (txt "function"))
    && text_eq event.action a

unfoldable pub classify : Env → HookEvent → Option EventClassification
classify env event =
    let ctx = context_of event in
    if is_hook event (txt "message") (txt "preprocessed")
    then some (record {
      kind = message_user;
      actor_type = txt "user";
      content = pick_inbound_content ctx;
    })
    else if is_hook event (txt "message") (txt "sent")
    then some (record {
      kind = message_assistant;
      actor_type = txt "assistant";
      content = pick_outbound_content ctx;
    })
    else if is_tool_hook event (txt "called")
    then some (record {
      kind = tool_call;
      actor_type = txt "tool";
      content = build_tool_call_content env ctx;
    })
    else if is_tool_hook event (txt "completed")
    then some (record {
      kind = tool_result;
      actor_type = txt "tool";
      content = build_tool_result_content env ctx;
    })
    else none

-- `ctx["isGroup"] === true ? true : undefined`
abbrev is_group : Option Json → Option Json
is_group (some (bool true)) = some (bool true)
is_group v = none

-- The properties of `metadata`, the undefined ones among them.
unfoldable pub metadata_fields : HookEvent → List (String × Option Json)
metadata_fields event =
    let ctx = context_of event in
    let text = λ (key : String). str_property (context_string key ctx) in
    ("hook_event", some (str (event.type ++ txt ":" ++ event.action)))
    ∷ ("channel_id", text "channelId")
    ∷ ("conversation_id", text "conversationId")
    ∷ ("message_id", text "messageId")
    ∷ ("from", text "from")
    ∷ ("to", text "to")
    ∷ ("sender_id", text "senderId")
    ∷ ("sender_name", text "senderName")
    ∷ ("sender_username", text "senderUsername")
    ∷ ("provider", text "provider")
    ∷ ("surface", text "surface")
    ∷ ("group_id", text "groupId")
    ∷ ("is_group", is_group (get_field "isGroup" ctx))
    ∷ ("tool_name", str_property (pick_tool_name ctx))
    ∷ []

unfoldable pub metadata_of : HookEvent → Fields
unfolding without_undefined
metadata_of event = without_undefined (metadata_fields event)

-- `event.timestamp ?? ctx["timestamp"]`
abbrev pub moment_of : HookEvent → Option Moment
moment_of event =
    or_else event.timestamp
      (elim (get_field "timestamp" (context_of event)) [ none ↦ none | some v ↦ some (value v) ])

-- The properties of the payload of an event, the undefined ones among them.
unfoldable pub capture_fields :
    AmmConfig → HookEvent → Kind → Text → Text → Text → List (String × Option Json)
capture_fields config event kind actor_type content occurred_at =
    ("kind", some (str (kind_name kind)))
    ∷ ("source_system", some (str (txt "openclaw")))
    ∷ (
      "session_id",
      str_property (or_else event.session_key (context_string "conversationId" (context_of event))),
    )
    ∷ ("project_id", some (str config.project_id))
    ∷ ("actor_type", some (str actor_type))
    ∷ ("content", some (str content))
    ∷ ("metadata", some (obj (metadata_of event)))
    ∷ ("occurred_at", some (str occurred_at))
    ∷ []

-- The payload of an event. Its undefined properties are left out, as `JSON.stringify` does.
unfoldable pub capture_payload : AmmConfig → HookEvent → Kind → Text → Text → Text → Fields
unfolding capture_fields
capture_payload config event kind actor_type content occurred_at =
    without_undefined (capture_fields config event kind actor_type content occurred_at)

abbrev pub inbound_content : Kind → Text → Option Text
inbound_content message_user content = some content
inbound_content kind content = none

module _ (env : Env) (config : AmmConfig) (event : HookEvent) where
  -- `captureEvent` once the content is known
  unfoldable pub ingest_classified : Kind → Text → Option Text → M (Option Text)
  unfolding to_iso_timestamp
  ingest_classified kind actor_type none = pure none
  ingest_classified kind actor_type (some []) = pure none
  ingest_classified kind actor_type (some (c ∷ s)) = do
    occurred_at ← to_iso_timestamp env (moment_of event)
    ingest_event env config (capture_payload config event kind actor_type (c ∷ s) occurred_at)
    pure (inbound_content kind (c ∷ s))

  abbrev pub capture_classified : Option EventClassification → M (Option Text)
  capture_classified none = pure none
  capture_classified (some c) = ingest_classified c.kind c.actor_type c.content

  -- The result is `inboundContent`.
  unfoldable pub capture_event : M (Option Text)
  unfolding ingest_classified
  capture_event = capture_classified (classify env event)
