-- ===== src/OpenClaw/Tests/PluginWitnesses.antt =====
-- The theorems on capture, recall, the dual transport and the registered hooks, each at a concrete
-- input.
use agent_memory_manager.Base.{
  ◌≡◌, ◌≤◌, ◌↔◌, refl, true, false, none, some, List, [], ◌∷◌, ◌++◌, All, length,
}
use agent_memory_manager.Base.Text.{
  Text, txt, is_empty, text_eq, trim, drop_start, drop_end, is_space, all_units, join,
}
use agent_memory_manager.Base.Json.{
  Json, Items, str, arr, obj, nil, cons, end, field, Fields, elems, get_field, prop,
}
use agent_memory_manager.OpenClaw.Config.{default_recall_limit, AmmConfig}
use agent_memory_manager.Effects.{Env, done, string_text, refused}
use agent_memory_manager.OpenClaw.Transport
use agent_memory_manager.OpenClaw.Transport.{SearchOptions}
use agent_memory_manager.OpenClaw.DualTransport
use agent_memory_manager.OpenClaw.DualTransport.Modes.{dual_is_http}
use agent_memory_manager.OpenClaw.DualTransport.Local.{IsLocal, dual-IsLocal}
use agent_memory_manager.OpenClaw.Capture.{HookEvent, capture_event}
use agent_memory_manager.OpenClaw.Capture.Outcome.{user_text, unless_empty, capture_event_answer}
use agent_memory_manager.OpenClaw.Capture.Sent.{Capture, capture_event_sends}
use agent_memory_manager.OpenClaw.Recall.{
  header_lines, footer_lines, slice_count, all_lines, item_lines, format_score, extract_items,
  render_recall, ambient_recall,
}
use agent_memory_manager.OpenClaw.Recall.Render.{
  is_bare, looked_at, recall_request, render_recall_nothing, render_recall_block,
  ambient_recall_failed,
}
use agent_memory_manager.OpenClaw.Plugin.{
  PromptBuildEvent, extract_user_query, user_content, search_from, system_prompt_block,
  before_prompt_build, before_agent_start, agent_end,
}
use agent_memory_manager.OpenClaw.Plugin.{registered}
use agent_memory_manager.OpenClaw.Plugin.Registered.{basic_hooks, registered_boolean}
use agent_memory_manager.OpenClaw.Config.{resolve_config}
use agent_memory_manager.Base.Json.{bool, nan}
use agent_memory_manager.OpenClaw.Plugin.Query.{last_query, extract_user_query_last}
use agent_memory_manager.OpenClaw.Plugin.Turn.{
  IsSettled, turn_unchanged, prompt_request, before_prompt_build_failed,
}
use agent_memory_manager.OpenClaw.Tests.World.{env, config, calm, extended}

online : is_empty config.api_url ≡ false
unfolding txt
online = refl

abbrev local_config : AmmConfig
local_config = record config { api_url = [] }

abbrev two_messages : Items
two_messages =
    cons (obj (field "role" (str (txt "user")) (field "content" (str (txt " hi ")) end))) (
      cons (obj (field "role" (str (txt "assistant")) (field "content" (str (txt "yes")) end))) nil)

abbrev payload : Fields
payload = field "type" (str (txt "fact")) (field "body" (str (txt "b")) end)

abbrev options : SearchOptions
options = record {
  limit = some default_recall_limit;
  type = none;
  scope = some (txt "project");
  project_id = none;
}

dual_is_http_example :
    (DualTransport.ingest_event env config payload extended
      ≡ Transport.ingest_event env config payload extended)
    × (DualTransport.memory_search env config (txt "q") options extended
        ≡ Transport.memory_search env config (txt "q") options extended)
    × (DualTransport.memory_get env config (txt "m") extended
        ≡ Transport.memory_get env config (txt "m") extended)
    × (DualTransport.remember_memory env config payload extended
        ≡ Transport.remember_memory env config payload extended)
    × (DualTransport.update_memory env config (txt "m") payload extended
        ≡ Transport.update_memory env config (txt "m") payload extended)
    × (DualTransport.forget_memory env config (txt "m") extended
        ≡ Transport.forget_memory env config (txt "m") extended)
    × (DualTransport.recall env config (txt "q") (some (txt "s")) extended
        ≡ Transport.recall env config (txt "q") (some (txt "s")) extended)
dual_is_http_example =
    dual_is_http env config online payload payload (txt "q") (txt "m") options (some (txt "s"))
      extended

dual-IsLocal_example :
    IsLocal env local_config
      (txt "ingest")
      (some (env.stringify (obj payload)))
      extended
      (DualTransport.ingest_event env local_config payload extended)
    × IsLocal env local_config
        (txt "recall")
        none
        extended
        (DualTransport.memory_search env local_config (txt "q") options extended)
    × IsLocal env local_config
        (txt "get-memory")
        none
        extended
        (DualTransport.memory_get env local_config (txt "m") extended)
    × IsLocal env local_config
        (txt "remember")
        none
        extended
        (DualTransport.remember_memory env local_config payload extended)
    × IsLocal env local_config
        (txt "memory")
        none
        extended
        (DualTransport.update_memory env local_config (txt "m") payload extended)
    × IsLocal env local_config
        (txt "forget")
        none
        extended
        (DualTransport.forget_memory env local_config (txt "m") extended)
    × IsLocal env local_config
        (txt "recall")
        none
        extended
        (DualTransport.recall env local_config (txt "q") (some (txt "s")) extended)
dual-IsLocal_example =
    dual-IsLocal env local_config refl payload payload (txt "q") (txt "m") options (some (txt "s"))
      extended

abbrev inbound : HookEvent
inbound = record {
  type = txt "message";
  action = txt "preprocessed";
  session_key = some (txt "s");
  timestamp = none;
  context = some (field "body" (str (txt "hello")) end);
}

capture_event_answer_example :
    (capture_event env config inbound extended).0 ≡ done (unless_empty (user_text inbound))
capture_event_answer_example = capture_event_answer env config inbound extended

capture_event_sends_example :
    Capture env config inbound extended (capture_event env config inbound extended).1
capture_event_sends_example = capture_event_sends env config inbound extended online

abbrev items : List Json
items = obj (field "tight_description" (str (txt "d")) end) ∷ obj end ∷ []

abbrev found : Json
found = obj (
    field "data"
      (obj (
        field "items"
          (arr (cons (obj (field "tight_description" (str (txt "d")) end)) (cons (obj end) nil)))
          end))
      end)

found-items : extract_items found ≡ some items
unfolding extract_items prop get_field
found-items = refl

render_recall_nothing_example :
    (render_recall env found default_recall_limit ≡ some none)
    ↔ All (λ item. is_bare item ≡ true) (looked_at env found default_recall_limit items)
render_recall_nothing_example =
    render_recall_nothing env found default_recall_limit items found-items

abbrev line : Text
line = txt "  - [item] d (score: 0.50)"

abbrev block : Text
block = join (b'\n' ∷ []) (header_lines ++ (line ∷ footer_lines))

rendered_block : render_recall env found default_recall_limit ≡ some (some block)
unfolding render_recall extract_items all_lines item_lines format_score string_text prop get_field
    txt
rendered_block = refl

render_recall_block_example :
    (lines : List Text) × (block ≡ join (b'\n' ∷ []) (header_lines ++ (lines ++ footer_lines)))
    × (all_lines env (looked_at env found default_recall_limit items) ≡ some lines)
    × (1 ≤ length lines)
    × (length lines ≤ slice_count default_recall_limit (length items))
render_recall_block_example =
    render_recall_block env found default_recall_limit items block found-items rendered_block

abbrev failing : Env
failing = record env { reply = λ n req. refused }

spoken : is_empty (trim (txt "q")) ≡ false
unfolding txt trim drop_start drop_end is_space all_units
spoken = refl

ambient_recall_failed_example :
    ((ambient_recall failing config (txt "q") (some (txt "s")) extended).0 ≡ done none)
    × ((ambient_recall failing config (txt "q") (some (txt "s")) extended).1.sent
        ≡ [] ++ recall_request failing config (txt "q") (some (txt "s")) extended ∷ [])
ambient_recall_failed_example =
    ambient_recall_failed failing config (txt "q") (some (txt "s")) extended online spoken refl

extract_user_query_last_example :
    extract_user_query (record { messages = some (arr two_messages); session_key = none })
    ≡ last_query (elems two_messages)
extract_user_query_last_example = extract_user_query_last two_messages none

abbrev prompt : PromptBuildEvent
prompt = record { messages = some (arr two_messages); session_key = some (txt "s") }

asked : is_empty (extract_user_query prompt) ≡ false
unfolding extract_user_query search_from user_content prop get_field trim drop_start drop_end
    is_space all_units txt text_eq
asked = refl

before_prompt_build_failed_example :
    ((before_prompt_build failing config prompt extended).0
      ≡ done
          (some (txt "<amm-context>\n" ++ (system_prompt_block config ++ txt "\n</amm-context>"))))
    × ((before_prompt_build failing config prompt extended).1.sent
        ≡ [] ++ prompt_request failing config prompt extended ∷ [])
before_prompt_build_failed_example =
    before_prompt_build_failed failing config prompt extended online asked refl

turn_unchanged_example :
    ((before_agent_start env config extended).0 ≡ done tt)
    × ((agent_end env config (before_agent_start env config extended).1).0 ≡ done tt)
    × IsSettled env extended (agent_end env config (before_agent_start env config extended).1).1
turn_unchanged_example = turn_unchanged env config calm extended

-- The mirroring is switched on, as the schema of the configuration says.
abbrev switched_on : Fields
switched_on = field "syncCuratedMemory" (bool true) end

set_boolean : get_field "syncCuratedMemory" switched_on ≡ some (bool true)
unfolding get_field
set_boolean = refl

registered_boolean_example :
    registered (resolve_config (λ v. nan) (λ name. none) switched_on) ≡ basic_hooks
registered_boolean_example =
    registered_boolean (λ v. nan) (λ name. none) switched_on true set_boolean refl
