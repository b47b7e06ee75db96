-- ===== src/OpenCode/HttpPlugin.antt =====
-- examples/api-mode/opencode/amm-http-plugin.ts: the requests of its two hooks.
pub mod Session
use agent_memory_manager.Base.{
  ℕ, String, Bool, true, false, Option, none, some, List, [], ◌∷◌, ◌++◌, if◌then◌else◌,
}
use agent_memory_manager.Base.Text.{Text, txt, is_empty, text_eq}
use agent_memory_manager.Base.Json.{
  Json, null, num, finite, str, obj, Fields, end, field, get_field, prop, get_or, without_undefined,
}
use agent_memory_manager.Effects.{
  Env, Request, M, pure, throw, or_throw, ◌>>=◌, ◌>>◌, try_catch, fetch,
}

pub record Config : Type 0 where
  pub api_url : Text
  pub api_key : Text
  pub project_id : Text

-- `value || fallback`
abbrev or_default : Option Text → Text → Text
or_default none fallback = fallback
or_default (some value) fallback = if is_empty value then fallback else value

unfoldable pub config_of : (String → Option Text) → Config
config_of environ = record {
  api_url = or_default (environ "AMM_API_URL") (txt "http://localhost:8080");
  api_key = or_default (environ "AMM_API_KEY") [];
  project_id = or_default (environ "AMM_PROJECT_ID") (txt "default");
}

unfoldable pub headers : Config → List (String × Text)
headers config =
    ("Content-Type", txt "application/json")
    ∷ (if is_empty config.api_key
        then []
        else ("Authorization", txt "Bearer " ++ config.api_key) ∷ [])

-- A POST without a timer.
unfoldable pub post : Env → Config → Text → Fields → Request
unfolding headers
post env config path payload = record {
  method = "POST";
  url = config.api_url ++ path;
  headers = headers config;
  body = some (env.stringify (obj payload));
  timeout_ms = none;
}

-- `cwd` is `process.cwd()`.
unfoldable pub start_payload : Config → Text → Fields
start_payload config cwd = field "kind" (str (txt "session_start")) (
    field "source_system" (str (txt "opencode")) (
      field "project_id" (str config.project_id) (
        field "content" (str (txt "OpenCode session started for project " ++ config.project_id)) (
          field "metadata"
            (obj (field "hook_event" (str (txt "session_start")) (field "cwd" (str cwd) end)))
            end))))

unfoldable pub ambient_payload : Config → Fields
ambient_payload config =
    field "query" (str (txt "Ambient context for project " ++ config.project_id)) (
      field "opts"
        (obj (field "mode" (str (txt "ambient")) (field "limit" (num (finite false 20 0)) end)))
        end)

-- `message.role === "user"`
abbrev is_user : Option Json → Bool
is_user (some (str role)) = text_eq role (txt "user")
is_user v = false

-- The payload of a message, whose undefined content is not printed.
unfoldable pub message_payload : Config → Text → Json → Fields
unfolding without_undefined
message_payload config cwd message =
    let user = is_user (prop "role" message) in
    without_undefined (
      ("kind", some (str (if user then txt "message_user" else txt "message_assistant")))
      ∷ ("source_system", some (str (txt "opencode")))
      ∷ ("content", prop "content" message)
      ∷ ("project_id", some (str config.project_id))
      ∷ (
        "metadata",
        some (
            obj (
              field "hook_event" (str (if user then txt "UserMessage" else txt "AssistantResponse"))
                (field "cwd" (str cwd) end))),
      )
      ∷ [])

-- `v.data`, where `none` is the throw of `null`.
abbrev data_of : Json → Option (Option Json)
data_of null = none
data_of v = some (prop "data" v)

module _ (env : Env) (config : Config) (cwd : Text) where
  -- The result is the value that the context gets as `amm_recall`.
  unfoldable pub on_session_start : M (Option Json)
  unfolding post
  on_session_start = do
    try_catch
        (do _ ← fetch env (post env config (txt "/v1/events") (start_payload config cwd)); pure tt)
        (pure tt)
    response ← fetch env (post env config (txt "/v1/recall") (ambient_payload config))
    text ← or_throw response.1
    body ← or_throw (env.parse text)
    or_throw (data_of body)

  -- `message` is an object or another value; a property of `null` throws.
  unfoldable pub on_message : Json → M (Unit {0})
  unfolding post
  on_message null = throw
  on_message message = do
    _ ← fetch env (post env config (txt "/v1/events") (message_payload config cwd message))
    pure tt
