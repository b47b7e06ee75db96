-- ===== src/OpenClaw/Transport.antt =====
-- examples/openclaw/src/transport-http.ts: the requests to the HTTP API.
pub mod Requests
use agent_memory_manager.Base.{
  ℕ, String, Bool, true, false, Option, none, some, List, [], ◌∷◌, ◌++◌, if◌then◌else◌,
}
use agent_memory_manager.Base.Text.{Text, txt, is_empty}
use agent_memory_manager.Base.Json.{Json, num, str, obj, Fields, end, field, Number, get_or}
use agent_memory_manager.OpenClaw.Config.{AmmConfig}
use agent_memory_manager.Effects.{
  Env, Request, M, pure, or_throw, ◌>>=◌, ◌>>◌, try_catch, warn, fetch, with_timer,
}

unfoldable pub http_headers : AmmConfig → List (String × Text)
http_headers config =
    ("Content-Type", txt "application/json")
    ∷ (if is_empty config.api_key
        then []
        else ("Authorization", txt "Bearer " ++ config.api_key) ∷ [])

abbrev pub request : AmmConfig → String → Text → Option Text → ℕ → Request
request config method url body timeout_ms = record {
  method = method;
  url = url;
  headers = http_headers config;
  body = body;
  timeout_ms = some timeout_ms;
}

-- `{}`
abbrev pub empty_object : Json
empty_object = obj end

-- The payload of an ambient recall.
unfoldable pub recall_payload : AmmConfig → Text → Option Text → Fields
recall_payload config query session_id = field "query" (str query) (
    field "opts"
      (obj (
        field "mode" (str (txt "ambient")) (
          field "limit" (num config.recall_limit) (
            field "session_id" (str (get_or session_id []))
              (field "project_id" (str config.project_id) end)))))
      end)

module _ (env : Env) where
  -- `if (!response.ok) return {}; const text = …; return text ? JSON.parse(text) : {}`
  unfoldable pub read_reply : Bool × Option Text → M Json
  read_reply (false, text) = pure empty_object
  read_reply (true, text) = do
    t ← or_throw text
    if is_empty t then pure empty_object else or_throw (env.parse t)

  -- The timed request that `postJson` and `getJson` share; every failure is `{}`.
  unfoldable pub exchange : Request → M Json
  unfolding read_reply
  exchange req = with_timer (try_catch (fetch env req >>= read_reply) (pure empty_object))

  unfoldable pub post_json : AmmConfig → Text → Fields → ℕ → M Json
  unfolding exchange
  post_json config path payload timeout_ms =
      if is_empty config.api_url
      then (do warn; pure empty_object)
      else exchange (
          request config "POST" (config.api_url ++ path) (some (env.stringify (obj payload)))
            timeout_ms)

  unfoldable pub get_json : AmmConfig → Text → ℕ → M Json
  unfolding exchange
  get_json config path timeout_ms =
      if is_empty config.api_url
      then pure empty_object
      else exchange (request config "GET" (config.api_url ++ path) none timeout_ms)

  unfoldable pub ingest_event : AmmConfig → Fields → M (Unit {0})
  ingest_event config event = do _ ← post_json config (txt "/events") event 5000; pure tt

  unfoldable pub recall : AmmConfig → Text → Option Text → M Json
  recall config query session_id =
      post_json config (txt "/recall") (recall_payload config query session_id) 10000

  unfoldable pub memory_get : AmmConfig → Text → M Json
  memory_get config memory_id = do
    part ← or_throw (env.encode_uri memory_id)
    get_json config (txt "/memories/" ++ part) 10000

  unfoldable pub remember_memory : AmmConfig → Fields → M Json
  remember_memory config payload = post_json config (txt "/memories") payload 10000

  -- The timed request whose only result is `response.ok`.
  unfoldable pub succeeds : Request → M Bool
  succeeds req = with_timer (try_catch (fetch env req >>= λ r. pure r.0) (pure false))

  unfoldable pub update_memory : AmmConfig → Text → Fields → M Bool
  unfolding succeeds
  update_memory config memory_id payload = if is_empty config.api_url then pure false else do
    part ← or_throw (env.encode_uri memory_id)
    succeeds (
        request config "PATCH" (config.api_url ++ txt "/memories/" ++ part)
          (some (env.stringify (obj payload))) 10000)

  unfoldable pub forget_memory : AmmConfig → Text → M Bool
  unfolding succeeds
  forget_memory config memory_id = if is_empty config.api_url then pure false else do
    part ← or_throw (env.encode_uri memory_id)
    succeeds (request config "DELETE" (config.api_url ++ txt "/memories/" ++ part) none 10000)

-- The optional arguments of `memorySearch`.
pub record SearchOptions : Type 0 where
  pub limit : Option Number
  pub type : Option Text
  pub scope : Option Text
  pub project_id : Option Text

-- The payload of a search.
unfoldable pub search_payload : AmmConfig → Text → SearchOptions → Fields
search_payload config query opts = field "query" (str query) (
    field "opts"
      (obj (
        field "mode" (str (txt "hybrid")) (
          field "limit" (num (get_or opts.limit config.recall_limit)) (
            field "type" (str (get_or opts.type [])) (
              field "scope" (str (get_or opts.scope []))
                (field "project_id" (str (get_or opts.project_id config.project_id)) end))))))
      end)

unfoldable pub memory_search : Env → AmmConfig → Text → SearchOptions → M Json
memory_search env config query opts =
    post_json env config (txt "/recall") (search_payload config query opts) 10000
