-- ===== src/OpenClaw/DualTransport/Http.antt =====
-- transport.ts: the headers, the POST and the payloads of its own branch for the HTTP API.
use agent_memory_manager.Base.{ℕ, String, Option, some, List, [], ◌∷◌, ◌++◌, if◌then◌else◌}
use agent_memory_manager.Base.Text.{Text, txt, is_empty}
use agent_memory_manager.Base.Json.{Json, num, str, obj, Fields, end, field, get_or}
use agent_memory_manager.OpenClaw.Config.{AmmConfig}
use agent_memory_manager.Effects.{Env, M, pure, or_throw, ◌>>=◌, try_catch, fetch, with_timer}
use agent_memory_manager.OpenClaw.Transport.{empty_object, SearchOptions}

unfoldable pub http_headers : AmmConfig → List (String × Text)
http_headers config =
    let headers = ("Content-Type", txt "application/json") ∷ [] in
    if is_empty config.api_key
    then headers
    else headers ++ ("Authorization", txt "Bearer " ++ config.api_key) ∷ []

unfoldable pub post_json : Env → AmmConfig → Text → Fields → ℕ → M Json
unfolding http_headers
post_json env config path payload timeout_ms =
    if is_empty config.api_url
    then pure empty_object
    else with_timer (
        try_catch
          (do
            response ← fetch env (record {
              method = "POST";
              url = config.api_url ++ path;
              headers = http_headers config;
              body = some (env.stringify (obj payload));
              timeout_ms = some timeout_ms;
            })
            if response.0
                then (do
                  text ← or_throw response.1
                  if is_empty text then pure empty_object else or_throw (env.parse text))
                else pure empty_object)
          (pure empty_object))

-- The payload of `memorySearch`.
unfoldable pub search_payload : AmmConfig → Text → SearchOptions → Fields
search_payload config query opts = field "query" (str query) (
    field "opts"
      (obj (
        field "mode" (str (txt "hybrid")) (
          field "limit" (num (get_or opts.limit config.recall_limit)) (
            field "type" (str (get_or opts.type [])) (
              field "scope" (str (get_or opts.scope []))
                (field "project_id" (str (get_or opts.project_id config.project_id)) end))))))
      end)

-- The payload of `recall`.
unfoldable pub recall_payload : AmmConfig → Text → Option Text → Fields
recall_payload config query session_id = field "query" (str query) (
    field "opts"
      (obj (
        field "mode" (str (txt "ambient")) (
          field "limit" (num config.recall_limit) (
            field "session_id" (str (get_or session_id []))
              (field "project_id" (str config.project_id) end)))))
      end)
