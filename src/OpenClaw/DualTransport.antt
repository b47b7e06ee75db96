-- ===== src/OpenClaw/DualTransport.antt =====
-- examples/openclaw/src/transport.ts: the HTTP API where there is an API URL, and otherwise the
-- `amm` binary.
pub mod Http
pub mod Arguments
pub mod Modes
pub mod Local
use agent_memory_manager.Base.{
  ℕ, zero, suc, String, Bool, true, false, not, ◌&&◌, ◌||◌, Option, none, some, List, [], ◌∷◌, ◌++◌,
  ◌==◌, if◌then◌else◌,
}
use agent_memory_manager.Base.Text.{Text, txt, is_empty}
use agent_memory_manager.Base.Json.{Json, num, obj, Fields, Number, or_else, get_or, is_truthy}
use agent_memory_manager.OpenClaw.Config.{AmmConfig, use_http_api}
use agent_memory_manager.Effects.{
  Env, Spawn, Spawned, M, pure, or_throw, ◌>>=◌, ◌>>◌, start_process, try_catch, fetch, with_timer,
}
use agent_memory_manager.OpenClaw.Transport.{empty_object, SearchOptions}
use agent_memory_manager.OpenClaw.DualTransport.Http.{
  http_headers, post_json, search_payload, recall_payload,
}
use agent_memory_manager.OpenClaw.DualTransport.Arguments.{remember_arguments, update_arguments}

pub record BinaryResult : Type 0 where
  pub ok : Bool
  pub stdout : Text
  pub stderr : Text

-- `result.status === 0`
abbrev pub exited_well : Option ℕ → Bool
exited_well none = false
exited_well (some code) = code == 0

abbrev pub is_absent : Option Text → Bool
is_absent none = true
is_absent (some s) = false

unfoldable pub binary_result : Spawned → BinaryResult
binary_result r = record {
  ok = is_absent r.error && exited_well r.status;
  stdout = get_or r.stdout [];
  stderr = get_or (or_else r.error r.stderr) [];
}

abbrev pub amm_process : AmmConfig → List Text → Option Text → Spawn
amm_process config args stdin = record {
  command = config.amm_bin;
  args = args;
  input = stdin;
  timeout_ms = 10000;
  db_path = config.db_path;
}

-- `if (s) args.push(flag, s)`
abbrev pub flag : Text → Text → List Text
flag name s = if is_empty s then [] else name ∷ s ∷ []

abbrev limit_flag : Env → Option Number → List Text
limit_flag env none = []
limit_flag env (some n) = if is_truthy (num n) then txt "--limit" ∷ env.number_text n ∷ [] else []

module _ (env : Env) where
  unfoldable pub run_amm : AmmConfig → List Text → Option Text → M BinaryResult
  unfolding binary_result
  run_amm config args stdin = do
    r ← start_process env (amm_process config args stdin)
    pure (binary_result r)

  -- The parsed output of a process that ended well, or `{}`.
  unfoldable pub json_output : BinaryResult → Json
  json_output r =
      if not r.ok || is_empty r.stdout
      then empty_object
      else get_or (env.parse r.stdout) empty_object

  unfoldable pub run_amm_json : AmmConfig → List Text → Option Text → M Json
  unfolding run_amm json_output
  run_amm_json config args stdin = do r ← run_amm config args stdin; pure (json_output r)

  unfoldable pub ingest_event : AmmConfig → Fields → M (Unit {0})
  unfolding run_amm
  ingest_event config event =
      if use_http_api config
      then (do _ ← post_json env config (txt "/events") event 5000; pure tt)
      else (do
        _ ←
            run_amm config (txt "ingest" ∷ txt "event" ∷ txt "--in" ∷ txt "-" ∷ [])
              (some (env.stringify (obj event)))
        pure tt)

  unfoldable pub memory_search : AmmConfig → Text → SearchOptions → M Json
  unfolding run_amm_json
  memory_search config query opts =
      if use_http_api config
      then post_json env config (txt "/recall") (search_payload config query opts) 10000
      else run_amm_json config
          (txt "recall" ∷ txt "--mode" ∷ txt "hybrid" ∷ txt "--json" ∷ []
            ++ (limit_flag env opts.limit
                ++ (flag (txt "--type") (get_or opts.type [])
                    ++ (flag (txt "--project") (get_or opts.project_id config.project_id)
                        ++ query ∷ []))))
          none

  -- `${config.apiUrl}/memories/${encodeURIComponent(memoryId)}`
  abbrev pub memory_url : AmmConfig → Text → M Text
  memory_url config memory_id = do
    part ← or_throw (env.encode_uri memory_id)
    pure (config.api_url ++ txt "/memories/" ++ part)

  unfoldable pub memory_get : AmmConfig → Text → M Json
  unfolding run_amm_json
  memory_get config memory_id =
      if use_http_api config
      then (do
        url ← memory_url config memory_id
        with_timer (
            try_catch
              (do
                response ← fetch env (record {
                  method = "GET";
                  url = url;
                  headers = http_headers config;
                  body = none;
                  timeout_ms = some 10000;
                })
                if response.0
                    then (do
                      text ← or_throw response.1
                      if is_empty text then pure empty_object else or_throw (env.parse text))
                    else pure empty_object)
              (pure empty_object)))
      else run_amm_json config (txt "get-memory" ∷ memory_id ∷ txt "--json" ∷ []) none

  unfoldable pub remember_memory : AmmConfig → Fields → M Json
  unfolding run_amm_json
  remember_memory config payload =
      if use_http_api config then post_json env config (txt "/memories") payload 10000 else (do
        args ← or_throw (remember_arguments env payload)
        run_amm_json config (txt "remember" ∷ args) none)

  unfoldable pub update_memory : AmmConfig → Text → Fields → M Bool
  unfolding run_amm
  update_memory config memory_id payload =
      if use_http_api config
      then (do
        url ← memory_url config memory_id
        with_timer (
            try_catch
              (do
                response ← fetch env (record {
                  method = "PATCH";
                  url = url;
                  headers = http_headers config;
                  body = some (env.stringify (obj payload));
                  timeout_ms = some 10000;
                })
                pure response.0)
              (pure false)))
      else (do
        args ← or_throw (update_arguments env payload)
        r ← run_amm config (txt "memory" ∷ txt "update" ∷ memory_id ∷ args) none
        pure r.ok)

  unfoldable pub forget_memory : AmmConfig → Text → M Bool
  unfolding run_amm
  forget_memory config memory_id =
      if use_http_api config
      then (do
        url ← memory_url config memory_id
        with_timer (
            try_catch
              (do
                response ← fetch env (record {
                  method = "DELETE";
                  url = url;
                  headers = http_headers config;
                  body = none;
                  timeout_ms = some 10000;
                })
                pure response.0)
              (pure false)))
      else (do r ← run_amm config (txt "forget" ∷ memory_id ∷ []) none; pure r.ok)

  unfoldable pub recall : AmmConfig → Text → Option Text → M Json
  unfolding run_amm_json
  recall config query session_id =
      if use_http_api config
      then post_json env config (txt "/recall") (recall_payload config query session_id) 10000
      else run_amm_json config
          (txt "recall" ∷ txt "--mode" ∷ txt "ambient" ∷ txt "--json" ∷ []
            ++ (flag (txt "--session") (get_or session_id [])
                ++ (flag (txt "--project") config.project_id ++ query ∷ [])))
          none
