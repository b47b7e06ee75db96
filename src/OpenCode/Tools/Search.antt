-- ===== src/OpenCode/Tools/Search.antt =====
-- The tools of amm.js and the local mode of examples/openclaw/src/transport.ts: the same processes.
use agent_memory_manager.Base.{◌≡◌, true, false, Option, some, none, List, arith}
use agent_memory_manager.Base.Text.{Text, is_empty, trim}
use agent_memory_manager.Effects.{Env, Spawned, World, start_process}
use agent_memory_manager.Effects.Rules.{>>=-pure}
use agent_memory_manager.OpenClaw.Config.{AmmConfig, use_http_api}
use agent_memory_manager.OpenClaw.DualTransport
use agent_memory_manager.OpenClaw.DualTransport.{
  run_amm, run_amm_json, json_output, binary_result, exited_well, is_absent, amm_process,
}
use agent_memory_manager.OpenCode.Process.{amm_bin, db_path, run_amm_sync, sync_output}
use agent_memory_manager.OpenCode.Tools.{SearchArgs, memory_search, memory_get}

-- Both read the output of the process in the same way.
sync_output-json_output :
    (env : Env) (r : Spawned) → sync_output env r ≡ json_output env (binary_result r)
unfolding sync_output json_output binary_result
sync_output-json_output env r = ground arith

module _ (env : Env) (config : AmmConfig) (bin : config.amm_bin ≡ amm_bin env.environ)
    (db : config.db_path ≡ db_path env.environ) where
  run_amm_sync_same :
      (args : List Text) (stdin : Option Text) (w : World)
      → run_amm_sync env args stdin w ≡ run_amm_json env config args stdin w
  unfolding run_amm_sync run_amm_json run_amm
  run_amm_sync_same args stdin w =
      rw (← bin, ← db)
        (>>=-pure (start_process env (amm_process config args stdin)) binary_result
          (json_output env) (sync_output env) w (sync_output-json_output env))

  -- With the same binary, database and project, and a query that is not blank, the search tool of
  -- the OpenCode plugin does what the search of the OpenClaw plugin does without an API URL,
  -- whatever the scope: the same process, result and world.
  pub memory_search_same :
      (a : SearchArgs) (scope : Option Text) (query : Text) (w : World)
      → is_empty config.api_url ≡ true
      → a.query ≡ some query
      → is_empty (trim query) ≡ false
      → memory_search env config.project_id a w
        ≡ DualTransport.memory_search env config query
            (record { limit = a.limit; type = a.type; scope = scope; project_id = a.project_id })
            w
  unfolding memory_search DualTransport.memory_search use_http_api
  memory_search_same a scope query w local asked spoken =
      rw (local, asked, spoken) (run_amm_sync_same _ none w)

  -- The tool `memory_get` and the same request of the OpenClaw plugin.
  pub memory_get_same :
      (id : Text) (w : World)
      → is_empty config.api_url ≡ true
      → is_empty (trim id) ≡ false
      → memory_get env (some id) w ≡ DualTransport.memory_get env config id w
  unfolding memory_get DualTransport.memory_get use_http_api
  memory_get_same id w local named = rw (local, named) (run_amm_sync_same _ none w)
