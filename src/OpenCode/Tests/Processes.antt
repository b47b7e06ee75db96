-- ===== src/OpenCode/Tests/Processes.antt =====
-- The theorems on the processes, the tools and the HTTP plugin at concrete inputs.
use agent_memory_manager.Base.{zero, suc, ◌≡◌, refl, true, false, some, none, [], ◌∷◌, ◌++◌, arith}
use text.Mathlib.Text.{◌==◌ as str_eq}
use agent_memory_manager.Base.Text.{txt, is_empty, trim, drop_start, drop_end, is_space, all_units}
use agent_memory_manager.Effects.{Env, refused}
use agent_memory_manager.OpenClaw.Config.{AmmConfig}
use agent_memory_manager.OpenClaw.DualTransport
use agent_memory_manager.OpenClaw.Tests.World.{env, config, extended}
use agent_memory_manager.OpenCode.Process.{
  Child, started, on_term_timer, on_kill_timer, on_end, term_fires, kill_fires, ends, History,
  begun, later, amm_bin, db_path, default_db_path,
}
use agent_memory_manager.OpenCode.Process.Phases.{Phase, History-Phase}
use agent_memory_manager.OpenCode.Tools.{SearchArgs, Variables, shell_env, memory_search}
use agent_memory_manager.OpenCode.Tools.Shell.{shell_env_lem}
use agent_memory_manager.OpenCode.Tools.Search.{memory_search_same}
use agent_memory_manager.OpenCode.HttpPlugin.{config_of, on_session_start}
use agent_memory_manager.OpenCode.HttpPlugin.Session.{
  on_session_start_lem, recalled, start_request, recall_request,
}

-- A child that is started at 100, gets SIGTERM at 5100 and SIGKILL at 7200, and ends.
abbrev stubborn : Child
stubborn = on_end (on_kill_timer 7200 (on_term_timer 5100 (started 100 5000)))

stubborn-History : History 100 5000 7300 stubborn
unfolding started on_term_timer on_kill_timer on_end
stubborn-History =
    later
      (later (later begun (omega arith) (term_fires 5100 refl (omega arith))) (omega arith)
        (kill_fires 7100 refl (omega arith)))
      (omega arith) ends

History-Phase_example : Phase 100 5000 7300 stubborn
History-Phase_example = History-Phase stubborn-History

abbrev variables : Variables
variables name = elim (str_eq name "AMM_BIN") [ true ↦ some (txt "/opt/amm") | false ↦ none ]

shell_env_lem_example :
    (shell_env variables (txt "p") (some (txt "s")) variables "AMM_BIN" ≡ some (txt "/opt/amm"))
    × (shell_env variables (txt "p") (some (txt "s")) variables "AMM_BIN"
        ≡ some (amm_bin variables))
    × (shell_env variables (txt "p") (some (txt "s")) variables "AMM_DB_PATH"
        ≡ some (db_path variables))
shell_env_lem_example =
    shell_env_lem variables variables (txt "p") (some (txt "s")) "AMM_BIN" (txt "/opt/amm") refl

-- The configuration of the OpenClaw plugin that agrees with an empty environment.
abbrev local_config : AmmConfig
local_config = record config {
  api_url = [];
  amm_bin = txt "/usr/local/bin/amm";
  db_path = txt "~" ++ txt "/.amm/amm.db";
}

abbrev asked : SearchArgs
asked = record { query = some (txt "q"); limit = none; type = some (txt "fact"); project_id = none }

same_bin : local_config.amm_bin ≡ amm_bin env.environ
unfolding amm_bin
same_bin = refl

same_db : local_config.db_path ≡ db_path env.environ
unfolding db_path default_db_path
same_db = refl

spoken : is_empty (trim (txt "q")) ≡ false
unfolding txt trim drop_start drop_end is_space all_units
spoken = refl

memory_search_same_example :
    memory_search env local_config.project_id asked extended
    ≡ DualTransport.memory_search env local_config
        (txt "q")
        (record { limit = none; type = some (txt "fact"); scope = none; project_id = none })
        extended
memory_search_same_example =
    memory_search_same env local_config same_bin same_db asked none (txt "q") extended refl refl
      spoken

-- The event is refused, and the recall is answered.
abbrev refusing_once : Env
refusing_once = record env { reply = λ n req. elim n [ zero ↦ refused | suc m ↦ env.reply m req ] }

on_session_start_lem_example :
    ((on_session_start refusing_once (config_of env.environ) (txt "/w") extended).1.sent
      ≡ []
        ++ start_request refusing_once (config_of env.environ) (txt "/w") extended
          ∷ recall_request refusing_once (config_of env.environ) (txt "/w") extended
          ∷ [])
    × ((on_session_start refusing_once (config_of env.environ) (txt "/w") extended).0
        ≡ recalled refusing_once (
            refusing_once.reply 1
              (recall_request refusing_once (config_of env.environ) (txt "/w") extended)))
    × ((on_session_start refusing_once (config_of env.environ) (txt "/w") extended).1.files
        ≡ extended.files)
on_session_start_lem_example =
    on_session_start_lem refusing_once (config_of env.environ) (txt "/w") extended
