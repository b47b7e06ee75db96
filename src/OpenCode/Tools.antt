-- ===== src/OpenCode/Tools.antt =====
-- amm.js: the two native tools, the environment of the agent's shell, and the project of the plugin.
pub mod Shell
pub mod Search
use agent_memory_manager.Base.{
  ℕ, String, Bool, true, false, Option, none, some, List, [], ◌∷◌, ◌++◌, if◌then◌else◌,
}
use text.Mathlib.Text.{◌==◌ as str_eq}
use agent_memory_manager.Base.Text.{Text, txt, is_empty, trim}
use agent_memory_manager.Base.Json.{
  Json, Number, num, str, arr, obj, nil, end, field, get_or, is_truthy,
}
use agent_memory_manager.Effects.{Env, M, pure}
use agent_memory_manager.OpenCode.Process.{amm_bin, default_db_path, run_amm_sync}

-- `project?.id ?? "opencode-project"`
unfoldable pub plugin_project_id : Option Text → Text
plugin_project_id id = get_or id (txt "opencode-project")

-- The arguments of `memory_search`; each has the type that the parameters state, where it is there.
pub record SearchArgs : Type 0 where
  pub query : Option Text
  pub limit : Option Number
  pub type : Option Text
  pub project_id : Option Text

-- `if (limit) args.push("--limit", String(limit))`
abbrev limit_arguments : Env → Option Number → List Text
limit_arguments env none = []
limit_arguments env (some n) =
    if is_truthy (num n) then txt "--limit" ∷ env.number_text n ∷ [] else []

-- `if (s) args.push(name, s)`
abbrev text_arguments : Text → Text → List Text
text_arguments name s = if is_empty s then [] else name ∷ s ∷ []

unfoldable pub search_arguments : Env → Text → SearchArgs → Text → List Text
search_arguments env project_id a query =
    txt "recall" ∷ txt "--mode" ∷ txt "hybrid" ∷ txt "--json" ∷ []
    ++ (limit_arguments env a.limit
        ++ (text_arguments (txt "--type") (get_or a.type [])
            ++ (text_arguments (txt "--project") (get_or a.project_id project_id) ++ query ∷ [])))

-- `execute` of the tool `memory_search`
unfoldable pub memory_search : Env → Text → SearchArgs → M Json
unfolding search_arguments
memory_search env project_id a =
    let query = get_or a.query [] in
    if is_empty (trim query)
    then pure (obj (field "items" (arr nil) end))
    else run_amm_sync env (search_arguments env project_id a query) none

-- `execute` of the tool `memory_get`
unfoldable pub memory_get : Env → Option Text → M Json
memory_get env id =
    let memory_id = get_or id [] in
    if is_empty (trim memory_id)
    then pure (obj (field "error" (str (txt "id is required")) end))
    else run_amm_sync env (txt "get-memory" ∷ memory_id ∷ txt "--json" ∷ []) none

-- The variables of an environment.
abbrev pub Variables : Type 0
Variables = String → Option Text

-- `env[name] ??= value`
unfoldable pub set_missing : String → Text → Variables → Variables
set_missing name value vars k = elim (vars k) [
  | none ↦ if str_eq name k then some value else none
  | some v ↦ some v
]

-- `if (input.sessionID) …`
abbrev set_session : Option Text → Variables → Variables
set_session none vars = vars
set_session (some session_id) vars =
    if is_empty session_id then vars else set_missing "AMM_SESSION_ID" session_id vars

-- The hook `shell.env`, with the variables of the plugin's own process.
unfoldable pub shell_env : Variables → Text → Option Text → Variables → Variables
unfolding set_missing
shell_env environ project_id session_id vars = set_session session_id (
    set_missing "AMM_PROJECT_ID" project_id (
      set_missing "AMM_DB_PATH" (default_db_path environ)
        (set_missing "AMM_BIN" (txt "/usr/local/bin/amm") vars)))
