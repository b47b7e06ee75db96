-- ===== src/OpenCode/Tools/Shell.antt =====
-- The hook shell.env of amm.js: what it sets and what it leaves.
use agent_memory_manager.Base.{
  String, ◌≡◌, refl, ◌∙◌, false, Option, none, some, arith, Bool-cases, inl, inr,
}
use text.Mathlib.Text.{◌==◌ as str_eq}
use text.Mathlib.TextEquality.{eq_iff}
use agent_memory_manager.Base.Text.{Text, txt, is_empty}
use agent_memory_manager.Base.Json.{get_or}
use agent_memory_manager.OpenCode.Process.{amm_bin, db_path, default_db_path}
use agent_memory_manager.OpenCode.Tools.{Variables, set_missing, set_session, shell_env}

set_missing-keeps :
    (name : String) (value : Text) (vars : Variables) (k : String) (v : Text)
    → vars k ≡ some v
    → set_missing name value vars k ≡ some v
unfolding set_missing
set_missing-keeps name value vars k v h = ground arith

set_missing_self :
    (name : String) (value : Text) (vars : Variables)
    → set_missing name value vars name ≡ some (get_or (vars name) value)
unfolding set_missing
set_missing_self name value vars = ground (arith, eq_iff name name)

set_missing_other :
    (name : String) (value : Text) (vars : Variables) (k : String)
    → str_eq name k ≡ false
    → set_missing name value vars k ≡ vars k
unfolding set_missing
set_missing_other name value vars k h = ground arith

set_session-keeps :
    (session_id : Option Text) (vars : Variables) (k : String) (v : Text)
    → vars k ≡ some v
    → set_session session_id vars k ≡ some v
set_session-keeps none vars k v h = h
set_session-keeps (some session_id) vars k v h = elim (Bool-cases (is_empty session_id)) [
  | inl empty ↦ rw empty h
  | inr there ↦ rw there (set_missing-keeps "AMM_SESSION_ID" session_id vars k v h)
]

module _ (environ : Variables) (project_id : Text) (session_id : Option Text)
    (vars : Variables) where
  abbrev with_bin : Variables
  with_bin = set_missing "AMM_BIN" (txt "/usr/local/bin/amm") vars

  abbrev with_db : Variables
  with_db = set_missing "AMM_DB_PATH" (default_db_path environ) with_bin

  abbrev with_project : Variables
  with_project = set_missing "AMM_PROJECT_ID" project_id with_db

  -- A variable that is set keeps its value.
  pub shell_env-keeps :
      (k : String) (v : Text)
      → vars k ≡ some v
      → shell_env environ project_id session_id vars k ≡ some v
  unfolding shell_env
  shell_env-keeps k v h = set_session-keeps session_id with_project k v (
      set_missing-keeps "AMM_PROJECT_ID" project_id with_db k v (
        set_missing-keeps "AMM_DB_PATH" (default_db_path environ) with_bin k v
          (set_missing-keeps "AMM_BIN" (txt "/usr/local/bin/amm") vars k v h)))

  shell_env-bin :
      shell_env environ project_id session_id vars "AMM_BIN"
      ≡ some (get_or (vars "AMM_BIN") (txt "/usr/local/bin/amm"))
  unfolding shell_env
  shell_env-bin = set_session-keeps session_id with_project "AMM_BIN" _ (
      set_missing-keeps "AMM_PROJECT_ID" project_id with_db "AMM_BIN" _ (
        set_missing-keeps "AMM_DB_PATH" (default_db_path environ) with_bin "AMM_BIN" _
          (set_missing_self "AMM_BIN" (txt "/usr/local/bin/amm") vars)))

  shell_env-db :
      shell_env environ project_id session_id vars "AMM_DB_PATH"
      ≡ some (get_or (vars "AMM_DB_PATH") (default_db_path environ))
  unfolding shell_env
  shell_env-db = set_session-keeps session_id with_project "AMM_DB_PATH" _ (
      set_missing-keeps "AMM_PROJECT_ID" project_id with_db "AMM_DB_PATH" _ (
        set_missing_self "AMM_DB_PATH" (default_db_path environ) with_bin
        ∙ rw (set_missing_other "AMM_BIN" (txt "/usr/local/bin/amm") vars "AMM_DB_PATH" refl) refl))

-- A variable that is set keeps its value in the shell of the agent, and where the shell starts
-- with the environment of the plugin, it runs the binary and opens the database that the plugin
-- does.
pub shell_env_lem :
    (environ vars : Variables) (project_id : Text) (session_id : Option Text) (k : String)
    (v : Text)
    → vars k ≡ some v
    → (shell_env environ project_id session_id vars k ≡ some v)
      × (shell_env environ project_id session_id environ "AMM_BIN" ≡ some (amm_bin environ))
      × (shell_env environ project_id session_id environ "AMM_DB_PATH" ≡ some (db_path environ))
unfolding amm_bin db_path
shell_env_lem environ vars project_id session_id k v h = (
  shell_env-keeps environ project_id session_id vars k v h,
  shell_env-bin environ project_id session_id environ,
  shell_env-db environ project_id session_id environ,
)
