-- ===== src/OpenClaw/Config.antt =====
-- examples/openclaw/src/config.ts: where each setting comes from.
pub mod Url
pub mod Limit
use agent_memory_manager.Base.{
  ℕ, ◌/◌, ◌^◌, String, Bool, false, not, ◌||◌, Option, none, some, [], ◌∷◌, ◌++◌, ◌==◌, ltb,
  if◌then◌else◌,
}
use agent_memory_manager.Base.Text.{
  Text, txt, is_empty, drop_end, trim, ends_with, to_lower_case, includes,
}
use agent_memory_manager.Base.Json.{
  Number, nan, infinite, finite, Json, num, str, Fields, get_field, as_string, or_nullish, or_else,
  get_or,
}

pub record AmmConfig : Type 0 where
  pub amm_bin : Text
  pub db_path : Text
  pub api_url : Text
  pub api_key : Text
  pub project_id : Text
  pub recall_limit : Number
  pub sync_curated_memory : Bool
  pub curated_project_id : Text
  pub memory_scope : Text
  pub user_scope : Text
  pub memory_type : Text
  pub user_type : Text
  pub state_dir : Text

-- `/\/+$/`
abbrev pub is_slash : ℕ → Bool
is_slash c = c == b'/'

unfoldable pub normalize_api_url : Option Text → Text
normalize_api_url none = []
normalize_api_url (some raw) =
    let trimmed = drop_end is_slash (trim raw) in
    if is_empty raw
    then []
    else if is_empty trimmed
    then []
    else if ends_with trimmed (txt "/v1")
    then trimmed
    else trimmed ++ txt "/v1"

abbrev pub default_recall_limit : Number
default_recall_limit = finite false 5 0

-- `n < 1`, for a finite number
abbrev pub below_one : Bool → ℕ → ℕ → Bool
below_one negative m e = negative || ltb m (2 ^ e)

-- the tests and `Math.floor` of `clampRecallLimit`, on a number
unfoldable pub clamp_number : Number → Number
clamp_number nan = default_recall_limit
clamp_number (infinite negative) = default_recall_limit
clamp_number (finite negative m e) =
    if below_one negative m e then default_recall_limit else finite false (m / 2 ^ e) 0

-- `to_number` is the language's `Number(raw)`.
unfoldable pub clamp_recall_limit : (Json → Number) → Json → Number
unfolding clamp_number
clamp_recall_limit to_number (num n) = clamp_number n
clamp_recall_limit to_number raw = clamp_number (to_number raw)

unfoldable pub env_bool : Option Text → Bool
env_bool none = false
env_bool (some value) =
    if is_empty value
    then false
    else includes (txt "1" ∷ txt "true" ∷ txt "yes" ∷ txt "on" ∷ []) (to_lower_case (trim value))

-- `cfg[key] ?? process.env[name] ?? fallback`, for the settings that are strings
unfoldable pub setting : Fields → (String → Option Text) → String → String → Text → Text
setting cfg environ key name fallback =
    get_or (or_else (as_string (get_field key cfg)) (environ name)) fallback

-- `process.env.HOME ?? "~"`
abbrev pub home_dir : (String → Option Text) → Text
home_dir environ = get_or (environ "HOME") (txt "~")

-- An environment variable as a value.
abbrev env_value : Option Text → Option Json
env_value none = none
env_value (some s) = some (str s)

unfoldable pub resolve_config : (Json → Number) → (String → Option Text) → Fields → AmmConfig
unfolding setting
resolve_config to_number environ cfg =
    let project = setting cfg environ "projectId" "AMM_PROJECT_ID" [] in
    record {
      amm_bin = setting cfg environ "ammBin" "AMM_BIN" (txt "amm");
      db_path = setting cfg environ "dbPath" "AMM_DB_PATH" (home_dir environ ++ txt "/.amm/amm.db");
      api_url = normalize_api_url (some (setting cfg environ "apiUrl" "AMM_API_URL" []));
      api_key = setting cfg environ "apiKey" "AMM_API_KEY" [];
      project_id = project;
      recall_limit = clamp_recall_limit to_number (
          get_or
            (or_nullish (get_field "recallLimit" cfg)
              (env_value (environ "AMM_OPENCLAW_RECALL_LIMIT")))
            (num default_recall_limit));
      sync_curated_memory = env_bool (
          or_else (as_string (get_field "syncCuratedMemory" cfg))
            (environ "AMM_OPENCLAW_SYNC_CURATED_MEMORY"));
      curated_project_id =
          setting cfg environ "curatedProjectId" "AMM_OPENCLAW_CURATED_PROJECT_ID" project;
      memory_scope = setting cfg environ "memoryScope" "AMM_OPENCLAW_MEMORY_SCOPE" (txt "project");
      user_scope = setting cfg environ "userScope" "AMM_OPENCLAW_USER_SCOPE" (txt "global");
      memory_type = setting cfg environ "memoryType" "AMM_OPENCLAW_MEMORY_TYPE" (txt "fact");
      user_type = setting cfg environ "userType" "AMM_OPENCLAW_USER_TYPE" (txt "preference");
      state_dir =
          setting cfg environ "stateDir" "AMM_OPENCLAW_STATE_DIR"
            (home_dir environ ++ txt "/.openclaw/state/amm-plugin");
    }

unfoldable pub use_http_api : AmmConfig → Bool
use_http_api config = not (is_empty config.api_url)
