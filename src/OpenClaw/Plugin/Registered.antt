-- ===== src/OpenClaw/Plugin/Registered.antt =====
-- index.ts with src/config.ts: which hooks the settings register.
use agent_memory_manager.Base.{
  ◌≡◌, refl, String, Bool, false, Option, some, none, List, [], ◌∷◌, map,
}
use agent_memory_manager.Base.Text.{Text, txt}
use agent_memory_manager.Base.Json.{Json, Number, bool, Fields, get_field, as_string}
use agent_memory_manager.OpenClaw.Config.{resolve_config, env_bool}
use agent_memory_manager.OpenClaw.Plugin.{Handler, recall_context, capture, registered}

-- The hooks for recall and capture alone.
abbrev pub basic_hooks : List (Text × Handler)
basic_hooks =
    (txt "before_prompt_build", recall_context)
    ∷ map (λ name. (name, capture))
        (txt "message:preprocessed"
          ∷ txt "message:sent"
          ∷ txt "tool:called"
          ∷ txt "tool:completed"
          ∷ [])

module _ (to_number : Json → Number) (environ : String → Option Text) (cfg : Fields) where
  -- A setting that is a Boolean counts as none.
  boolean_sync :
      (b : Bool)
      → get_field "syncCuratedMemory" cfg ≡ some (bool b)
      → environ "AMM_OPENCLAW_SYNC_CURATED_MEMORY" ≡ none
      → (resolve_config to_number environ cfg).sync_curated_memory ≡ false
  unfolding resolve_config env_bool as_string
  boolean_sync b set unset = rw (set, unset) refl

  -- Where the plugin's configuration sets syncCuratedMemory to a Boolean, true or false, and the
  -- variable of the environment is not set, the two hooks that mirror curated memory are not
  -- registered.
  pub registered_boolean :
      (b : Bool)
      → get_field "syncCuratedMemory" cfg ≡ some (bool b)
      → environ "AMM_OPENCLAW_SYNC_CURATED_MEMORY" ≡ none
      → registered (resolve_config to_number environ cfg) ≡ basic_hooks
  unfolding registered
  registered_boolean b set unset = rw (boolean_sync b set unset) refl
