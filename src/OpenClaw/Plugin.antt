-- ===== src/OpenClaw/Plugin.antt =====
-- examples/openclaw/index.ts: the query of a prompt, the context that is put before it, and the
-- hooks that are registered.
pub mod Query
pub mod Turn
pub mod Again
pub mod Recorded
pub mod Registered
use agent_memory_manager.Base.{
  ℕ, zero, suc, Bool, true, false, not, Option, none, some, List, [], ◌∷◌, ◌++◌, map, length,
  if◌then◌else◌,
}
use agent_memory_manager.Base.Text.{Text, txt, is_empty, trim, join, text_eq}
use agent_memory_manager.Base.Json.{Json, str, arr, elems, prop}
use agent_memory_manager.OpenClaw.Config.{AmmConfig}
use agent_memory_manager.Effects.{Env, M, pure, ◌>>=◌, ◌>>◌}
use agent_memory_manager.OpenClaw.Recall.{ambient_recall}
use agent_memory_manager.OpenClaw.Capture.{HookEvent, capture_event}
use agent_memory_manager.OpenClaw.Curated.Entries.{memory, user, curated_project_id}
use agent_memory_manager.OpenClaw.Curated.Sync.{snapshot_curated, reconcile_curated}

-- The hint of `systemPromptBlock`, for a project id that is not empty.
unfoldable pub project_hint : Text → Text
project_hint project =
    txt "\nWhen saving your own memories (preferences, decisions, lessons), pass `project_id: \""
    ++ (project
        ++ (txt "\"` to amm_remember or `--project "
            ++ (project
                ++ txt
                    "` to `amm remember` so they are scoped to your memory space rather than the general store.")))

abbrev guidance : Text
guidance =
    txt
      "## Long-term memory (AMM)\nYou have two memory tiers:\n- **Built-in memory** (MEMORY.md/USER.md): small, always visible. Keep only high-frequency context here — active preferences, current constraints, things you need on every turn.\n- **AMM** (via MCP tools or CLI): unlimited durable memory. Relevant AMM memories are automatically surfaced each turn. Use amm_remember (MCP) or `amm remember` (CLI) for detailed decisions, procedures, project context, and anything too large for built-in memory. Use amm_recall (MCP) or `amm recall` (CLI) for targeted search when you need specific history.\nWhen a recalled memory looks relevant but the summary is too thin to act on, use amm_expand (MCP) or `amm expand` (CLI) with max_depth 1-2 to get the full context — linked entities, related decisions, and child summaries.\nWhen built-in memory is full, save detail to AMM rather than compressing or discarding entries. Let built-in memory stay lean."

unfoldable pub system_prompt_block : AmmConfig → Text
system_prompt_block config =
    let project = curated_project_id config in
    guidance ++ (if is_empty project then [] else project_hint project)

pub record PromptBuildEvent : Type 0 where
  pub messages : Option Json
  pub session_key : Option Text

-- `msg?.role === "user"`
abbrev pub is_user : Option Json → Bool
is_user (some (str role)) = text_eq role (txt "user")
is_user v = false

abbrev pub trimmed_string : Option Json → Text
trimmed_string (some (str s)) = trim s
trimmed_string v = []

-- The trimmed content of a user's message; empty for any other message.
unfoldable pub user_content : Json → Text
user_content msg = if is_user (prop "role" msg) then trimmed_string (prop "content" msg) else []

-- `messages[i]`
abbrev pub get_elem? : List Json → ℕ → Option Json
get_elem? [] i = none
get_elem? (m ∷ ms) zero = some m
get_elem? (m ∷ ms) (suc i) = get_elem? ms i

abbrev pub content_at : Option Json → Text
content_at none = []
content_at (some msg) = user_content msg

-- The loop, with the indices below `n` still to be looked at.
unfoldable pub search_from : ℕ → List Json → Text
search_from zero messages = []
search_from (suc i) messages =
    let earlier = search_from i messages in
    let content = content_at (get_elem? messages i) in if is_empty content then earlier else content

-- The query of messages that are an array; there is none in another value.
abbrev pub query_of : Option Json → Text
query_of (some (arr messages)) = search_from (length (elems messages)) (elems messages)
query_of v = []

unfoldable pub extract_user_query : PromptBuildEvent → Text
unfolding search_from
extract_user_query event = query_of event.messages

-- `if (s) parts.push(s)`
abbrev pub part : Option Text → List Text
part none = []
part (some s) = if is_empty s then [] else s ∷ []

-- `prependContext`, where there are parts
abbrev pub wrapped : List Text → Option Text
wrapped [] = none
wrapped (p ∷ ps) =
    some (txt "<amm-context>\n" ++ (join (b'\n' ∷ b'\n' ∷ []) (p ∷ ps) ++ txt "\n</amm-context>"))

-- The handlers of the hooks.
pub data Handler : Type 0 where
  recall_context capture snapshot reconcile : Handler

-- The hooks that `register` registers, in its order.
unfoldable pub registered : AmmConfig → List (Text × Handler)
registered config =
    (txt "before_prompt_build", recall_context)
      ∷ map (λ name. (name, capture))
          (txt "message:preprocessed"
            ∷ txt "message:sent"
            ∷ txt "tool:called"
            ∷ txt "tool:completed"
            ∷ [])
    ++ (if config.sync_curated_memory
        then (txt "before_agent_start", snapshot) ∷ (txt "agent_end", reconcile) ∷ []
        else [])

module _ (env : Env) (config : AmmConfig) where
  -- The result is `prependContext`.
  unfoldable pub before_prompt_build : PromptBuildEvent → M (Option Text)
  unfolding extract_user_query
  before_prompt_build event =
      let query = extract_user_query event in
      if is_empty query then pure none else do
        context ← ambient_recall env config query event.session_key
        pure (wrapped (part (some (system_prompt_block config)) ++ part context))

  unfoldable pub capture_handler : HookEvent → M (Unit {0})
  capture_handler event = do _ ← capture_event env config event; pure tt

  unfoldable pub before_agent_start : M (Unit {0})
  before_agent_start = snapshot_curated env

  unfoldable pub agent_end : M (Unit {0})
  agent_end = do reconcile_curated env config memory; reconcile_curated env config user
