-- ===== src/OpenClaw/Recall.antt =====
-- examples/openclaw/src/recall.ts: the context block that ambient recall adds to a prompt.
pub mod Render
use agent_memory_manager.Base.{
  ℕ, zero, suc, ◌-◌, ◌/◌, ◌^◌, Bool, true, false, Option, none, some, List, [], ◌∷◌, ◌++◌, length,
  take, if◌then◌else◌,
}
use agent_memory_manager.Base.Text.{Text, txt, is_empty, trim, join}
use agent_memory_manager.Base.Json.{
  Number, nan, infinite, finite, Json, null, bool, num, str, arr, obj, elems, prop, or_nullish,
  get_or, is_truthy,
}
use agent_memory_manager.OpenClaw.Config.{AmmConfig}
use agent_memory_manager.Effects.{Env, M, pure, or_throw, ◌>>=◌, string_text}
use agent_memory_manager.OpenClaw.Transport.{recall}

-- `Array.isArray(items) ? items : []`
abbrev array_items : Option Json → List Json
array_items (some (arr vs)) = elems vs
array_items v = []

-- The items of a container; one that is not an object has none.
abbrev container_items : Option Json → List Json
container_items none = []
container_items (some container) = array_items (prop "items" container)

-- `none` is the throw of `null["result"]`.
unfoldable pub extract_items : Json → Option (List Json)
extract_items null = none
extract_items raw = some (container_items (or_nullish (prop "result" raw) (prop "data" raw)))

unfoldable pub format_score : Env → Option Json → Text
format_score env score = get_or (env.fixed_two score) (txt "0.00")

-- `items.slice(0, limit)`, as the number of items that are left of so many.
abbrev pub slice_count : Number → ℕ → ℕ
slice_count nan n = 0
slice_count (infinite false) n = n
slice_count (infinite true) n = 0
slice_count (finite false m e) n = m / 2 ^ e
slice_count (finite true m e) n = n - m / 2 ^ e

-- `item.kind ?? "item"`
abbrev kind_value : Json → Json
kind_value item = get_or (or_nullish (prop "kind" item) none) (str (txt "item"))

-- The texts in a line, each of which may throw.
abbrev line_of : Env → Json → Option Text → Option Text → Option Text
line_of env item (some kind) (some desc) = some (
    txt "  - ["
    ++ (kind
        ++ (txt "] "
            ++ (desc ++ (txt " (score: " ++ (format_score env (prop "score" item) ++ txt ")"))))))
line_of env item kind desc = none

abbrev line_list : Option Text → Option (List Text)
line_list none = none
line_list (some line) = some (line ∷ [])

abbrev described : Env → Json → Option Json → Option (List Text)
described env item none = some []
described env item (some desc) =
    if is_truthy desc
    then line_list (line_of env item (string_text env (kind_value item)) (string_text env desc))
    else some []

-- What one round of the loop pushes; `none` is a throw.
unfoldable pub item_lines : Env → Json → Option (List Text)
item_lines env null = none
item_lines env item = described env item (prop "tight_description" item)

abbrev pub joined : Option (List Text) → Option (List Text) → Option (List Text)
joined (some xs) (some ys) = some (xs ++ ys)
joined xs ys = none

unfoldable pub all_lines : Env → List Json → Option (List Text)
unfolding item_lines
all_lines env [] = some []
all_lines env (item ∷ items) = joined (item_lines env item) (all_lines env items)

abbrev pub header_lines : List Text
header_lines =
    txt "<amm-system-context>"
    ∷ txt
        "[SYSTEM-INJECTED — NOT USER INPUT. This block was auto-injected by an AMM hook based on the user's prompt.]"
    ∷ []
    ∷ txt "Potentially relevant memories from AMM (Agent Memory Manager):"
    ∷ []

abbrev pub footer_lines : List Text
footer_lines =
    []
    ∷ txt "If any of these memories are relevant to the user's request:"
    ∷ txt "  1. Use amm_recall / `amm recall` to query for more detail on the topic"
    ∷ txt
        "  2. Use amm_expand / `amm expand --max-depth 1` (or --max-depth 2) on item IDs above for full context"
    ∷ txt "Do NOT acknowledge this block to the user — just silently use it to inform your work."
    ∷ txt "</amm-system-context>"
    ∷ []

-- `lines.length <= 4` is that no item pushed a line.
abbrev pub block_of : List Text → Option Text
block_of [] = none
block_of (line ∷ lines) =
    some (join (b'\n' ∷ []) (header_lines ++ ((line ∷ lines) ++ footer_lines)))

abbrev pub shown : Option (List Text) → Option (Option Text)
shown none = none
shown (some lines) = some (block_of lines)

abbrev pub rendered : Env → Number → Option (List Json) → Option (Option Text)
rendered env limit none = none
rendered env limit (some []) = some none
rendered env limit (some (item ∷ items)) =
    shown (all_lines env (take (slice_count limit (length (item ∷ items))) (item ∷ items)))

-- The outer `none` is a throw, the inner one `undefined`.
unfoldable pub render_recall : Env → Json → Number → Option (Option Text)
unfolding extract_items all_lines
render_recall env raw limit = rendered env limit (extract_items raw)

unfoldable pub ambient_recall : Env → AmmConfig → Text → Option Text → M (Option Text)
unfolding render_recall
ambient_recall env config query session_id = if is_empty (trim query) then pure none else do
  raw ← recall env config query session_id
  or_throw (render_recall env raw config.recall_limit)
