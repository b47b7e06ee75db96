-- ===== src/OpenClaw/Capture/Captured.antt =====
-- capture.ts: which events are to be recorded, and that `classify` finds them.
use agent_memory_manager.Base.{◌≡◌, true, Option, some, none, arith, Bool-cases, inl, inr}
use agent_memory_manager.Base.Text.{Text, txt, text_eq, text_eq_iff}
use agent_memory_manager.Effects.{Env}
use agent_memory_manager.OpenClaw.Capture.{
  HookEvent, EventClassification, classify, is_hook, is_tool_hook, context_of, pick_inbound_content,
  pick_outbound_content, build_tool_call_content, build_tool_result_content, kind_name,
}

-- The type of the hooks of a tool.
pub data IsTool (type : Text) : Type 0 where
  tool : type ≡ txt "tool" → IsTool type
  function : type ≡ txt "function" → IsTool type

-- The events that are to be recorded, each with its kind, its actor and its content.
pub data IsCaptured (env : Env) (event : HookEvent) : Text → Text → Text → Type 0 where
  incoming :
      {content : Text}
      → event.type ≡ txt "message"
      → event.action ≡ txt "preprocessed"
      → pick_inbound_content (context_of event) ≡ some content
      → IsCaptured env event (txt "message_user") (txt "user") content
  outgoing :
      {content : Text}
      → event.type ≡ txt "message"
      → event.action ≡ txt "sent"
      → pick_outbound_content (context_of event) ≡ some content
      → IsCaptured env event (txt "message_assistant") (txt "assistant") content
  called :
      {content : Text}
      → IsTool event.type
      → event.action ≡ txt "called"
      → build_tool_call_content env (context_of event) ≡ some content
      → IsCaptured env event (txt "tool_call") (txt "tool") content
  completed :
      {content : Text}
      → IsTool event.type
      → event.action ≡ txt "completed"
      → build_tool_result_content env (context_of event) ≡ some content
      → IsCaptured env event (txt "tool_result") (txt "tool") content

is_hook-eq :
    (event : HookEvent) (t a : Text)
    → is_hook event t a ≡ true
    → (event.type ≡ t) × (event.action ≡ a)
is_hook-eq event t a h =
    ((text_eq_iff event.type t).0 (ground arith), (text_eq_iff event.action a).0 (ground arith))

is_tool_hook-eq :
    (event : HookEvent) (a : Text)
    → is_tool_hook event a ≡ true
    → IsTool event.type × (event.action ≡ a)
is_tool_hook-eq event a h = (
  elim (Bool-cases (text_eq event.type (txt "tool"))) [
    | inl e ↦ tool ((text_eq_iff event.type (txt "tool")).0 e)
    | inr e ↦ function ((text_eq_iff event.type (txt "function")).0 (ground arith))
  ],
  (text_eq_iff event.action a).0 (ground arith),
)

module _ (env : Env) (event : HookEvent) where
  -- Every content that a classification has is one that is to be recorded.
  abbrev pub Sound : Option EventClassification → Type 0
  Sound none = Unit {0}
  Sound (some c) =
      (content : Text)
      → c.content ≡ some content
      → IsCaptured env event (kind_name c.kind) c.actor_type content

  pub classify-Sound : Sound (classify env event)
  unfolding classify
  classify-Sound = elim (Bool-cases (is_hook event (txt "message") (txt "preprocessed"))) [
    | inl a ↦ rw a (λ content e. let (t, u) = is_hook-eq event _ _ a in incoming t u e)
    | inr a ↦ rw a (elim (Bool-cases (is_hook event (txt "message") (txt "sent"))) [
      | inl b ↦ rw b (λ content e. let (t, u) = is_hook-eq event _ _ b in outgoing t u e)
      | inr b ↦ rw b (elim (Bool-cases (is_tool_hook event (txt "called"))) [
        | inl c ↦ rw c (λ content e. let (t, u) = is_tool_hook-eq event _ c in called t u e)
        | inr c ↦ rw c (elim (Bool-cases (is_tool_hook event (txt "completed"))) [
          | inl d ↦ rw d (λ content e. let (t, u) = is_tool_hook-eq event _ d in completed t u e)
          | inr d ↦ rw d tt
        ])
      ])
    ])
  ]

  abbrev pub content_of : Option EventClassification → Option Text
  content_of none = none
  content_of (some c) = c.content

  -- Every content that is to be recorded is that of the event's classification.
  pub classify_complete :
      {kind actor content : Text}
      → IsCaptured env event kind actor content
      → content_of (classify env event) ≡ some content
  unfolding classify txt text_eq
  classify_complete (incoming t a e) = rw (t, a) e
  classify_complete (outgoing t a e) = rw (t, a) e
  classify_complete (called (tool t) a e) = rw (t, a) e
  classify_complete (called (function t) a e) = rw (t, a) e
  classify_complete (completed (tool t) a e) = rw (t, a) e
  classify_complete (completed (function t) a e) = rw (t, a) e
