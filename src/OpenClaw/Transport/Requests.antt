-- ===== src/OpenClaw/Transport/Requests.antt =====
-- transport-http.ts: how many requests a call sends, what it leaves behind, and what failures become.
use agent_memory_manager.Base.{
  ℕ, suc, ◌≡◌, refl, Bool, true, false, some, none, [], ◌∷◌, ◌++◌, arith, if◌then◌else◌, Bool-cases,
  inl, inr,
}
use agent_memory_manager.Base.Text.{Text, is_empty}
use agent_memory_manager.Base.Json.{Fields, Json, obj}
use agent_memory_manager.OpenClaw.Config.{AmmConfig}
use agent_memory_manager.Effects.{
  Env, World, Request, Reply, refused, response, done, fetch, with_timer, warn,
}
use agent_memory_manager.OpenClaw.Transport.{
  post_json, exchange, read_reply, request, empty_object, succeeds,
}

-- Everything that a call to the API may not touch, the timers among it.
pub record LeavesAlone (u w : World) : Type 0 where
  pub files : w.files ≡ u.files
  pub timers : w.timers ≡ u.timers
  pub memory_snapshot : w.memory_snapshot ≡ u.memory_snapshot
  pub user_snapshot : w.user_snapshot ≡ u.user_snapshot

-- What a reply is worth to `postJson` and `getJson`.
abbrev pub reply_value : Env → Reply → Json
reply_value env refused = empty_object
reply_value env (response false text) = empty_object
reply_value env (response true none) = empty_object
reply_value env (response true (some text)) =
    if is_empty text
    then empty_object
    else elim (env.parse text) [ none ↦ empty_object | some value ↦ value ]

abbrev pub reply_ok : Reply → Bool
reply_ok refused = false
reply_ok (response ok text) = ok

module _ (env : Env) where
  pub exchange-sent : (req : Request) (w : World) → (exchange env req w).1.sent ≡ w.sent ++ req ∷ []
  unfolding exchange read_reply fetch with_timer
  exchange-sent req w = ground arith

  pub exchange-LeavesAlone : (req : Request) (w : World) → LeavesAlone w (exchange env req w).1
  unfolding exchange read_reply fetch with_timer
  exchange-LeavesAlone req w = ground arith

  pub exchange-value :
      (req : Request) (w : World)
      → (exchange env req w).0 ≡ done (reply_value env (env.reply w.step req))
  unfolding exchange read_reply fetch with_timer
  exchange-value req w = ground arith

  pub succeeds-sent : (req : Request) (w : World) → (succeeds env req w).1.sent ≡ w.sent ++ req ∷ []
  unfolding succeeds fetch with_timer
  succeeds-sent req w = ground arith

  pub succeeds-step : (req : Request) (w : World) → (succeeds env req w).1.step ≡ suc w.step
  unfolding succeeds fetch with_timer
  succeeds-step req w = ground arith

  pub succeeds-LeavesAlone : (req : Request) (w : World) → LeavesAlone w (succeeds env req w).1
  unfolding succeeds fetch with_timer
  succeeds-LeavesAlone req w = ground arith

  pub succeeds-value :
      (req : Request) (w : World) → (succeeds env req w).0 ≡ done (reply_ok (env.reply w.step req))
  unfolding succeeds fetch with_timer
  succeeds-value req w = ground arith

module _ (env : Env) (config : AmmConfig) (path : Text) (payload : Fields) (ms : ℕ)
    (w : World) where
  abbrev pub posted : Request
  posted = request config "POST" (config.api_url ++ path) (some (env.stringify (obj payload))) ms

  -- Without an API URL nothing is sent, the result is `{}` and there is one more warning.
  pub post_json_unconfigured :
      is_empty config.api_url ≡ true
      → post_json env config path payload ms w
        ≡ (done empty_object, record w { warnings = suc w.warnings })
  unfolding post_json warn
  post_json_unconfigured h = ground arith

  -- With an API URL one POST is sent, no timer stays pending, nothing else changes, and the result
  -- is the parsed body of a successful reply, or `{}` on every failure; it never throws.
  pub post_json_configured :
      is_empty config.api_url ≡ false
      → ((post_json env config path payload ms w).0
          ≡ done (reply_value env (env.reply w.step posted)))
        × ((post_json env config path payload ms w).1.sent ≡ w.sent ++ posted ∷ [])
        × LeavesAlone w (post_json env config path payload ms w).1
  unfolding post_json
  post_json_configured h =
      rw h
        (exchange-value env posted w, exchange-sent env posted w, exchange-LeavesAlone env posted w)

  -- Whatever happens, a POST leaves the files, the timers and the snapshots alone.
  pub post_json-LeavesAlone : LeavesAlone w (post_json env config path payload ms w).1
  unfolding post_json warn
  post_json-LeavesAlone = elim (Bool-cases (is_empty config.api_url)) [
    | inl off ↦ rw off (ground arith)
    | inr on ↦ rw on (exchange-LeavesAlone env posted w)
  ]

  -- A POST never throws.
  pub post_json_done : (v : Json) × ((post_json env config path payload ms w).0 ≡ done v)
  unfolding post_json warn
  post_json_done = elim (Bool-cases (is_empty config.api_url)) [
    | inl off ↦ (empty_object, rw off refl)
    | inr on ↦ (reply_value env (env.reply w.step posted), rw on (exchange-value env posted w))
  ]
