-- ===== src/OpenCode/HttpPlugin/Session.antt =====
-- amm-http-plugin.ts: what a session start sends, and which failures reach its caller.
use agent_memory_manager.Base.{suc, ◌≡◌, Option, none, some, [], ◌∷◌, ◌++◌, append_assoc, arith}
use agent_memory_manager.Base.Text.{Text, txt}
use agent_memory_manager.Base.Json.{Json, null, prop}
use agent_memory_manager.Effects.{
  Env, World, Request, Reply, refused, response, Res, done, threw, fetch,
}
use agent_memory_manager.OpenCode.HttpPlugin.{
  Config, post, start_payload, ambient_payload, on_session_start,
}

-- What the reply to the recall is worth: the `data` of its body, whatever its status is, and an
-- error where there is no reply, no text, no JSON or only `null`.
abbrev pub recalled : Env → Reply → Res (Option Json)
recalled env refused = threw
recalled env (response ok none) = threw
recalled env (response ok (some text)) = elim (env.parse text) [
  | none ↦ threw
  | some null ↦ threw
  | some body ↦ done (prop "data" body)
]

module _ (env : Env) (config : Config) (cwd : Text) (w : World) where
  abbrev pub start_request : Request
  start_request = post env config (txt "/v1/events") (start_payload config cwd)

  abbrev pub recall_request : Request
  recall_request = post env config (txt "/v1/recall") (ambient_payload config)

  -- A session start sends its event and then its recall, whatever becomes of the event; it ends
  -- with the data of the reply to the recall, or throws where that reply is unusable, and changes
  -- no file.
  pub on_session_start_lem :
      ((on_session_start env config cwd w).1.sent ≡ w.sent ++ start_request ∷ recall_request ∷ [])
      × ((on_session_start env config cwd w).0
          ≡ recalled env (env.reply (suc w.step) recall_request))
      × ((on_session_start env config cwd w).1.files ≡ w.files)
  unfolding on_session_start fetch
  on_session_start_lem =
      ground (arith, append_assoc w.sent (start_request ∷ []) (recall_request ∷ []))
