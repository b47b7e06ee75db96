-- ===== src/OpenClaw/DualTransport/Modes.antt =====
-- transport.ts: with an API URL its own requests are those of transport-http.ts.
use agent_memory_manager.Base.{
  ℕ, ◌≡◌, refl, true, false, Option, append_assoc, arith, Option-cases, inl, inr, if◌then◌else◌,
}
use agent_memory_manager.Base.Text.{Text, txt, is_empty}
use agent_memory_manager.Base.Json.{Json, Fields}
use agent_memory_manager.OpenClaw.Config.{AmmConfig, use_http_api}
use agent_memory_manager.Effects.{
  Env, World, Request, Reply, refused, response, M, pure, or_throw, ◌>>=◌, try_catch, fetch,
  with_timer,
}
use agent_memory_manager.OpenClaw.Transport
use agent_memory_manager.OpenClaw.Transport.{SearchOptions, empty_object, exchange, read_reply}
use agent_memory_manager.OpenClaw.DualTransport
use agent_memory_manager.OpenClaw.DualTransport.Http

headers_same : (config : AmmConfig) → Http.http_headers config ≡ Transport.http_headers config
unfolding Http.http_headers Transport.http_headers
headers_same config = ground arith

module _ (env : Env) (req : Request) where
  -- The parsed body of a reply, as the blocks of transport.ts take it.
  abbrev parsed : M Json
  parsed = with_timer (
      try_catch
        (do
          reply ← fetch env req
          if reply.0
              then (do
                text ← or_throw reply.1
                if is_empty text then pure empty_object else or_throw (env.parse text))
              else pure empty_object)
        (pure empty_object))

  parsed_same : (w : World) → parsed w ≡ exchange env req w
  unfolding exchange read_reply fetch with_timer
  parsed_same w = go (env.reply w.step req) refl
    where
      go : (r : Reply) → env.reply w.step req ≡ r → parsed w ≡ exchange env req w
      go refused e = rw e refl
      go (response true text) e = rw e refl
      go (response false text) e = rw e refl

module _ (env : Env) (config : AmmConfig) (online : is_empty config.api_url ≡ false) where
  post_json_same :
      (path : Text) (payload : Fields) (ms : ℕ) (w : World)
      → Http.post_json env config path payload ms w
        ≡ Transport.post_json env config path payload ms w
  unfolding Http.post_json Transport.post_json
  post_json_same path payload ms w = rw (online, headers_same config) (parsed_same env _ w)

  memory_get_same :
      (id : Text) (w : World)
      → DualTransport.memory_get env config id w ≡ Transport.memory_get env config id w
  unfolding DualTransport.memory_get Transport.memory_get Transport.get_json use_http_api
  memory_get_same id w = elim (Option-cases (env.encode_uri id)) [
    | inl e ↦ rw (online, e) refl
    | inr (part, e) ↦
        rw (online, e, headers_same config, append_assoc config.api_url (txt "/memories/") part)
          (parsed_same env _ w)
  ]

  update_memory_same :
      (id : Text) (payload : Fields) (w : World)
      → DualTransport.update_memory env config id payload w
        ≡ Transport.update_memory env config id payload w
  unfolding DualTransport.update_memory Transport.update_memory Transport.succeeds use_http_api
  update_memory_same id payload w = elim (Option-cases (env.encode_uri id)) [
    | inl e ↦ rw (online, e) refl
    | inr (part, e) ↦ rw (online, e, headers_same config) refl
  ]

  forget_memory_same :
      (id : Text) (w : World)
      → DualTransport.forget_memory env config id w ≡ Transport.forget_memory env config id w
  unfolding DualTransport.forget_memory Transport.forget_memory Transport.succeeds use_http_api
  forget_memory_same id w = elim (Option-cases (env.encode_uri id)) [
    | inl e ↦ rw (online, e) refl
    | inr (part, e) ↦ rw (online, e, headers_same config) refl
  ]

  -- With an API URL, every operation of the dual transport, with its own headers, requests and
  -- payloads, does what that of the HTTP transport does, on every input: the same requests, result
  -- and world.
  pub dual_is_http :
      (event payload : Fields) (query id : Text) (opts : SearchOptions) (session_id : Option Text)
      (w : World)
      → (DualTransport.ingest_event env config event w ≡ Transport.ingest_event env config event w)
        × (DualTransport.memory_search env config query opts w
            ≡ Transport.memory_search env config query opts w)
        × (DualTransport.memory_get env config id w ≡ Transport.memory_get env config id w)
        × (DualTransport.remember_memory env config payload w
            ≡ Transport.remember_memory env config payload w)
        × (DualTransport.update_memory env config id payload w
            ≡ Transport.update_memory env config id payload w)
        × (DualTransport.forget_memory env config id w ≡ Transport.forget_memory env config id w)
        × (DualTransport.recall env config query session_id w
            ≡ Transport.recall env config query session_id w)
  unfolding DualTransport.ingest_event Transport.ingest_event DualTransport.memory_search
      Transport.memory_search DualTransport.remember_memory Transport.remember_memory
      DualTransport.recall Transport.recall use_http_api Http.search_payload
      Transport.search_payload Http.recall_payload Transport.recall_payload
  dual_is_http event payload query id opts session_id w = (
    rw (online, post_json_same (txt "/events") event 5000 w) refl,
    rw (online, post_json_same (txt "/recall") _ 10000 w) refl,
    memory_get_same id w,
    rw (online, post_json_same (txt "/memories") payload 10000 w) refl,
    update_memory_same id payload w,
    forget_memory_same id w,
    rw (online, post_json_same (txt "/recall") _ 10000 w) refl,
  )
