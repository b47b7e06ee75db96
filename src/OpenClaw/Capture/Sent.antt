-- ===== src/OpenClaw/Capture/Sent.antt =====
-- capture.ts: what capturing an event sends.
use mathlib.Core.Path.{sym}
use agent_memory_manager.Base.{
  ℕ, ◌≡◌, refl, ◌∙◌, true, false, Option, some, none, [], ◌∷◌, ◌++◌, arith,
}
use agent_memory_manager.Base.Text.{Text, txt, is_empty}
use agent_memory_manager.Base.Json.{Fields}
use agent_memory_manager.OpenClaw.Config.{AmmConfig}
use agent_memory_manager.Effects.{Env, World}
use agent_memory_manager.OpenClaw.Transport.Requests.{LeavesAlone, posted, post_json_configured}
use agent_memory_manager.OpenClaw.Capture.{
  HookEvent, Kind, EventClassification, classify, capture_event, kind_name, ingest_classified,
  capture_classified,
}
use agent_memory_manager.OpenClaw.Capture.Outcome.{
  time, stamp, stamp-sent, stamp-LeavesAlone, ingest_classified_eq, payload,
}
use agent_memory_manager.OpenClaw.Capture.Captured.{
  IsCaptured, Sound, content_of, classify-Sound, classify_complete,
}
use agent_memory_manager.OpenClaw.Capture.Payload.{Describes, payload-Describes}

-- What capturing an event does to the world: nothing, where the event has no content that is to be
-- recorded, or one request, with a payload that describes the event.
pub data Capture (env : Env) (config : AmmConfig) (event : HookEvent) (u w : World) : Type 0 where
  ignored :
      ((kind actor content : Text)
        → IsCaptured env event kind actor content
        → is_empty content ≡ true)
      → w ≡ u
      → Capture env config event u w
  sent :
      {kind actor content : Text} (payload : Fields)
      → IsCaptured env event kind actor content
      → is_empty content ≡ false
      → Describes config event kind actor content (time env config event u) payload
      → w.sent ≡ u.sent ++ posted env config (txt "/events") payload 5000 u ∷ []
      → LeavesAlone u w
      → Capture env config event u w

LeavesAlone-trans : (u v w : World) → LeavesAlone u v → LeavesAlone v w → LeavesAlone u w
LeavesAlone-trans u v w a b = record {
  files = b.files ∙ a.files;
  timers = b.timers ∙ a.timers;
  memory_snapshot = b.memory_snapshot ∙ a.memory_snapshot;
  user_snapshot = b.user_snapshot ∙ a.user_snapshot;
}

lacks : {x : Text} → none ≡ some x → is_empty x ≡ true
lacks e = ground arith

void : {x : Text} → some [] ≡ some x → is_empty x ≡ true
void e = ground arith

module _ (env : Env) (config : AmmConfig) (event : HookEvent) (w : World)
    (online : is_empty config.api_url ≡ false) where
  -- An event whose classification has no content to send.
  nothing-Capture :
      ((x : Text) → content_of env event (classify env event) ≡ some x → is_empty x ≡ true)
      → Capture env config event w w
  nothing-Capture empty =
      ignored (λ kind actor x captured. empty x (classify_complete env event captured)) refl

  something-Capture :
      (kind : Kind) (actor : Text) (c : ℕ) (s : Text)
      → IsCaptured env event (kind_name kind) actor (c ∷ s)
      → Capture env config event w
          (ingest_classified env config event kind actor (some (c ∷ s)) w).1
  something-Capture kind actor c s captured =
      let payload = payload env config event kind actor c s w in
      let sent_there =
        post_json_configured env config (txt "/events") payload 5000 (stamp env config event w).1
          online in
      sent payload captured refl (payload-Describes config event kind actor (c ∷ s) _)
        (rw (ingest_classified_eq env config event kind actor c s w)
          (sent_there.1 ∙ rw (stamp-sent env config event w) refl))
        (rw (ingest_classified_eq env config event kind actor c s w)
          (LeavesAlone-trans w _ _ (stamp-LeavesAlone env config event w) sent_there.2))

  classified-Capture :
      (c : EventClassification) (content : Option Text)
      → classify env event ≡ some c
      → Sound env event (some c)
      → c.content ≡ content
      → Capture env config event w
          (ingest_classified env config event c.kind c.actor_type content w).1
  unfolding ingest_classified
  classified-Capture c none found sound e = nothing-Capture (λ x h. lacks (sym e ∙ rw found at h))
  classified-Capture c (some []) found sound e =
      nothing-Capture (λ x h. void (sym e ∙ rw found at h))
  classified-Capture c (some (x ∷ s)) found sound e =
      something-Capture c.kind c.actor_type x s (sound (x ∷ s) e)

  -- With an API URL, capturing an event leaves the world as it is if the event is none of a
  -- received or sent message and a called or completed tool or function, or has no content.
  -- Otherwise it sends one POST to /events, whose payload has the kind, the actor and the content
  -- of that event, its session, project and time, and metadata with its hook and its tool; no
  -- timer stays pending, and files and snapshots are untouched.
  pub capture_event_sends : Capture env config event w (capture_event env config event w).1
  unfolding capture_event
  capture_event_sends = go (classify env event) refl (classify-Sound env event)
    where
      go :
          (c : Option EventClassification)
          → classify env event ≡ c
          → Sound env event c
          → Capture env config event w (capture_classified env config event c w).1
      go none found sound = nothing-Capture (λ x h. lacks (rw found at h))
      go (some c) found sound = classified-Capture c c.content found sound refl
