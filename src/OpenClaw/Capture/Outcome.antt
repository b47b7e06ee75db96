-- ===== src/OpenClaw/Capture/Outcome.antt =====
-- capture.ts: what capturing an event answers, and the world that it leaves.
use agent_memory_manager.Base.{
  ℕ, ◌≡◌, refl, ap, ◌∙◌, Option, some, none, [], ◌∷◌, arith, if◌then◌else◌, Option-cases, inl, inr,
}
use agent_memory_manager.Base.Text.{Text, txt}
use agent_memory_manager.Base.Json.{Fields, get_or}
use agent_memory_manager.OpenClaw.Config.{AmmConfig}
use agent_memory_manager.Effects.{Env, World, Res, done, pure, iso_now}
use agent_memory_manager.Effects.Rules.{>>=-done}
use agent_memory_manager.OpenClaw.Transport.{ingest_event, post_json}
use agent_memory_manager.OpenClaw.Transport.Requests.{LeavesAlone, post_json_done}
use agent_memory_manager.OpenClaw.Capture.{
  HookEvent, Kind, EventClassification, classify, is_hook, context_of, inbound_content,
  pick_inbound_content, capture_payload, ingest_classified, capture_classified, capture_event,
  iso_of, to_iso_timestamp, moment_of,
}

-- The text that an event brings in from the user: the content of a message that was preprocessed.
abbrev pub user_text : HookEvent → Option Text
user_text event =
    if is_hook event (txt "message") (txt "preprocessed")
    then pick_inbound_content (context_of event)
    else none

-- A text, unless it is empty.
abbrev pub unless_empty : Option Text → Option Text
unless_empty none = none
unless_empty (some []) = none
unless_empty (some (c ∷ s)) = some (c ∷ s)

abbrev answered : Option EventClassification → Option Text
answered none = none
answered (some c) = elim (unless_empty c.content) [
  | none ↦ none
  | some s ↦ inbound_content c.kind s
]

module _ (env : Env) (config : AmmConfig) (event : HookEvent) (w : World) where
  abbrev pub stamp : Res Text × World
  stamp = to_iso_timestamp env (moment_of event) w

  -- The time of an event, and the present where it has none that is valid.
  abbrev pub time : Text
  time = get_or (iso_of env (moment_of event)) (env.now w.step)

  stamped : stamp.0 ≡ done time
  unfolding to_iso_timestamp iso_now
  stamped = elim (Option-cases (iso_of env (moment_of event))) [
    | inl e ↦ rw e refl
    | inr (iso, e) ↦ rw e refl
  ]

  pub stamp-sent : stamp.1.sent ≡ w.sent
  unfolding to_iso_timestamp iso_now
  stamp-sent = elim (Option-cases (iso_of env (moment_of event))) [
    | inl e ↦ rw e refl
    | inr (iso, e) ↦ rw e refl
  ]

  pub stamp-LeavesAlone : LeavesAlone w stamp.1
  unfolding to_iso_timestamp iso_now
  stamp-LeavesAlone = elim (Option-cases (iso_of env (moment_of event))) [
    | inl e ↦ rw e (ground arith)
    | inr (iso, e) ↦ rw e (ground arith)
  ]

module _ (env : Env) (config : AmmConfig) (payload : Fields) (w : World) where
  ingest_event_eq :
      ingest_event env config payload w
      ≡ (done tt, (post_json env config (txt "/events") payload 5000 w).1)
  unfolding ingest_event
  ingest_event_eq =
      >>=-done (post_json env config (txt "/events") payload 5000) (λ _. pure tt) w _
        (post_json_done env config (txt "/events") payload 5000 w).1

module _ (env : Env) (config : AmmConfig) (event : HookEvent) (kind : Kind) (actor_type : Text)
    (c : ℕ) (s : Text) (w : World) where
  abbrev pub payload : Fields
  payload = capture_payload config event kind actor_type (c ∷ s) (time env config event w)

  -- An event with content: its time is taken, it is sent, and the user's text is the answer.
  pub ingest_classified_eq : ingest_classified env config event kind actor_type (some (c ∷ s)) w ≡ (
    done (inbound_content kind (c ∷ s)),
    (post_json env config (txt "/events") payload 5000 (stamp env config event w).1).1,
  )
  unfolding ingest_classified
  ingest_classified_eq =
      >>=-done (to_iso_timestamp env (moment_of event)) _ w _ (stamped env config event w)
      ∙ >>=-done (ingest_event env config payload) (λ _. pure (inbound_content kind (c ∷ s))) _ tt
          (ap (λ r. r.0) ingested)
      ∙ ap (λ r. (done (inbound_content kind (c ∷ s)), r.1)) ingested
    where
      ingested : ingest_event env config payload (stamp env config event w).1 ≡ (
        done tt,
        (post_json env config (txt "/events") payload 5000 (stamp env config event w).1).1,
      )
      ingested = ingest_event_eq env config payload (stamp env config event w).1

module _ (env : Env) (config : AmmConfig) (event : HookEvent) (w : World) where
  classified_answer :
      (c : EventClassification)
      → (ingest_classified env config event c.kind c.actor_type c.content w).0
        ≡ done (answered (some c))
  unfolding ingest_classified
  classified_answer c = go c.content refl
    where
      go :
          (content : Option Text)
          → c.content ≡ content
          → (ingest_classified env config event c.kind c.actor_type content w).0
            ≡ done (answered (some c))
      go none e = rw e refl
      go (some []) e = rw e refl
      go (some (x ∷ s)) e =
          rw e (ap (λ r. r.0) (ingest_classified_eq env config event c.kind c.actor_type x s w))

  capture_answer : (capture_event env config event w).0 ≡ done (answered (classify env event))
  unfolding capture_event
  capture_answer = go (classify env event)
    where
      go :
          (c : Option EventClassification)
          → (capture_classified env config event c w).0 ≡ done (answered c)
      go none = refl
      go (some c) = classified_answer c

  answered_user : answered (classify env event) ≡ unless_empty (user_text event)
  unfolding classify
  answered_user = ground arith

  -- Capturing an event never throws, and answers with the text that the event brings in from the
  -- user.
  pub capture_event_answer :
      (capture_event env config event w).0 ≡ done (unless_empty (user_text event))
  capture_event_answer = capture_answer ∙ ap done answered_user
