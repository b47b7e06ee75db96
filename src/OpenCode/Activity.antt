-- ===== src/OpenCode/Activity.antt =====
-- Idle events follow activity: nothing that the plugin ingests while a session is idle makes it
-- ingest another idle event.
use agent_memory_manager.Base.{
  ℕ, ◌+◌, ◌≡◌, ◌≢◌, refl, Bool, true, false, ◌&&◌, Option, some, List, [], ◌∷◌, ltb, if◌then◌else◌,
  Bool-cases, inl, inr,
}
use mathlib.Core.Path.{sym, ◌∙◌}
use agent_memory_manager.Base.Text.{Text, txt, text_eq, text_eq_refl}
use agent_memory_manager.Base.Json.{get_or}
use agent_memory_manager.OpenCode.Message.{Builtins, Event}
use agent_memory_manager.OpenCode.State.{
  State, Ingest, HookCall, unknown, key_eq, map_set, ingest_event, idle_throttle_ms,
}
use agent_memory_manager.OpenCode.Hooks.{on_idle, call, run, init}
use agent_memory_manager.OpenCode.Steps.{
  is_idle, is_active, IsActivityKey, Change, unchanged, active, passive, idle, call-Change,
}
use agent_memory_manager.OpenCode.Maps.{key_eq_iff, map_set_self, map_set-other}

-- Reading the log from its newest event: behind each idle event of the session, and before the next
-- one, there is an event of its activity. `pending` says that one is still owed.
unfoldable pub IsFed : Option Text → Bool → List (ℕ × Ingest) → Type 0
IsFed key pending [] = pending ≡ false
IsFed key pending ((t, i) ∷ log) =
    if is_idle i.kind && key_eq i.session_id key
    then (pending ≡ false) × IsFed key true log
    else if is_active i.kind && key_eq i.session_id key
    then IsFed key false log
    else IsFed key pending log

record HasActivity (key : Option Text) (s : State) : Type 0 where
  fed : IsFed key false s.ingested
  flagged : get_or (s.activity key) false ≡ true → IsFed key true s.ingested

IsFed-passive :
    (key : Option Text) (pending : Bool) (now : ℕ) (i : Ingest) (log : List (ℕ × Ingest))
    → is_idle i.kind ≡ false
    → (is_active i.kind && key_eq i.session_id key) ≡ false
    → IsFed key pending log
    → IsFed key pending ((now, i) ∷ log)
unfolding IsFed
IsFed-passive key pending now i log e f h = rw (e, f) h

IsFed-active :
    (key : Option Text) (pending : Bool) (now : ℕ) (i : Ingest) (log : List (ℕ × Ingest))
    → is_idle i.kind ≡ false
    → (is_active i.kind && key_eq i.session_id key) ≡ true
    → IsFed key false log
    → IsFed key pending ((now, i) ∷ log)
unfolding IsFed
IsFed-active key pending now i log e f h = rw (e, f) h

-- An activity that belongs to another session is remembered under another key.
other_key :
    (key k session : Option Text)
    → key ≢ some unknown
    → IsActivityKey k session
    → key_eq session key ≡ false
    → key_eq k key ≡ false
other_key key k session known belongs other = elim (Bool-cases (key_eq k key)) [
  | inr e ↦ e
  | inl e ↦
      let same = (key_eq_iff k key).0 e in
      elim belongs [ inl p ↦ absurd (cc (p, e, other)) | inr p ↦ absurd (known (sym same ∙ p)) ]
]

idle_not_active : is_active (txt "session_idle") ≡ false
unfolding txt text_eq
idle_not_active = refl

module _ (js : Builtins) (project_id : Text) (key : Option Text) (known : key ≢ some unknown) where
  -- An idle event that passes the throttle, for the session itself and for another.
  idle_ingested :
      (now : ℕ) (i : Ingest) (k : Option Text) (s : State)
      → is_idle i.kind ≡ true
      → is_active i.kind ≡ false
      → i.session_id ≡ k
      → get_or (s.activity k) false ≡ true
      → HasActivity key s
      → HasActivity key (record s {
        last_idle = map_set s.last_idle k now;
        activity = map_set s.activity k false;
        ingested = (now, i) ∷ s.ingested;
      })
  unfolding IsFed
  idle_ingested now i k s kind quiet session fresh h = elim (Bool-cases (key_eq k key)) [
    | inl same ↦
        let k_key = (key_eq_iff k key).0 same in
        record {
          fed = rw (kind, session, same) (refl, h.flagged (rw k_key at fresh));
          flagged = λ f. absurd (cc (f, k_key, map_set_self s.activity k false));
        }
    | inr other ↦ record {
      fed = rw (kind, quiet, session, other) h.fed;
      flagged = λ f.
          rw (kind, quiet, session, other)
            (h.flagged (rw (map_set-other s.activity k key false other) at f));
    }
  ]

  on_idle-HasActivity :
      (now : ℕ) (event : Event) (k : Option Text) (s : State)
      → HasActivity key s
      → HasActivity key (on_idle js project_id now event k s)
  unfolding on_idle ingest_event
  on_idle-HasActivity now event k s h =
      elim (Bool-cases (ltb now (get_or (s.last_idle k) 0 + idle_throttle_ms))) [
        | inl early ↦ rw early h
        | inr due ↦ elim (Bool-cases (get_or (s.activity k) false)) [
          | inr quiet ↦ rw (due, quiet) (record { fed = h.fed; flagged = h.flagged })
          | inl fresh ↦
              rw (due, fresh)
                (idle_ingested now _ k s (text_eq_refl (txt "session_idle")) idle_not_active refl
                  fresh h)
        ]
      ]

  Change-HasActivity :
      (now : ℕ) {s t : State} → Change js project_id now s t → HasActivity key s → HasActivity key t
  Change-HasActivity now (unchanged e) h = rw e h
  Change-HasActivity now {s} (active k i emitted a p belongs e) h =
      rw e (elim (Bool-cases (key_eq i.session_id key)) [
        | inl mine ↦ record {
          fed = IsFed-active key false now i s.ingested p (rw (a, mine)) h.fed;
          flagged = λ _. IsFed-active key true now i s.ingested p (rw (a, mine)) h.fed;
        }
        | inr other ↦ record {
          fed = IsFed-passive key false now i s.ingested p (rw (a, other)) h.fed;
          flagged = λ f. IsFed-passive key true now i s.ingested p (rw (a, other)) (
              h.flagged (
                rw
                  (map_set-other s.activity k key true
                    (other_key key k i.session_id known belongs other))
                  at f));
        }
      ])
  Change-HasActivity now {s} (passive i a p e) h = rw e (
      unfold ingest_event in
      record {
        fed = IsFed-passive key false now i s.ingested p (rw a) h.fed;
        flagged = λ f. IsFed-passive key true now i s.ingested p (rw a) (h.flagged f);
      })
  Change-HasActivity now {s} (idle event k e) h = rw e (on_idle-HasActivity now event k s h)

  run-HasActivity :
      (calls : List (ℕ × HookCall)) (s : State)
      → HasActivity key s
      → HasActivity key (run js project_id calls s)
  unfolding run
  run-HasActivity [] s h = h
  run-HasActivity ((now, c) ∷ calls) s h =
      run-HasActivity calls (call js project_id now c s)
        (Change-HasActivity now (call-Change js project_id now c s) h)

  -- Whatever hooks are called, each idle event of a session was ingested after a message or tool
  -- call of that session that came after the session's idle event before it. The session is not
  -- named "unknown", under which the activity of messages without a session is remembered.
  pub idle_follows_activity :
      (calls : List (ℕ × HookCall)) → IsFed key false (run js project_id calls init).ingested
  idle_follows_activity calls =
      (run-HasActivity calls init
        (unfold IsFed in record { fed = refl; flagged = λ f. absurd (cc f) })).fed
