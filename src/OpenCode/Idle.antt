-- ===== src/OpenCode/Idle.antt =====
-- Idle events of one session: how far they are apart, in whatever order and at whatever times the
-- hooks are called.
use agent_memory_manager.Base.{
  ℕ, ◌+◌, ◌≤◌, ◌≡◌, Bool, false, ◌&&◌, Option, some, none, List, [], ◌∷◌, arith, if◌then◌else◌,
  Bool-cases, inl, inr,
}
use mathlib.Core.Path.{subst, sym}
use agent_memory_manager.Base.Text.{Text, txt, text_eq, text_eq_refl}
use agent_memory_manager.Base.Json.{get_or}
use agent_memory_manager.OpenCode.Message.{Builtins, Event}
use agent_memory_manager.OpenCode.State.{
  State, Ingest, HookCall, key_eq, map_set, ingest_event, idle_throttle_ms,
}
use agent_memory_manager.OpenCode.Hooks.{on_idle, call, run, init}
use agent_memory_manager.OpenCode.Steps.{Change, unchanged, active, passive, idle, call-Change}
use agent_memory_manager.OpenCode.Maps.{key_eq_iff, key_eq_refl}

abbrev pub is_idle_of : Option Text → Ingest → Bool
is_idle_of key i = text_eq i.kind (txt "session_idle") && key_eq i.session_id key

-- The times of the idle events of a session, newest first.
unfoldable pub idle_times : Option Text → List (ℕ × Ingest) → List ℕ
idle_times key [] = []
idle_times key ((t, i) ∷ log) =
    let rest = idle_times key log in if is_idle_of key i then t ∷ rest else rest

-- Each time is at least `idle_throttle_ms` after the one before it.
abbrev pub IsSpaced : List ℕ → Type 0
IsSpaced [] = Unit
IsSpaced (t ∷ []) = Unit
IsSpaced (t ∷ u ∷ ts) = (u + idle_throttle_ms ≤ t) × IsSpaced (u ∷ ts)

-- The newest time is not after the one that is remembered.
abbrev IsRemembered : List ℕ → Option ℕ → Type 0
IsRemembered [] o = Unit
IsRemembered (t ∷ ts) none = ⊥
IsRemembered (t ∷ ts) (some u) = t ≤ u

record IsThrottled (key : Option Text) (s : State) : Type 0 where
  spaced : IsSpaced (idle_times key s.ingested)
  remembered : IsRemembered (idle_times key s.ingested) (s.last_idle key)

idle_times-other :
    (key : Option Text) (now : ℕ) (i : Ingest) (log : List (ℕ × Ingest))
    → text_eq i.kind (txt "session_idle") ≡ false
    → idle_times key ((now, i) ∷ log) ≡ idle_times key log
unfolding idle_times
idle_times-other key now i log h = rw h

-- One more idle event, at a time that the throttle lets through.
IsSpaced-cons :
    (now : ℕ) (ts : List ℕ) (last : Option ℕ)
    → IsSpaced ts
    → IsRemembered ts last
    → get_or last 0 + idle_throttle_ms ≤ now
    → IsSpaced (now ∷ ts)
IsSpaced-cons now [] last h r le = tt
IsSpaced-cons now (t ∷ ts) none h r le = absurd r
IsSpaced-cons now (t ∷ ts) (some u) h r le = (omega arith, h)

IsRemembered-later :
    (now : ℕ) (ts : List ℕ) (last : Option ℕ)
    → IsRemembered ts last
    → get_or last 0 + idle_throttle_ms ≤ now
    → IsRemembered ts (some now)
IsRemembered-later now [] last r le = tt
IsRemembered-later now (t ∷ ts) none r le = absurd r
IsRemembered-later now (t ∷ ts) (some u) r le = omega arith

module _ (js : Builtins) (project_id : Text) where
  on_idle_self :
      (key : Option Text) (now : ℕ) (event : Event) (s : State)
      → IsThrottled key s
      → IsThrottled key (on_idle js project_id now event key s)
  unfolding on_idle ingest_event map_set idle_times
  on_idle_self key now event s h =
      let ts = idle_times key s.ingested in
      let last = s.last_idle key in
      record {
        spaced = ground (
          arith,
          IsSpaced-cons now ts last h.spaced h.remembered,
          key_eq_refl key,
          text_eq_refl (txt "session_idle"),
        );
        remembered = ground (
          arith,
          IsRemembered-later now ts last h.remembered,
          key_eq_refl key,
          text_eq_refl (txt "session_idle"),
        );
      }

  on_idle-IsThrottled :
      (key : Option Text) (now : ℕ) (event : Event) (k : Option Text) (s : State)
      → IsThrottled key s
      → IsThrottled key (on_idle js project_id now event k s)
  unfolding on_idle ingest_event map_set idle_times
  on_idle-IsThrottled key now event k s h = elim (Bool-cases (key_eq k key)) [
    | inl same ↦
        subst (λ j. IsThrottled key (on_idle js project_id now event j s))
          (sym ((key_eq_iff k key).0 same)) (on_idle_self key now event s h)
    | inr other ↦ ground arith
  ]

  Change-IsThrottled :
      (key : Option Text) (now : ℕ) {s t : State}
      → Change js project_id now s t
      → IsThrottled key s
      → IsThrottled key t
  Change-IsThrottled key now (unchanged e) h = rw e h
  Change-IsThrottled key now {s} (active k i emitted a p w e) h = rw e (record {
    spaced = rw (idle_times-other key now i s.ingested p) h.spaced;
    remembered = rw (idle_times-other key now i s.ingested p) h.remembered;
  })
  Change-IsThrottled key now {s} (passive i a p e) h = rw e (
      unfold ingest_event in
      record {
        spaced = rw (idle_times-other key now i s.ingested p) h.spaced;
        remembered = rw (idle_times-other key now i s.ingested p) h.remembered;
      })
  Change-IsThrottled key now {s} (idle event k e) h = rw e (on_idle-IsThrottled key now event k s h)

  run-IsThrottled :
      (key : Option Text) (calls : List (ℕ × HookCall)) (s : State)
      → IsThrottled key s
      → IsThrottled key (run js project_id calls s)
  unfolding run
  run-IsThrottled key [] s h = h
  run-IsThrottled key ((now, c) ∷ calls) s h =
      run-IsThrottled key calls (call js project_id now c s)
        (Change-IsThrottled key now (call-Change js project_id now c s) h)

  -- Whatever hooks are called, at whatever times, the idle events of one session are ingested at
  -- times that are each at least a minute after the one before.
  pub idle-IsSpaced :
      (key : Option Text) (calls : List (ℕ × HookCall))
      → IsSpaced (idle_times key (run js project_id calls init).ingested)
  idle-IsSpaced key calls =
      (run-IsThrottled key calls init
        (unfold idle_times in record { spaced = tt; remembered = tt })).spaced
