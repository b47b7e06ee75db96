-- ===== src/OpenCode/Process/Phases.antt =====
-- runAmmAsync: which signals a child gets, and when.
use agent_memory_manager.Base.{ℕ, ◌+◌, ◌≤◌, ◌≡◌, refl, true, false, none, some, [], ◌∷◌, arith}
use agent_memory_manager.OpenCode.Process.{
  Child, sigterm, sigkill, started, on_term_timer, on_kill_timer, on_end, Step, term_fires,
  kill_fires, ends, History, begun, later,
}

-- Where a child stands at a time.
pub data Phase (start timeout_ms now : ℕ) (c : Child) : Type 0 where
  running :
      c.term_due ≡ some (start + timeout_ms)
      → c.kill_due ≡ none
      → c.signals ≡ []
      → c.ended ≡ false
      → Phase start timeout_ms now c
  ended_unsignalled :
      c.term_due ≡ none
      → c.kill_due ≡ none
      → c.signals ≡ []
      → c.ended ≡ true
      → Phase start timeout_ms now c
  terminated :
      (t : ℕ)
      → start + timeout_ms ≤ t
      → t ≤ now
      → c.term_due ≡ none
      → c.kill_due ≡ some (t + 2000)
      → c.signals ≡ (t, sigterm) ∷ []
      → Phase start timeout_ms now c
  killed :
      (t k : ℕ)
      → start + timeout_ms ≤ t
      → t + 2000 ≤ k
      → k ≤ now
      → c.term_due ≡ none
      → c.kill_due ≡ none
      → c.signals ≡ (k, sigkill) ∷ (t, sigterm) ∷ []
      → Phase start timeout_ms now c

ends-Phase :
    {start timeout_ms now : ℕ} {c : Child}
    → Phase start timeout_ms now c
    → Phase start timeout_ms now (on_end c)
unfolding on_end
ends-Phase (running a b s e) = ended_unsignalled refl b s refl
ends-Phase (ended_unsignalled a b s e) = ended_unsignalled refl b s refl
ends-Phase (terminated t l u a b s) = terminated t l u refl b s
ends-Phase (killed t d l m u a b s) = killed t d l m u refl b s

module _ {start timeout_ms now : ℕ} where
  term_fires-Phase :
      {c : Child} (due : ℕ)
      → Phase start timeout_ms now c
      → c.term_due ≡ some due
      → due ≤ now
      → Phase start timeout_ms now (on_term_timer now c)
  unfolding on_term_timer
  term_fires-Phase due (running a b s e) h k =
      terminated now (ground arith) (ground arith) refl refl (ground arith)
  term_fires-Phase due (ended_unsignalled a b s e) h k = ground arith
  term_fires-Phase due (terminated t l u a b s) h k = ground arith
  term_fires-Phase due (killed t d l m u a b s) h k = ground arith

  kill_fires-Phase :
      {c : Child} (due : ℕ)
      → Phase start timeout_ms now c
      → c.kill_due ≡ some due
      → due ≤ now
      → Phase start timeout_ms now (on_kill_timer now c)
  unfolding on_kill_timer
  kill_fires-Phase due (running a b s e) h k = ground arith
  kill_fires-Phase due (ended_unsignalled a b s e) h k = ground arith
  kill_fires-Phase due (terminated t l u a b s) h k =
      killed t now l (ground arith) (ground arith) a refl (ground arith)
  kill_fires-Phase due (killed t d l m u a b s) h k = ground arith

  Step-Phase :
      {c d : Child} → Step now c d → Phase start timeout_ms now c → Phase start timeout_ms now d
  Step-Phase (term_fires due h k) p = term_fires-Phase due p h k
  Step-Phase (kill_fires due h k) p = kill_fires-Phase due p h k
  Step-Phase ends p = ends-Phase p

-- A phase lasts while nothing happens.
Phase-later :
    {start timeout_ms before now : ℕ} {c : Child}
    → before ≤ now
    → Phase start timeout_ms before c
    → Phase start timeout_ms now c
Phase-later le (running a b s e) = running a b s e
Phase-later le (ended_unsignalled a b s e) = ended_unsignalled a b s e
Phase-later le (terminated t l u a b s) = terminated t l (ground arith) a b s
Phase-later le (killed t d l m u a b s) = killed t d l m (ground arith) a b s

-- Whatever happens to a started process and when, it is in one of four phases: it runs with its
-- timer pending and without a signal; it ended, at whatever time, without a signal, and no timer
-- is pending; it got SIGTERM alone, at some past time not before the timeout, and its second timer
-- is pending for two seconds after that; or it got SIGTERM, not before the timeout, and SIGKILL,
-- at some past time two seconds later at least, and no timer is pending.
pub History-Phase :
    {start timeout_ms now : ℕ} {c : Child}
    → History start timeout_ms now c
    → Phase start timeout_ms now c
unfolding started
History-Phase begun = running refl refl refl refl
History-Phase (later h le st) = Step-Phase st (Phase-later le (History-Phase h))
