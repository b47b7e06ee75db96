-- ===== src/OpenCode/Process.antt =====
-- amm.js, the processes: the `amm` that each ingested event starts, with the timers that end it, and
-- the `amm` that a tool waits for.
pub mod Phases
use agent_memory_manager.Base.{
  ℕ, suc, ◌+◌, ◌≤◌, ◌≡◌, String, Bool, true, false, not, ◌||◌, Option, none, some, List, [], ◌∷◌,
  ◌++◌, ◌==◌, if◌then◌else◌,
}
use agent_memory_manager.Base.Text.{Text, txt, is_empty}
use agent_memory_manager.Base.Json.{
  Json, str, obj, Fields, end, field, get_or, without_undefined, str_property,
}
use agent_memory_manager.Effects.{Env, Spawn, Spawned, M, pure, or_throw, ◌>>=◌, start_process}
use agent_memory_manager.OpenCode.Message.{Builtins}
use agent_memory_manager.OpenCode.State.{Ingest}

-- `process.env.AMM_BIN ?? "/usr/local/bin/amm"`
unfoldable pub amm_bin : (String → Option Text) → Text
amm_bin environ = get_or (environ "AMM_BIN") (txt "/usr/local/bin/amm")

-- `${process.env.HOME ?? "~"}/.amm/amm.db`
unfoldable pub default_db_path : (String → Option Text) → Text
default_db_path environ = get_or (environ "HOME") (txt "~") ++ txt "/.amm/amm.db"

-- `process.env.AMM_DB_PATH ?? …`
unfoldable pub db_path : (String → Option Text) → Text
unfolding default_db_path
db_path environ = get_or (environ "AMM_DB_PATH") (default_db_path environ)

abbrev pub amm_ingest_timeout_ms : ℕ
amm_ingest_timeout_ms = 5000

-- A process that is started and not waited for: what it is, what is written to its standard input
-- before that is closed, and after how long it is ended.
pub record Launch : Type 0 where
  pub command : Text
  pub args : List Text
  pub db_path : Text
  pub input : Option Text
  pub timeout_ms : ℕ

-- What `runAmmAsync` starts.
unfoldable pub launch : (String → Option Text) → List Text → Text → ℕ → Launch
unfolding amm_bin db_path
launch environ command input timeout_ms = record {
  command = amm_bin environ;
  args = command;
  db_path = db_path environ;
  input = if is_empty input then none else some input;
  timeout_ms = timeout_ms;
}

abbrev text_fields : List (String × Text) → Fields
text_fields [] = end
text_fields ((key, value) ∷ rest) = field key (str value) (text_fields rest)

-- The object that an event is, without its undefined properties, which are not printed.
unfoldable pub ingest_json : Ingest → Json
unfolding without_undefined
ingest_json event = obj (
    without_undefined (
      ("kind", some (str event.kind))
      ∷ ("source_system", some (str (txt "opencode")))
      ∷ ("session_id", str_property event.session_id)
      ∷ ("project_id", some (str event.project_id))
      ∷ ("actor_type", str_property event.actor_type)
      ∷ ("content", event.content)
      ∷ ("metadata", some (obj (text_fields event.metadata)))
      ∷ ("occurred_at", some (str event.occurred_at))
      ∷ []))

-- `ingestEvent`
unfoldable pub launch_ingest : Builtins → (String → Option Text) → Ingest → Launch
unfolding launch ingest_json
launch_ingest js environ event =
    launch environ (txt "ingest" ∷ txt "event" ∷ txt "--in" ∷ txt "-" ∷ [])
      (js.stringify (ingest_json event)) amm_ingest_timeout_ms

-- `result.error || result.status !== 0 || !result.stdout`
abbrev pub has_failed : Spawned → Bool
has_failed r =
    elim r.error [ none ↦ false | some message ↦ true ]
    || not (elim r.status [ none ↦ false | some code ↦ code == 0 ])
    || is_empty (get_or r.stdout [])

unfoldable pub sync_output : Env → Spawned → Json
sync_output env r =
    if has_failed r then obj end else get_or (env.parse (get_or r.stdout [])) (obj end)

-- `runAmmSync`
unfoldable pub run_amm_sync : Env → List Text → Option Text → M Json
unfolding sync_output amm_bin db_path
run_amm_sync env args stdin = do
  r ← start_process env (record {
    command = amm_bin env.environ;
    args = args;
    input = stdin;
    timeout_ms = 10000;
    db_path = db_path env.environ;
  })
  pure (sync_output env r)

pub data Signal : Type 0 where
  sigterm sigkill : Signal

-- A started process as the plugin sees it: when its two timers are due, the calls of `kill` so far
-- with their times, newest first, and whether it has ended.
pub record Child : Type 0 where
  pub term_due : Option ℕ
  pub kill_due : Option ℕ
  pub signals : List (ℕ × Signal)
  pub ended : Bool

unfoldable pub started : ℕ → ℕ → Child
started now timeout_ms = record {
  term_due = some (now + timeout_ms);
  kill_due = none;
  signals = [];
  ended = false;
}

-- The callback of the outer timer.
unfoldable pub on_term_timer : ℕ → Child → Child
on_term_timer now c = record c {
  term_due = none;
  kill_due = some (now + 2000);
  signals = (now, sigterm) ∷ c.signals;
}

-- The callback of the inner timer.
unfoldable pub on_kill_timer : ℕ → Child → Child
on_kill_timer now c = record c { kill_due = none; signals = (now, sigkill) ∷ c.signals }

-- The handler of the events `exit` and `error`.
unfoldable pub on_end : Child → Child
on_end c = record c { term_due = none; ended = true }

-- What may happen to a child at a time: a timer fires once it is due, or the child ends.
pub data Step (now : ℕ) (c : Child) : Child → Type 0 where
  term_fires : (due : ℕ) → c.term_due ≡ some due → due ≤ now → Step now c (on_term_timer now c)
  kill_fires : (due : ℕ) → c.kill_due ≡ some due → due ≤ now → Step now c (on_kill_timer now c)
  ends : Step now c (on_end c)

-- The states of a child that was started at a time, and the time of its last step.
pub data History (start timeout_ms : ℕ) : ℕ → Child → Type 0 where
  begun : History start timeout_ms start (started start timeout_ms)
  later :
      {before now : ℕ} {c d : Child}
      → History start timeout_ms before c
      → before ≤ now
      → Step now c d
      → History start timeout_ms now d
