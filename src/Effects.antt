-- ===== src/Effects.antt =====
-- What the plugins and the release script do to the world around them: files, HTTP requests, timers,
-- processes, the clock. What that world answers is the environment `Env`, which every theorem leaves
-- open.
pub mod Rules
pub mod Keeps
use agent_memory_manager.Base.{
  ℕ, suc, ◌-◌, String, Bool, true, false, Option, none, some, List, [], ◌∷◌, ◌++◌, if◌then◌else◌,
}
use agent_memory_manager.Base.Text.{Text, txt, text_eq}
use agent_memory_manager.Base.Json.{Json, Number, null, bool, num, str, arr, obj}

pub record Request : Type 0 where
  pub method : String
  pub url : Text
  pub headers : List (String × Text)
  pub body : Option Text
  -- when a timer aborts the request, if there is one
  pub timeout_ms : Option ℕ

-- `refused`: `fetch` rejects (the network fails, or the timer aborts the request). In a response,
-- `none` for the text means that `response.text()` rejects.
pub data Reply : Type 0 where
  refused : Reply
  response : Bool → Option Text → Reply

-- A result, or a thrown error.
pub data Res {ℓ} (A : Type ℓ) : Type ℓ where
  done : A → Res A
  threw : Res A

-- A record of the curated map file.
pub record SyncRecord : Type 0 where
  pub target : Text
  pub scope : Text
  pub content : Text
  pub fingerprint : Text
  pub amm_memory_id : Text
  pub project_id : Text
  pub updated_at : Text

-- What the map file parses to: a value whose `records` is no array, or the array.
pub data MapFile : Type 0 where
  no_records : MapFile
  records : List SyncRecord → MapFile

-- A process that `spawnSync` is asked to start: the program, its arguments, its standard input, the
-- time limit, and `AMM_DB_PATH` in its environment.
pub record Spawn : Type 0 where
  pub command : Text
  pub args : List Text
  pub input : Option Text
  pub timeout_ms : ℕ
  pub db_path : Text

-- What `spawnSync` returns: the message of its error, the exit status (`none` is null), and the
-- output (`none` is null).
pub record Spawned : Type 0 where
  pub error : Option Text
  pub status : Option ℕ
  pub stdout : Option Text
  pub stderr : Option Text

-- The code that the sources call and do not contain. The oracles take the number of effects that
-- came before, so that any behaviour over time is one of them.
pub record Env : Type 0 where
  -- `fetch`: the reply to a request
  pub reply : ℕ → Request → Reply
  -- whether a file operation throws, and what a file holds after a write that threw
  pub fault : ℕ → Bool
  pub partial : ℕ → Option Text
  -- `new Date().toISOString()` and `randomBytes(8).toString("hex")`
  pub now : ℕ → Text
  pub random : ℕ → Text
  -- `process.env`
  pub environ : String → Option Text
  -- `join` and `dirname` of node:path
  pub join_path : Text → Text → Text
  pub dirname : Text → Text
  -- `createHash("sha256")` over the concatenation of what it is fed, as hexadecimal digits
  pub sha256 : Text → Text
  -- `encodeURIComponent`, which throws at a lone surrogate
  pub encode_uri : Text → Option Text
  -- `JSON.stringify` of a value; `JSON.parse`, where `none` is a syntax error
  pub stringify : Json → Text
  pub parse : Text → Option Json
  -- the same for the map file, with the shape that the source casts it to
  pub print_map : List SyncRecord → Text
  pub parse_map : Text → Option MapFile
  -- `String(n)` of a number, and of an array or an object, where `none` is a throw
  pub number_text : Number → Text
  pub object_text : Json → Option Text
  -- `Number(v).toFixed(2)`, where `none` is a throw
  pub fixed_two : Option Json → Option Text
  -- `new Date(v).toISOString()` of a number and of a string, where `none` is an invalid date
  pub iso_of_number : Number → Option Text
  pub iso_of_text : Text → Option Text
  -- `spawnSync`, where `none` is a throw, and the files once it has returned: the program that it
  -- runs may change any of them
  pub spawn : ℕ → Spawn → Option Spawned
  pub spawn_files : ℕ → Spawn → (Text → Option Text) → Text → Option Text

pub record World : Type 0 where
  pub files : Text → Option Text
  -- the effects so far, the requests so far, the timers that are pending, the warnings so far
  pub step : ℕ
  pub sent : List Request
  pub timers : ℕ
  pub warnings : ℕ
  -- the processes started so far
  pub spawned : List Spawn
  -- the module variable `snapshot` of curated-sync.ts
  pub memory_snapshot : List Text
  pub user_snapshot : List Text

abbrev pub M : Type 0 → Type 0
M A = World → Res A × World

abbrev pub pure : {A : Type 0} → A → M A
pure a w = (done a, w)

abbrev pub throw : {A : Type 0} → M A
throw w = (threw, w)

abbrev continue : {A B : Type 0} → Res A → (A → M B) → M B
continue (done a) f w = f a w
continue threw f w = (threw, w)

infixl 5 ◌>>=◌ ◌>>◌
abbrev pub ◌>>=◌ : {A B : Type 0} → M A → (A → M B) → M B
◌>>=◌ m f w = let (r, w') = m w in continue r f w'

abbrev pub ◌>>◌ : {B : Type 0} → M (Unit {0}) → M B → M B
m >> n = m >>= λ _. n

abbrev recover : {A : Type 0} → Res A → M A → M A
recover (done a) handler w = (done a, w)
recover threw handler w = handler w

-- `try { m } catch { handler }`
abbrev pub try_catch : {A : Type 0} → M A → M A → M A
try_catch m handler w = let (r, w') = m w in recover r handler w'

-- A value, or a throw where there is none.
abbrev pub or_throw : {A : Type 0} → Option A → M A
or_throw none = throw
or_throw (some a) = pure a

abbrev pub when : Bool → M (Unit {0}) → M (Unit {0})
when b m = if b then m else pure tt

-- `for (const x of xs) await body(x)`
unfoldable pub for_each : {A : Type 0} → List A → (A → M (Unit {0})) → M (Unit {0})
for_each [] body w = (done tt, w)
for_each (x ∷ xs) body w = (body x >> for_each xs body) w

abbrev pub tick : World → World
tick w = record w { step = suc w.step }

-- The files after `path` has been given a content, or has been removed.
unfoldable pub put : (Text → Option Text) → Text → Option Text → Text → Option Text
put files path content q = if text_eq path q then content else files q

-- `existsSync`
unfoldable pub exists : Text → M Bool
exists path w = elim (w.files path) [ none ↦ (done false, w) | some t ↦ (done true, w) ]

-- `String(v)`
unfoldable pub string_text : Env → Json → Option Text
string_text env null = some (txt "null")
string_text env (bool true) = some (txt "true")
string_text env (bool false) = some (txt "false")
string_text env (num n) = some (env.number_text n)
string_text env (str s) = some s
string_text env v = env.object_text v

module _ (env : Env) where
  -- A file operation that the environment lets fail before it does anything.
  abbrev guarded : {A : Type 0} → M A → M A
  guarded m w = if env.fault w.step then (threw, tick w) else m (tick w)

  -- `readFileSync(path, "utf-8")`
  unfoldable pub read_file : Text → M Text
  read_file path = guarded (λ w. or_throw (w.files path) w)

  -- `mkdirSync(dir, { recursive: true })`; directories are not part of the model.
  unfoldable pub make_dir : Text → M (Unit {0})
  make_dir dir = guarded (pure tt)

  -- `writeFileSync(path, content, "utf-8")`; a write that throws leaves some content or none.
  unfoldable pub write_file : Text → Text → M (Unit {0})
  write_file path content w =
      if env.fault w.step
      then (threw, record (tick w) { files = put w.files path (env.partial w.step) })
      else (done tt, record (tick w) { files = put w.files path (some content) })

  abbrev moved : Text → Text → Option Text → M (Unit {0})
  moved from to none w = (threw, w)
  moved from to (some t) w = (done tt, record w { files = put (put w.files to (some t)) from none })

  -- `renameSync(from, to)`
  unfoldable pub rename : Text → Text → M (Unit {0})
  rename from to = guarded (λ w. moved from to (w.files from) w)

  -- `unlinkSync(path)`
  unfoldable pub unlink : Text → M (Unit {0})
  unlink path = guarded (λ w.
      (or_throw (w.files path) >>= λ _ w'. (done tt, record w' { files = put w'.files path none }))
        w)

  unfoldable pub iso_now : M Text
  iso_now w = (done (env.now w.step), tick w)

  unfoldable pub random_hex : M Text
  random_hex w = (done (env.random w.step), tick w)

  abbrev answer : Reply → M (Bool × Option Text)
  answer refused w = (threw, w)
  answer (response ok text) w = (done (ok, text), w)

  -- `await fetch(…)`
  unfoldable pub fetch : Request → M (Bool × Option Text)
  fetch req w = answer (env.reply w.step req) (record (tick w) { sent = w.sent ++ req ∷ [] })

-- `spawnSync`
unfoldable pub start_process : Env → Spawn → M Spawned
start_process env p w =
    or_throw (env.spawn w.step p)
      (record (tick w) { files = env.spawn_files w.step p w.files; spawned = w.spawned ++ p ∷ [] })

-- `console.warn(…)`
unfoldable pub warn : M (Unit {0})
warn w = (done tt, record w { warnings = suc w.warnings })

-- A body between `setTimeout` and the `clearTimeout` of its `finally`.
unfoldable pub with_timer : {A : Type 0} → M A → M A
with_timer m w =
    let (r, w') = m (record w { timers = suc w.timers }) in
    (r, record w' { timers = w'.timers - 1 })
