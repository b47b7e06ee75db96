-- ===== src/OpenClaw/DualTransport/Local.antt =====
-- transport.ts: without an API URL the `amm` binary does the work.
use agent_memory_manager.Base.{
  ◌≡◌, refl, ◌∙◌, true, Option, some, none, List, [], ◌∷◌, ◌++◌, Option-cases, inl, inr,
}
use agent_memory_manager.Base.Text.{Text, txt, is_empty}
use agent_memory_manager.Base.Json.{Fields, obj}
use agent_memory_manager.OpenClaw.Config.{AmmConfig, use_http_api}
use agent_memory_manager.Effects.{
  Env, Spawn, World, Res, done, threw, M, tick, start_process, pure, or_throw, ◌>>=◌,
}
use agent_memory_manager.OpenClaw.Transport.{SearchOptions}
use agent_memory_manager.OpenClaw.DualTransport
use agent_memory_manager.OpenClaw.DualTransport.{
  BinaryResult, amm_process, run_amm, json_output, run_amm_json,
}
use agent_memory_manager.OpenClaw.DualTransport.Arguments.{remember_arguments, update_arguments}

-- A run of the configured binary on the configured database, for ten seconds at most, with a
-- command and a standard input.
pub record IsAmm (config : AmmConfig) (verb : Text) (stdin : Option Text) (p : Spawn) : Type 0 where
  pub command : p.command ≡ config.amm_bin
  pub args : (rest : List Text) × (p.args ≡ verb ∷ rest)
  pub input : p.input ≡ stdin
  pub db_path : p.db_path ≡ config.db_path
  pub timeout_ms : p.timeout_ms ≡ 10000

-- The world after one process, whatever that did to the files.
abbrev pub ran : Env → Spawn → World → World
ran env p w = record (tick w) {
  files = env.spawn_files w.step p w.files;
  spawned = w.spawned ++ p ∷ [];
}

-- How an operation ends without an API URL: it throws and has done nothing, or it has run the
-- binary once, with its command, and done no more.
pub data IsLocal {A : Type 0} (env : Env) (config : AmmConfig) (verb : Text) (stdin : Option Text)
    (u : World) (out : Res A × World) : Type 0 where
  unstarted : out ≡ (threw, u) → IsLocal env config verb stdin u out
  started :
      (p : Spawn)
      → IsAmm config verb stdin p
      → out.1 ≡ ran env p u
      → IsLocal env config verb stdin u out

module _ (env : Env) (config : AmmConfig) (verb : Text) (stdin : Option Text) (w : World) where
  run_amm-IsLocal :
      (rest : List Text)
      → IsLocal env config verb stdin w (run_amm env config (verb ∷ rest) stdin w)
  unfolding run_amm start_process
  run_amm-IsLocal rest = elim (Option-cases (env.spawn w.step p)) [
    | inl e ↦ started p amm (rw e refl)
    | inr (r, e) ↦ started p amm (rw e refl)
  ]
    where
      p : Spawn
      p = amm_process config (verb ∷ rest) stdin

      amm : IsAmm config verb stdin p
      amm = record {
        command = refl;
        args = (rest, refl);
        input = refl;
        db_path = refl;
        timeout_ms = refl;
      }

  -- What follows a run and only reads its result changes nothing.
  mapped-IsLocal :
      {A B : Type 0} (m : M A) (f : A → B)
      → IsLocal env config verb stdin w (m w)
      → IsLocal env config verb stdin w ((m >>= λ a. pure (f a)) w)
  mapped-IsLocal m f (unstarted e) = unstarted (rw e refl)
  mapped-IsLocal {A = A} m f (started p a e) = started p a (world (m w).0 (m w).1 ∙ e)
    where
      world : (r : Res A) (v : World) → (((λ u. (r, u)) >>= λ a. pure (f a)) v).1 ≡ v
      world (done a) v = refl
      world threw v = refl

  read-IsLocal :
      {A : Type 0} (rest : List Text) (f : BinaryResult → A)
      → IsLocal env config verb stdin w
          ((run_amm env config (verb ∷ rest) stdin >>= λ r. pure (f r)) w)
  read-IsLocal rest f =
      mapped-IsLocal (run_amm env config (verb ∷ rest) stdin) f (run_amm-IsLocal rest)

  run_amm_json-IsLocal :
      (rest : List Text)
      → IsLocal env config verb stdin w (run_amm_json env config (verb ∷ rest) stdin w)
  unfolding run_amm_json
  run_amm_json-IsLocal rest = read-IsLocal rest (json_output env)

  -- An operation whose arguments may throw.
  argued-IsLocal :
      {A : Type 0} (args : Option (List Text)) (m : List Text → M A)
      → ((rest : List Text) → IsLocal env config verb stdin w (m rest w))
      → IsLocal env config verb stdin w ((or_throw args >>= m) w)
  argued-IsLocal none m local = unstarted refl
  argued-IsLocal (some rest) m local = local rest

module _ (env : Env) (config : AmmConfig) where
  -- Without an API URL an operation of the dual transport either throws and has done nothing, or
  -- has started one process and changed nothing else but what that process did to the files: the
  -- configured binary with the configured database, ten seconds and the command of the operation,
  -- and with the printed event as its standard input where an event is ingested, and none
  -- otherwise.
  pub dual-IsLocal :
      is_empty config.api_url ≡ true
      → (event payload : Fields) (query id : Text) (opts : SearchOptions) (session_id : Option Text)
        (w : World)
      → IsLocal env config
          (txt "ingest")
          (some (env.stringify (obj event)))
          w
          (DualTransport.ingest_event env config event w)
        × IsLocal env config
            (txt "recall")
            none
            w
            (DualTransport.memory_search env config query opts w)
        × IsLocal env config (txt "get-memory") none w (DualTransport.memory_get env config id w)
        × IsLocal env config
            (txt "remember")
            none
            w
            (DualTransport.remember_memory env config payload w)
        × IsLocal env config
            (txt "memory")
            none
            w
            (DualTransport.update_memory env config id payload w)
        × IsLocal env config (txt "forget") none w (DualTransport.forget_memory env config id w)
        × IsLocal env config
            (txt "recall")
            none
            w
            (DualTransport.recall env config query session_id w)
  unfolding DualTransport.ingest_event DualTransport.memory_search DualTransport.memory_get
      DualTransport.remember_memory DualTransport.update_memory DualTransport.forget_memory
      DualTransport.recall use_http_api
  dual-IsLocal offline event payload query id opts session_id w = (
    rw offline (read-IsLocal env config _ _ w (txt "event" ∷ txt "--in" ∷ txt "-" ∷ []) (λ r. tt)),
    rw offline (run_amm_json-IsLocal env config _ _ w _),
    rw offline (run_amm_json-IsLocal env config _ _ w _),
    rw offline (
        argued-IsLocal env config _ _ w (remember_arguments env payload) _
          (run_amm_json-IsLocal env config _ _ w)),
    rw offline (
        argued-IsLocal env config _ _ w (update_arguments env payload) _
          (λ rest. read-IsLocal env config _ _ w (txt "update" ∷ id ∷ rest) (λ r. r.ok))),
    rw offline (read-IsLocal env config _ _ w (id ∷ []) (λ r. r.ok)),
    rw offline (run_amm_json-IsLocal env config _ _ w _),
  )
