-- ===== src/OpenClaw/Tests/World.antt =====
-- An environment in which no file operation fails and AMM accepts every request, a configuration,
-- and worlds in which two entries are recorded.
use agent_memory_manager.Base.{
  ℕ, zero, suc, ◌≡◌, ◌≢◌, refl, ap, ◌∙◌, true, false, Option, some, none, List, [], ◌∷◌, ◌++◌,
  append_assoc,
}
use mathlib.Core.Bool.{false≢true}
use mathlib.Core.Path.{sym}
use agent_memory_manager.Base.Text.{Text, txt, text_eq, text_eq_iff}
use agent_memory_manager.Base.Json.{Json, str, obj, field, end, as_string, prop}
use agent_memory_manager.OpenClaw.Config.{AmmConfig, default_recall_limit}
use agent_memory_manager.Effects.{Env, World, SyncRecord, MapFile, records, response, put}
use agent_memory_manager.OpenClaw.Curated.Entries.{memory, user, newline, extract_memory_id}
use agent_memory_manager.OpenClaw.Curated.Store.{map_path, queue_path, curated_file_path}
use agent_memory_manager.OpenClaw.Curated.Calm.{IsCalm}
use agent_memory_manager.OpenClaw.Curated.Add.{IsAccepting}

-- A text as units that are each announced by a 1, with a 0 at the end.
print_text : Text → Text
print_text [] = 0 ∷ []
print_text (c ∷ s) = 1 ∷ c ∷ print_text s

unfoldable pub print_records : List SyncRecord → Text
unfolding print_text
print_records [] = []
print_records (r ∷ rs) =
    print_text r.target
    ++ (print_text r.scope
        ++ (print_text r.content
            ++ (print_text r.fingerprint
                ++ (print_text r.amm_memory_id
                    ++ (print_text r.project_id
                        ++ (print_text r.updated_at ++ print_records rs))))))

abbrev push : ℕ → List Text → List Text
push c [] = []
push c (t ∷ ts) = (c ∷ t) ∷ ts

parse_texts : Text → List Text
parse_texts [] = []
parse_texts (zero ∷ s) = [] ∷ parse_texts s
parse_texts (suc n ∷ []) = []
parse_texts (suc n ∷ c ∷ s) = push c (parse_texts s)

group : List Text → List SyncRecord
group (a ∷ b ∷ c ∷ d ∷ e ∷ f ∷ g ∷ ts) =
    record {
      target = a;
      scope = b;
      content = c;
      fingerprint = d;
      amm_memory_id = e;
      project_id = f;
      updated_at = g;
    }
    ∷ group ts
group ts = []

unfoldable pub parse_records : Text → Option MapFile
unfolding parse_texts group
parse_records s = some (records (group (parse_texts s)))

parse_texts-print : (t r : Text) → parse_texts (print_text t ++ r) ≡ t ∷ parse_texts r
unfolding parse_texts print_text
parse_texts-print [] r = refl
parse_texts-print (c ∷ t) r = rw (parse_texts-print t r)

group-print : (rs : List SyncRecord) → group (parse_texts (print_records rs ++ newline)) ≡ rs
unfolding print_records group
group-print [] = unfold parse_texts in refl
group-print (r ∷ rs) = simp (append_assoc, parse_texts-print) (ap (λ ts. r ∷ ts) (group-print rs))

codec : (rs : List SyncRecord) → parse_records (print_records rs ++ newline) ≡ some (records rs)
unfolding parse_records
codec rs = ap (λ l. some (records l)) (group-print rs)

abbrev pub accepted : Json
accepted = obj (field "id" (str (txt "m")) end)

abbrev pub env : Env
env = record {
  reply = λ n req. response true (some (txt "{}"));
  fault = λ n. false;
  partial = λ n. none;
  now = λ n. txt "2026-01-02T03:04:05.678Z";
  random = λ n. txt "ab";
  environ = λ name. none;
  join_path = λ dir name. dir ++ txt "/" ++ name;
  dirname = λ path. txt "/s";
  sha256 = λ s. s;
  encode_uri = λ s. some s;
  stringify = λ v. txt "{}";
  parse = λ s. some accepted;
  print_map = print_records;
  parse_map = parse_records;
  number_text = λ n. txt "5";
  object_text = λ v. some (txt "[object Object]");
  fixed_two = λ v. some (txt "0.50");
  iso_of_number = λ n. some (txt "2026-01-02T03:04:05.678Z");
  iso_of_text = λ s. some s;
  spawn = λ n p.
      some (record { error = none; status = some 0; stdout = some (txt "{}"); stderr = some [] });
  spawn_files = λ n p files. put files p.db_path (some p.command);
}

abbrev pub config : AmmConfig
config = record {
  amm_bin = txt "amm";
  db_path = txt "/d";
  api_url = txt "http://a/v1";
  api_key = [];
  project_id = txt "p";
  recall_limit = default_recall_limit;
  sync_curated_memory = true;
  curated_project_id = [];
  memory_scope = txt "project";
  user_scope = txt "global";
  memory_type = txt "fact";
  user_type = txt "preference";
  state_dir = txt "/s";
}

pub text_ne : (s t : Text) → text_eq s t ≡ false → s ≢ t
text_ne s t h e = false≢true (sym h ∙ (text_eq_iff s t).1 e)

pub calm : IsCalm env config
unfolding txt text_eq map_path queue_path curated_file_path
calm = record {
  no_fault = λ n. refl;
  codec = codec;
  map_tmp_fresh =
      λ n. (text_ne _ _ refl, (text_ne _ _ refl, (text_ne _ _ refl, (text_ne _ _ refl, tt))));
  queue_tmp_fresh =
      λ n. (text_ne _ _ refl, (text_ne _ _ refl, (text_ne _ _ refl, (text_ne _ _ refl, tt))));
  map_ne_queue = text_ne _ _ refl;
  map_ne_curated = elim [ memory ↦ text_ne _ _ refl | user ↦ text_ne _ _ refl ];
  queue_ne_curated = elim [ memory ↦ text_ne _ _ refl | user ↦ text_ne _ _ refl ];
}

pub accepting : IsAccepting env
unfolding txt extract_memory_id as_string prop
accepting n req = (b'm', [], refl)

-- A record of the curated memory file, with an identifier.
abbrev pub stored : Text → Text → SyncRecord
stored content id = record {
  target = txt "memory";
  scope = txt "project";
  content = content;
  fingerprint = content;
  amm_memory_id = id;
  project_id = txt "p";
  updated_at = txt "then";
}

-- MEMORY.md holds a text, the map holds records, and the snapshot holds entries.
abbrev pub world : Text → List SyncRecord → List Text → World
world file rs entries = record {
  files =
      put (put (λ q. none) (curated_file_path env memory) (some file)) (map_path env config)
        (some (print_records rs ++ newline));
  step = 0;
  sent = [];
  timers = 0;
  warnings = 0;
  spawned = [];
  memory_snapshot = entries;
  user_snapshot = [];
}

abbrev pub two_records : List SyncRecord
two_records = stored (txt "a") (txt "m1") ∷ stored (txt "b") (txt "m2") ∷ []

-- Both entries have been replaced.
abbrev pub replaced : World
replaced = world (b'c' ∷ b'\n' ∷ 0xa7 ∷ b'\n' ∷ b'd' ∷ []) two_records (txt "a" ∷ txt "b" ∷ [])

-- One entry has come.
abbrev pub extended : World
extended = world (txt "c") [] []

-- The second entry has been replaced, and the second has gone.
abbrev pub edited : World
edited = world (b'a' ∷ b'\n' ∷ 0xa7 ∷ b'\n' ∷ b'd' ∷ []) two_records (txt "a" ∷ txt "b" ∷ [])
