-- ===== src/OpenClaw/Curated/Entries.antt =====
-- curated-sync.ts, the pure helpers: the entries of a curated file, their descriptions, scopes and
-- fingerprints.
use agent_memory_manager.Base.{
  ℕ, ◌-◌, Bool, true, false, not, ◌&&◌, ◌||◌, Option, none, some, List, [], ◌∷◌, ◌++◌, map, leb,
  length, take, keep, if◌then◌else◌,
}
use agent_memory_manager.Base.Text.{
  Text, txt, is_empty, is_space, trim, trim_end, split, join, text_eq,
}
use agent_memory_manager.Base.Json.{Json, null, prop, as_string, or_else, get_or}
use agent_memory_manager.OpenClaw.Config.{AmmConfig}

pub data Target : Type 0 where
  memory user : Target

-- The string that a target is.
abbrev pub target_name : Target → Text
target_name memory = txt "memory"
target_name user = txt "user"

abbrev pub newline : Text
newline = b'\n' ∷ []

-- "\n§\n"
abbrev pub entry_delimiter : Text
entry_delimiter = b'\n' ∷ 0xa7 ∷ b'\n' ∷ []

abbrev pub max_tight_description : ℕ
max_tight_description = 120

unfoldable pub normalize_text : Text → Text
normalize_text value = trim (join newline (map trim_end (split (trim value) newline)))

abbrev pub not_empty : Text → Bool
not_empty s = not (is_empty s)

-- `s.replace(/\s+/g, " ")`; `run` says that the last unit was white space.
unfoldable pub squeeze : Bool → Text → Text
squeeze run [] = []
squeeze run (c ∷ s) = elim (is_space c) [
  | true ↦ let rest = squeeze true s in if run then rest else b' ' ∷ rest
  | false ↦ c ∷ squeeze false s
]

-- `lines[0] ?? fallback`
abbrev first_or : List Text → Text → Text
first_or [] fallback = fallback
first_or (line ∷ lines) fallback = line

-- The cut of a candidate that is too long; 0x2026 is the ellipsis.
unfoldable pub shorten : Text → Text
shorten candidate =
    if leb (length candidate) max_tight_description
    then candidate
    else trim_end (take (max_tight_description - 1) candidate) ++ 0x2026 ∷ []

-- The first line that is not blank, on which runs of white space are one space.
unfoldable pub first_line : Text → Text
unfolding squeeze
first_line content =
    let lines = keep not_empty (map trim (split content newline)) in
    squeeze false (first_or lines (trim content))

unfoldable pub tight_description : Text → Text
unfolding shorten first_line
tight_description content = shorten (first_line content)

-- What `fingerprint` feeds to the hash.
unfoldable pub fingerprint_input : Text → Text → Text → Text → Text
fingerprint_input target content scope project_id =
    target
    ++ (newline
        ++ (scope
            ++ (newline
                ++ ((if text_eq scope (txt "project") then project_id else [])
                    ++ (newline ++ content)))))

unfoldable pub fingerprint : (Text → Text) → Text → Text → Text → Text → Text
unfolding fingerprint_input
fingerprint sha256 target content scope project_id =
    sha256 (fingerprint_input target content scope project_id)

-- the configured scope, if it is one of the three that exist
abbrev pub is_scope : Text → Bool
is_scope s = text_eq s (txt "global") || text_eq s (txt "project") || text_eq s (txt "session")

abbrev configured_scope : AmmConfig → Target → Text
configured_scope config memory = config.memory_scope
configured_scope config user = config.user_scope

abbrev default_scope : Target → Text
default_scope memory = txt "project"
default_scope user = txt "global"

unfoldable pub curated_scope : AmmConfig → Target → Text → Text
curated_scope config target project_id =
    let configured = configured_scope config target in
    let scope = if is_scope configured then configured else default_scope target in
    if text_eq scope (txt "project") && is_empty project_id then txt "global" else scope

unfoldable pub curated_type : AmmConfig → Target → Text
curated_type config memory = config.memory_type
curated_type config user = config.user_type

unfoldable pub curated_subject : Target → Text
curated_subject memory = txt "openclaw_curated_memory"
curated_subject user = txt "openclaw_curated_user"

unfoldable pub curated_project_id : AmmConfig → Text
curated_project_id config =
    if is_empty config.curated_project_id then config.project_id else config.curated_project_id

-- `raw.split(ENTRY_DELIMITER).map(normalizeText).filter(…)`
unfoldable pub parse_entries : Text → List Text
unfolding normalize_text
parse_entries raw =
    if is_empty (trim raw)
    then []
    else keep not_empty (map normalize_text (split raw entry_delimiter))

-- The identifier inside a value that may be missing.
abbrev nested_id : Option Json → Option Text
nested_id none = none
nested_id (some v) = as_string (prop "id" v)

-- `none` is the error that a property of `null` throws.
unfoldable pub extract_memory_id : Json → Option Text
extract_memory_id null = none
extract_memory_id result = some (
    get_or
      (or_else (as_string (prop "id" result))
        (or_else (nested_id (prop "result" result)) (nested_id (prop "data" result))))
      [])
