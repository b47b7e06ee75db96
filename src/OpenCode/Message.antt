-- ===== src/OpenCode/Message.antt =====
-- amm.js, the helpers: what is taken from a message of any of the shapes that OpenCode sends.
use agent_memory_manager.Base.{
  ℕ, String, Bool, true, false, not, ◌&&◌, ◌||◌, Option, some, none, List, [], ◌∷◌, keep,
  if◌then◌else◌,
}
use text.Mathlib.Text.{◌==◌ as str_eq}
use agent_memory_manager.Base.Text.{
  Text, txt, is_empty, trim, join, text_eq, to_lower_case, includes,
}
use agent_memory_manager.Base.Json.{
  Number, Json, null, bool, num, str, arr, obj, Items, nil, cons, Fields, end, field, prop, or_else,
  get_or, times_thousand, is_milliseconds,
}

-- What the plugin uses of the language and does not contain.
pub record Builtins : Type 0 where
  -- `JSON.stringify(v)` and `String(v)`
  pub stringify : Json → Text
  pub to_text : Json → Text
  -- `Number(v)`
  pub to_number : Json → Number
  -- `new Date(v).toISOString()`, where `none` is an invalid date
  pub iso_date : Json → Option Text
  -- `new Date().toISOString()` at a time in milliseconds
  pub iso_now : ℕ → Text

-- `nowRfc3339(value)`, called at `now`
unfoldable pub now_rfc3339 : Builtins → ℕ → Json → Text
now_rfc3339 js now value =
    let n = js.to_number value in
    get_or (js.iso_date (if is_milliseconds n then value else num (times_thousand n)))
      (js.iso_now now)

unfoldable pub stringify_value : Builtins → Option Json → Option Text
stringify_value js none = none
stringify_value js (some null) = none
stringify_value js (some (str s)) = some s
stringify_value js (some v) = some (js.stringify v)

abbrev keep_defined : String → Option Text → List (String × Text) → List (String × Text)
keep_defined key none rest = rest
keep_defined key (some value) rest = (key, value) ∷ rest

unfoldable pub stringify_record : Builtins → List (String × Option Json) → List (String × Text)
unfolding stringify_value
stringify_record js [] = []
stringify_record js ((key, value) ∷ rest) =
    keep_defined key (stringify_value js value) (stringify_record js rest)

abbrev not_empty : Text → Bool
not_empty s = not (is_empty s)

-- `parts.filter(Boolean).join("\n")`, normalized
unfoldable pub joined_text : List Text → Text
joined_text parts = trim (join (b'\n' ∷ []) (keep not_empty parts))

-- A property as the text extraction sees it: a string, an array with its text, or another value.
pub data View : Type 0 where
  text_view : Text → View
  parts_view : Text → View
  other : View

abbrev pub view_of : String → List (String × View) → View
view_of key [] = other
view_of key ((k, v) ∷ vs) = if str_eq k key then v else view_of key vs

-- The last two tests of a part: `content` and `parts` as arrays.
abbrev array_text : View → View → Text
array_text (parts_view s) v = s
array_text u (parts_view s) = s
array_text u v = []

-- The tests of a part in the order of the source.
abbrev pick_text : View → View → View → Text
pick_text (text_view s) v w = s
pick_text u (text_view s) w = s
pick_text u v w = array_text v w

unfoldable mutual
  -- The text of one part.
  pub part_text : Json → Text
  part_text (str s) = s
  part_text (obj fs) =
      pick_text (view_of "text" (views fs)) (view_of "content" (views fs))
        (view_of "parts" (views fs))
  part_text v = []

  pub part_texts : Items → List Text
  part_texts nil = []
  part_texts (cons v vs) = part_text v ∷ part_texts vs

  pub views : Fields → List (String × View)
  views end = []
  views (field k v fs) = (k, view v) ∷ views fs

  pub view : Json → View
  view (str s) = text_view s
  view (arr vs) = parts_view (joined_text (part_texts vs))
  view v = other

-- `extractTextParts` of an array
unfoldable pub extract_text_parts : Items → Text
extract_text_parts vs = joined_text (part_texts vs)

abbrev text_or_parts : Option Json → Option Text
text_or_parts (some (str s)) = some (trim s)
text_or_parts (some (arr vs)) = some (extract_text_parts vs)
text_or_parts v = none

abbrev text_only : Option Json → Option Text
text_only (some (str s)) = some (trim s)
text_only v = none

abbrev parts_only : Option Json → Option Text
parts_only (some (arr vs)) = some (extract_text_parts vs)
parts_only v = none

-- A message that is missing, null or no object has no properties, and all of these find nothing.
unfoldable pub extract_message_text : Json → Text
extract_message_text message =
    get_or
      (or_else (text_or_parts (prop "content" message))
        (or_else (text_only (prop "text" message)) (parts_only (prop "parts" message))))
      []

-- `typeof v === "string" ? v : undefined`
abbrev pub string_of : Option Json → Option Text
string_of (some (str s)) = some s
string_of v = none

abbrev nested : String → Option Json → Option Json
nested key none = none
nested key (some v) = prop key v

unfoldable pub extract_message_role : Json → Option Text
extract_message_role message =
    or_else (string_of (prop "role" message)) (
      or_else (string_of (prop "type" message)) (string_of (nested "role" (prop "author" message))))

unfoldable pub extract_message_id : Json → Option Text
extract_message_id message =
    or_else (string_of (prop "id" message))
      (or_else (string_of (prop "messageID" message)) (string_of (prop "messageId" message)))

-- A value that is there, if only as null, is taken.
unfoldable pub extract_message_timestamp : Json → Option Json
extract_message_timestamp message = or_else (nested "created" (prop "time" message)) (
    or_else (prop "createdAt" message)
      (or_else (prop "created_at" message) (prop "timestamp" message)))

abbrev is_true : Option Json → Bool
is_true (some (bool true)) = true
is_true v = false

abbrev lower_status : Json → Text
lower_status message = to_lower_case (get_or (string_of (prop "status" message)) [])

unfoldable pub is_message_final : Json → Text → Bool
is_message_final message event_type =
    let status = lower_status message in
    if text_eq event_type (txt "message.created")
    then not
        (includes (txt "streaming" ∷ txt "in_progress" ∷ txt "pending" ∷ txt "partial" ∷ []) status)
    else if not (text_eq event_type (txt "message.updated"))
    then false
    else is_true (prop "final" message)
      || is_true (prop "done" message)
      || is_true (prop "complete" message)
      || includes (txt "completed" ∷ txt "complete" ∷ txt "done" ∷ txt "final" ∷ []) status

-- An event of the OpenCode bus.
pub record Event : Type 0 where
  pub type : Text
  pub properties : Option Json

-- `v && typeof v === "object" ? v : undefined`
abbrev object_of : Option Json → Option Json
object_of (some (obj fs)) = some (obj fs)
object_of (some (arr vs)) = some (arr vs)
object_of v = none

-- `typeof v === "object" ? v : undefined`, which null passes
abbrev object_or_null : Option Json → Option Json
object_or_null (some null) = some null
object_or_null v = object_of v

abbrev pub is_message_event : Text → Bool
is_message_event t = text_eq t (txt "message.created") || text_eq t (txt "message.updated")

abbrev is_some : Option Json → Bool
is_some none = false
is_some (some v) = true

abbrev is_string : Option Json → Bool
is_string (some (str s)) = true
is_string v = false

-- `properties` itself, if it reads like a message
abbrev bare_message : Text → Json → Option Json
bare_message event_type properties =
    if is_message_event event_type
      && (is_string (prop "role" properties) || is_some (prop "content" properties))
    then some properties
    else none

abbrev payload_of : Text → Option Json → Option Json
payload_of event_type none = none
payload_of event_type (some properties) = or_else (object_of (prop "message" properties)) (
    or_else (object_or_null (nested "message" (prop "data" properties))) (
      or_else (object_or_null (nested "message" (prop "payload" properties)))
        (bare_message event_type properties)))

unfoldable pub extract_message_payload : Event → Option Json
extract_message_payload event = payload_of event.type (object_of event.properties)
