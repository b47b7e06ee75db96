-- ===== src/OpenClaw/Plugin/Query.antt =====
-- index.ts: the query that is taken from the messages of a prompt.
use agent_memory_manager.Base.{
  ℕ, zero, suc, ◌≡◌, refl, Option, some, List, [], ◌∷◌, length, arith, Bool-cases, inl, inr,
  if◌then◌else◌,
}
use agent_memory_manager.Base.Text.{Text, is_empty, trim, drop_end, drop_start}
use agent_memory_manager.Base.Text.Trim.{trim_idempotent}
use agent_memory_manager.Base.Json.{Json, Items, str, arr, elems, prop}
use agent_memory_manager.OpenClaw.Plugin.{
  PromptBuildEvent, is_user, trimmed_string, user_content, search_from, query_of,
  extract_user_query,
}

-- The last content of a user that is not blank, read from the front.
abbrev pub last_query : List Json → Text
last_query [] = []
last_query (m ∷ ms) = let rest = last_query ms in if is_empty rest then user_content m else rest

-- The loop over a list with one more message in front.
search_from-cons :
    (n : ℕ) (m : Json) (ms : List Json)
    → search_from (suc n) (m ∷ ms)
      ≡ (if is_empty (search_from n ms) then user_content m else search_from n ms)
unfolding search_from
search_from-cons zero m ms = ground arith
search_from-cons (suc n) m ms = ground (arith, search_from-cons n m ms)

search_from-last : (ms : List Json) → search_from (length ms) ms ≡ last_query ms
search_from-last [] = unfold search_from in refl
search_from-last (m ∷ ms) = rw (search_from-cons (length ms) m ms, search_from-last ms) refl

-- The query is the trimmed content of the last message of a user whose content is a text that is not
-- blank, and empty if there is none.
pub extract_user_query_last :
    (messages : Items) (session_key : Option Text)
    → extract_user_query (record { messages = some (arr messages); session_key = session_key })
      ≡ last_query (elems messages)
unfolding extract_user_query
extract_user_query_last messages session_key = search_from-last (elems messages)

trim-nil : trim [] ≡ []
unfolding trim drop_end drop_start
trim-nil = refl

trimmed_string-trimmed : (v : Option Json) → trim (trimmed_string v) ≡ trimmed_string v
trimmed_string-trimmed (some (str s)) = trim_idempotent s
trimmed_string-trimmed v = trim-nil

user_content-trimmed : (m : Json) → trim (user_content m) ≡ user_content m
unfolding user_content
user_content-trimmed m = elim (Bool-cases (is_user (prop "role" m))) [
  | inl of_user ↦ rw of_user (trimmed_string-trimmed (prop "content" m))
  | inr of_other ↦ rw of_other trim-nil
]

-- The query is trimmed.
last_query-trimmed : (ms : List Json) → trim (last_query ms) ≡ last_query ms
last_query-trimmed [] = trim-nil
last_query-trimmed (m ∷ ms) = ground (arith, last_query-trimmed ms, user_content-trimmed m)

query_of-trimmed : (v : Option Json) → trim (query_of v) ≡ query_of v
query_of-trimmed (some (arr messages)) =
    rw (search_from-last (elems messages)) (last_query-trimmed (elems messages))
query_of-trimmed v = trim-nil

pub extract_user_query-trimmed :
    (event : PromptBuildEvent) → trim (extract_user_query event) ≡ extract_user_query event
unfolding extract_user_query
extract_user_query-trimmed event = query_of-trimmed event.messages
