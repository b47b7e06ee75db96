-- ===== src/OpenCode/Tests.antt =====
-- The OpenCode plugin on concrete hooks, and its theorems at concrete inputs.
mod Processes
use agent_memory_manager.Base.{ℕ, ◌≡◌, ◌≢◌, refl, true, false, some, none, List, [], ◌∷◌, map}
use mathlib.Core.Bool.{false≢true}
use mathlib.Core.Path.{sym, ◌∙◌}
use agent_memory_manager.Base.Text.{
  txt, text_eq, trim, drop_start, drop_end, is_space, all_units, to_lower_case, includes, join,
}
use agent_memory_manager.Base.Json.{Json, nan, str, obj, arr, nil, cons, field, end, prop}
use agent_memory_manager.OpenCode.Message.{
  Builtins, Event, is_message_event, extract_message_payload, extract_message_role,
  extract_message_text, extract_message_id, extract_message_timestamp, is_message_final,
  now_rfc3339, stringify_record, part_text, extract_text_parts, joined_text,
}
use agent_memory_manager.OpenCode.State.{
  HookCall, tool_before, bus_event, ToolInput, key_eq, unknown,
}
use agent_memory_manager.OpenCode.Hooks.{
  call, run, init, version_key, version, emit_message, message_ingest,
}
use agent_memory_manager.OpenCode.Maps.{key_eq_iff}
use agent_memory_manager.OpenCode.Dedupe.{call_message_twice}
use agent_memory_manager.OpenCode.Idle.{IsSpaced, idle_times, idle-IsSpaced}
use agent_memory_manager.OpenCode.Activity.{IsFed, idle_follows_activity}

abbrev js : Builtins
js = record {
  stringify = λ v. txt "{}";
  to_text = λ v. txt "7";
  to_number = λ v. nan;
  iso_date = λ v. none;
  iso_now = λ n. txt "now";
}

abbrev message : Json
message = obj (
    field "role" (str (txt "user")) (
      field "content"
        (arr (cons (str (txt " hi")) (cons (obj (field "text" (str (txt "you ")) end)) nil)))
        (field "id" (str (txt "m")) end)))

abbrev said : Event
said = record {
  type = txt "message.created";
  properties = some (obj (field "sessionID" (str (txt "s")) (field "message" message end)));
}

abbrev idled : Event
idled = record {
  type = txt "session.idle";
  properties = some (obj (field "sessionID" (str (txt "s")) end));
}

abbrev used : ToolInput
used = record {
  session_id = some (txt "s");
  tool = some (str (txt "bash"));
  call_id = none;
  args = none;
}

abbrev day : List (ℕ × HookCall)
day =
    (70000, bus_event said)
    ∷ (70001, bus_event said)
    ∷ (80000, bus_event idled)
    ∷ (90000, bus_event idled)
    ∷ (150000, bus_event idled)
    ∷ (150001, tool_before used)
    ∷ (210000, bus_event idled)
    ∷ []

opens : Unit {0}
unfolding run txt text_eq key_eq prop extract_message_payload extract_message_role
    extract_message_text extract_message_id extract_message_timestamp is_message_final now_rfc3339
    stringify_record part_text extract_text_parts joined_text trim drop_start drop_end is_space
    all_units to_lower_case includes version_key version idle_times join emit_message message_ingest
opens = tt

-- The message is ingested once, and of four idle events the first and the last.
day_kinds :
    map (λ i. i.1.kind) (run js (txt "p") day init).ingested
    ≡ txt "session_idle" ∷ txt "tool_call" ∷ txt "session_idle" ∷ txt "message_user" ∷ []
unfolding opens
day_kinds = refl

created : is_message_event said.type ≡ true
unfolding opens
created = refl

call_message_twice_example :
    call js (txt "p") 70001 (bus_event said) (call js (txt "p") 70000 (bus_event said) init)
    ≡ call js (txt "p") 70000 (bus_event said) init
call_message_twice_example = call_message_twice js (txt "p") 70000 70001 said init created

idle-IsSpaced_example : IsSpaced (idle_times (some (txt "s")) (run js (txt "p") day init).ingested)
idle-IsSpaced_example = idle-IsSpaced js (txt "p") (some (txt "s")) day

differ : key_eq (some (txt "s")) (some unknown) ≡ false
unfolding opens
differ = refl

known : some (txt "s") ≢ some unknown
known e = false≢true (sym differ ∙ (key_eq_iff (some (txt "s")) (some unknown)).1 e)

idle_follows_activity_example : IsFed (some (txt "s")) false (run js (txt "p") day init).ingested
idle_follows_activity_example = idle_follows_activity js (txt "p") (some (txt "s")) known day
