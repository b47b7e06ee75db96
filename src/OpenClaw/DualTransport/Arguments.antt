-- ===== src/OpenClaw/DualTransport/Arguments.antt =====
-- transport.ts: the arguments of the `amm` binary that come from a payload.
use agent_memory_manager.Base.{String, Option, none, some, List, [], ◌∷◌, if◌then◌else◌}
use agent_memory_manager.Base.Text.{Text, txt}
use agent_memory_manager.Base.Json.{Json, str, Fields, get_field, or_nullish, get_or, is_truthy}
use agent_memory_manager.Effects.{Env, string_text}

-- `name, String(v)` before other arguments; `none` is a throw.
abbrev pushed : Text → Option Text → Option (List Text) → Option (List Text)
pushed name (some s) (some rest) = some (name ∷ s ∷ rest)
pushed name s rest = none

-- `name, String(payload[key] ?? fallback)` before other arguments
abbrev argument : Env → Fields → Text → String → Text → Option (List Text) → Option (List Text)
argument env payload name key fallback rest =
    pushed name (string_text env (get_or (or_nullish (get_field key payload) none) (str fallback)))
      rest

-- `if (payload["project_id"]) args.push("--project", String(payload["project_id"]))`
abbrev project_arguments : Env → Option Json → Option (List Text)
project_arguments env none = some []
project_arguments env (some v) =
    if is_truthy v then pushed (txt "--project") (string_text env v) (some []) else some []

unfoldable pub remember_arguments : Env → Fields → Option (List Text)
remember_arguments env payload = argument env payload (txt "--type") "type" (txt "fact") (
    argument env payload (txt "--scope") "scope" (txt "project") (
      argument env payload (txt "--body") "body" [] (
        argument env payload (txt "--tight") "tight_description" [] (
          argument env payload (txt "--subject") "subject" []
            (project_arguments env (get_field "project_id" payload))))))

unfoldable pub update_arguments : Env → Fields → Option (List Text)
update_arguments env payload = argument env payload (txt "--body") "body" [] (
    argument env payload (txt "--tight") "tight_description" [] (
      argument env payload (txt "--type") "type" (txt "fact") (
        argument env payload (txt "--scope") "scope" (txt "project")
          (argument env payload (txt "--status") "status" (txt "active") (some [])))))
