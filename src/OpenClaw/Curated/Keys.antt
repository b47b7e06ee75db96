-- ===== src/OpenClaw/Curated/Keys.antt =====
-- curated-sync.ts: what identifies an entry (scope and fingerprint), and how long its description is.
use agent_memory_manager.Base.{
  ℕ, suc, zero, ◌≤◌, ◌≡◌, refl, Bool, true, false, ◌&&◌, [], ◌∷◌, ◌++◌, arith, length, take, leb,
  length-append, if◌then◌else◌, Bool-cases, inl, inr,
}
use agent_memory_manager.Base.Text.{Text, txt, is_empty, text_eq, drop_end, trim_end, is_space}
use agent_memory_manager.Base.Text.Split.{Lacks}
use agent_memory_manager.OpenClaw.Config.{AmmConfig}
use agent_memory_manager.OpenClaw.Curated.Entries.{
  Target, memory, user, target_name, is_scope, curated_scope, fingerprint_input, shorten,
  first_line, tight_description, max_tight_description,
}

project_is_scope : is_scope (txt "project") ≡ true
unfolding txt text_eq
project_is_scope = refl

global_is_scope : is_scope (txt "global") ≡ true
unfolding txt text_eq
global_is_scope = refl

global_not_project : text_eq (txt "global") (txt "project") ≡ false
unfolding txt text_eq
global_not_project = refl

valid_scope :
    (configured fallback : Text)
    → is_scope fallback ≡ true
    → is_scope (if is_scope configured then configured else fallback) ≡ true
valid_scope configured fallback h = elim (Bool-cases (is_scope configured)) [
  | inl e ↦ rw e e
  | inr e ↦ rw e h
]

scope_cases :
    (configured fallback project_id : Text)
    → is_scope fallback ≡ true
    → let scope = if is_scope configured then configured else fallback in
      let chosen =
        if text_eq scope (txt "project") && is_empty project_id then txt "global" else scope in
      (is_scope chosen ≡ true) × ((text_eq chosen (txt "project") && is_empty project_id) ≡ false)
scope_cases configured fallback project_id h =
    let scope = if is_scope configured then configured else fallback in
    let valid = valid_scope configured fallback h in
    elim (Bool-cases (text_eq scope (txt "project") && is_empty project_id)) [
      | inl e ↦ rw e (global_is_scope, rw global_not_project)
      | inr e ↦ rw e (valid, e)
    ]

-- The scope of a target is one of the three that exist, whatever is configured, and it is
-- "project" only where there is a project id.
pub curated_scope_valid :
    (config : AmmConfig) (target : Target) (project_id : Text)
    → (is_scope (curated_scope config target project_id) ≡ true)
      × ((text_eq (curated_scope config target project_id) (txt "project") && is_empty project_id)
          ≡ false)
unfolding curated_scope
curated_scope_valid config memory project_id =
    scope_cases config.memory_scope (txt "project") project_id project_is_scope
curated_scope_valid config user project_id =
    scope_cases config.user_scope (txt "global") project_id global_is_scope

-- What stands before the first separator, and what stands behind it, is determined.
separated :
    (d : ℕ) (a b s t : Text) → Lacks d a → Lacks d b → a ++ d ∷ s ≡ b ++ d ∷ t → (a ≡ b) × (s ≡ t)
separated d [] [] s t h k e = (refl, ground arith)
separated d [] (c ∷ b) s t h k e = absurd (k.0 (ground arith))
separated d (c ∷ a) [] s t h k e = absurd (h.0 (ground arith))
separated d (c ∷ a) (c' ∷ b) s t h k e =
    let (same, rest) = separated d a b s t h.1 k.1 (ground arith) in (ground arith, rest)

-- The project that counts for a fingerprint.
abbrev pub effective_project : Text → Text → Text
effective_project scope project_id = if text_eq scope (txt "project") then project_id else []

Lacks-target : (t : Target) → Lacks b'\n' (target_name t)
unfolding txt
Lacks-target memory = omega arith
Lacks-target user = omega arith

Lacks-effective :
    (scope project : Text) → Lacks b'\n' project → Lacks b'\n' (effective_project scope project)
Lacks-effective scope project h = elim (Bool-cases (text_eq scope (txt "project"))) [
  | inl e ↦ rw e h
  | inr e ↦ rw e tt
]

-- Scopes and project ids without line breaks: two entries that feed the same text to the hash have
-- the same target, scope, effective project and content.
pub fingerprint_input_injective :
    (t t' : Target) (content content' scope scope' project project' : Text)
    → Lacks b'\n' scope
    → Lacks b'\n' scope'
    → Lacks b'\n' project
    → Lacks b'\n' project'
    → fingerprint_input (target_name t) content scope project
      ≡ fingerprint_input (target_name t') content' scope' project'
    → (target_name t ≡ target_name t')
      × (scope ≡ scope')
      × (effective_project scope project ≡ effective_project scope' project')
      × (content ≡ content')
unfolding fingerprint_input
fingerprint_input_injective t t' content content' scope scope' project project' hs hs' hp hp' e =
    let (same_t, e1) =
      separated b'\n' (target_name t) (target_name t') _ _ (Lacks-target t) (Lacks-target t') e in
    let (same_s, e2) = separated b'\n' scope scope' _ _ hs hs' e1 in
    let (same_p, e3) =
      separated b'\n' (effective_project scope project) (effective_project scope' project') _ _
        (Lacks-effective scope project hp) (Lacks-effective scope' project' hp') e2 in
    (same_t, same_s, same_p, e3)

length-drop_end-le : (p : ℕ → Bool) (s : Text) → length (drop_end p s) ≤ length s
unfolding drop_end
length-drop_end-le p [] = omega arith
length-drop_end-le p (c ∷ s) = ground (arith, length-drop_end-le p s)

length-take-le : (n : ℕ) (s : Text) → length (take n s) ≤ n
length-take-le zero s = omega arith
length-take-le (suc n) [] = omega arith
length-take-le (suc n) (c ∷ s) = omega (arith, length-take-le n s)

shorten-le : (s : Text) → length (shorten s) ≤ max_tight_description
unfolding shorten
shorten-le s = elim (Bool-cases (leb (length s) 120)) [
  | inl fits ↦ rw fits (ground arith)
  | inr long ↦ rw long (
      omega (
        arith,
        length-append (trim_end (take 119 s)) (0x2026 ∷ []),
        length-drop_end-le is_space (take 119 s),
        length-take-le 119 s,
      ))
]

-- A tight description has at most 120 code units.
pub tight_description-le :
    (content : Text) → length (tight_description content) ≤ max_tight_description
unfolding tight_description
tight_description-le content = shorten-le (first_line content)
