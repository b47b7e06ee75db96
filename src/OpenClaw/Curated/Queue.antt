-- ===== src/OpenClaw/Curated/Queue.antt =====
-- `appendSyncQueue` of curated-sync.ts: the queue of failures keeps its newest lines.
use agent_memory_manager.Base.{
  suc, ◌≤◌, ◌-◌, ◌≡◌, refl, sym, ap, ◌∙◌, Bool, true, List, [], ◌∷◌, ◌++◌, arith, All, All-append,
  All-drop, keep, keep-All, length, take_last, take_last-all, length-take_last, ltb, Bool-cases,
  Option-cases, append-nil, inl, inr,
}
use agent_memory_manager.Base.Text.{Text, split, join, text_eq_refl, text_eq_iff}
use agent_memory_manager.Base.Text.Split.{Lacks, split-join-separator, split-All-Lacks}
use agent_memory_manager.Base.Json.{Fields, obj}
use agent_memory_manager.OpenClaw.Config.{AmmConfig}
use agent_memory_manager.Effects.{Env, World, put, done}
use agent_memory_manager.OpenClaw.Curated.Entries.{newline, not_empty}
use agent_memory_manager.OpenClaw.Curated.Store.{
  file_lines, push_line, max_queue_lines, queue_path, append_sync_queue,
}
use agent_memory_manager.OpenClaw.Curated.Calm.{
  IsCalm, queue_of, opened, written, read_queue-calm, atomic_write-calm, tmp_for,
}

-- A line of the queue: not empty, and without a line break.
abbrev pub IsLine : Text → Type 0
IsLine s = Lacks b'\n' s × (not_empty s ≡ true)

-- The queue never holds more than its bound.
pub push_line-take_last :
    (lines : List Text) (line : Text)
    → push_line lines line ≡ take_last max_queue_lines (lines ++ line ∷ [])
unfolding push_line
push_line-take_last lines line = elim (Bool-cases (ltb 500 (length (lines ++ line ∷ [])))) [
  | inl long ↦ rw long
  | inr fits ↦ rw fits (sym (take_last-all 500 (lines ++ line ∷ []) (ground arith)))
]

keep-append : (p : Text → Bool) (xs ys : List Text) → keep p (xs ++ ys) ≡ keep p xs ++ keep p ys
keep-append p [] ys = refl
keep-append p (x ∷ xs) ys = ground (arith, keep-append p xs ys)

All-IsLine-not_empty : (lines : List Text) → All IsLine lines → All (λ s. not_empty s ≡ true) lines
All-IsLine-not_empty [] h = tt
All-IsLine-not_empty (x ∷ xs) h = (h.0.1, All-IsLine-not_empty xs h.1)

All-IsLine-Lacks : (lines : List Text) → All IsLine lines → All (Lacks b'\n') lines
All-IsLine-Lacks [] h = tt
All-IsLine-Lacks (x ∷ xs) h = (h.0.0, All-IsLine-Lacks xs h.1)

-- A file of lines is read back as those lines.
file_lines-join :
    (line : Text) (lines : List Text)
    → All IsLine (line ∷ lines)
    → file_lines (join newline (line ∷ lines) ++ newline) ≡ line ∷ lines
unfolding file_lines
file_lines-join line lines h =
    ap (keep not_empty) (split-join-separator b'\n' line lines (All-IsLine-Lacks (line ∷ lines) h))
    ∙ keep-append not_empty (line ∷ lines) ([] ∷ [])
    ∙ append-nil _
    ∙ keep-All not_empty (line ∷ lines) (All-IsLine-not_empty (line ∷ lines) h)

file_lines-join-All :
    (lines : List Text) → All IsLine lines → file_lines (join newline lines ++ newline) ≡ lines
unfolding file_lines
file_lines-join-All [] h = unfold join split in refl
file_lines-join-All (line ∷ lines) h = file_lines-join line lines h

All-IsLine-keep : (parts : List Text) → All (Lacks b'\n') parts → All IsLine (keep not_empty parts)
All-IsLine-keep [] h = tt
All-IsLine-keep (x ∷ xs) h = elim (Bool-cases (not_empty x)) [
  | inl e ↦ rw e ((h.0, e), All-IsLine-keep xs h.1)
  | inr e ↦ rw e (All-IsLine-keep xs h.1)
]

file_lines-IsLine : (s : Text) → All IsLine (file_lines s)
unfolding file_lines
file_lines-IsLine s = All-IsLine-keep (split s newline) (split-All-Lacks b'\n' s)

module _ (env : Env) (config : AmmConfig) where
  queue_of-IsLine : (w : World) → All IsLine (queue_of env config w)
  unfolding queue_of
  queue_of-IsLine w = elim (Option-cases (w.files (queue_path env config))) [
    | inl e ↦ rw e tt
    | inr (text, e) ↦ rw e (file_lines-IsLine text)
  ]

  push_line-IsLine :
      (lines : List Text) (line : Text)
      → All IsLine lines
      → IsLine line
      → All IsLine (push_line lines line)
  push_line-IsLine lines line h k = rw (push_line-take_last lines line) (
      All-drop IsLine (length (lines ++ line ∷ []) - 500) (lines ++ line ∷ [])
        (All-append IsLine lines (line ∷ []) h (k, tt)))

queue_of-saved :
    (env : Env) (config : AmmConfig) (calm : IsCalm env config) (lines : List Text) (w : World)
    → All IsLine lines
    → queue_of env config (written env (queue_path env config) (join newline lines ++ newline) w)
      ≡ lines
unfolding queue_of written put
queue_of-saved env config calm lines w h = ground (
  arith,
  text_eq_refl (queue_path env config),
  text_eq_iff (tmp_for env (queue_path env config) (suc w.step)) (queue_path env config),
  (calm.queue_tmp_fresh (suc w.step)).1.0,
  file_lines-join-All lines h,
)

-- When no file operation fails and the entry is printed on one line, the queue afterwards is the
-- newest 500 of the old lines with the new one behind them, and the call ends without an error.
pub append_sync_queue_newest :
    (env : Env) (config : AmmConfig) (calm : IsCalm env config) (entry : Fields) (w : World)
    → IsLine (env.stringify (obj entry))
    → ((append_sync_queue env config entry w).0 ≡ done tt)
      × (queue_of env config (append_sync_queue env config entry w).1
          ≡ take_last max_queue_lines (queue_of env config w ++ env.stringify (obj entry) ∷ []))
      × (length (queue_of env config (append_sync_queue env config entry w).1) ≤ max_queue_lines)
unfolding append_sync_queue
append_sync_queue_newest env config calm entry w printed =
    let line = env.stringify (obj entry) in
    let lines = queue_of env config w in
    let stored =
      queue_of-saved env config calm (push_line lines line) (opened (queue_path env config) w)
        (push_line-IsLine env config lines line (queue_of-IsLine env config w) printed)
      ∙ push_line-take_last lines line in
    rw (read_queue-calm env config calm w, atomic_write-calm env config calm)
      (refl, stored, rw stored (length-take_last 500 (lines ++ line ∷ [])))
