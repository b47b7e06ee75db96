-- ===== src/OpenClaw/Plugin/Turn.antt =====
-- index.ts: a prompt whose recall fails, and a turn in which the curated files do not change.
use agent_memory_manager.Base.{
  ◌≡◌, refl, ap, sym, ◌∙◌, true, false, not, List, [], ◌∷◌, ◌++◌, some, none, keep, All, arith,
}
use agent_memory_manager.Base.Text.{Text, txt, join, is_empty, includes, text_eq_refl}
use agent_memory_manager.OpenClaw.Config.{AmmConfig}
use agent_memory_manager.Effects.{Env, World, Request, done, pure}
use agent_memory_manager.Effects.Rules.{>>=-done}
use agent_memory_manager.OpenClaw.Curated.Entries.{Target, memory, user}
use agent_memory_manager.OpenClaw.Curated.Store.{curated_file_path}
use agent_memory_manager.OpenClaw.Curated.Sync.{
  missing_from, snapshot_of, set_snapshot, snapshot_curated, reconcile_curated,
}
use agent_memory_manager.OpenClaw.Curated.Calm.{IsCalm, entries_of, opened, read_curated-calm}
use agent_memory_manager.OpenClaw.Curated.Edges.{reconcile_unchanged}
use agent_memory_manager.OpenClaw.Curated.Remove.{opened-sent}
use agent_memory_manager.OpenClaw.Curated.Replace.{snapshot_of-opened}
use agent_memory_manager.OpenClaw.Plugin.{
  before_agent_start, agent_end, PromptBuildEvent, extract_user_query, before_prompt_build, wrapped,
  part, system_prompt_block,
}
use agent_memory_manager.OpenClaw.Plugin.Query.{extract_user_query-trimmed}
use agent_memory_manager.OpenClaw.Recall.{ambient_recall}
use agent_memory_manager.OpenClaw.Recall.Render.{recall_request, ambient_recall_failed}
use agent_memory_manager.OpenClaw.Transport.{empty_object}
use agent_memory_manager.OpenClaw.Transport.Requests.{reply_value}

-- A list has all its elements.
keep_none :
    (ys xs : List Text)
    → All (λ e. includes ys e ≡ true) xs
    → keep (λ e. not (includes ys e)) xs ≡ []
keep_none ys [] h = refl
keep_none ys (x ∷ xs) h = ground (arith, h.0, keep_none ys xs h.1)

includes-grows :
    (x : Text) (ys xs : List Text)
    → All (λ e. includes ys e ≡ true) xs
    → All (λ e. includes (x ∷ ys) e ≡ true) xs
unfolding includes
includes-grows x ys [] h = tt
includes-grows x ys (e ∷ xs) h = (ground arith, includes-grows x ys xs h.1)

All-includes : (xs : List Text) → All (λ e. includes xs e ≡ true) xs
unfolding includes
All-includes [] = tt
All-includes (x ∷ xs) = (ground (arith, text_eq_refl x), includes-grows x xs xs (All-includes xs))

missing_from_self : (xs : List Text) → missing_from xs xs ≡ []
unfolding missing_from
missing_from_self xs = keep_none xs xs (All-includes xs)

-- The world `u` has the files and requests of `w`, and the snapshots hold what is in the files.
pub record IsSettled (env : Env) (w u : World) : Type 0 where
  pub files : u.files ≡ w.files
  pub sent : u.sent ≡ w.sent
  pub memory_entries : u.memory_snapshot ≡ entries_of env memory w
  pub user_entries : u.user_snapshot ≡ entries_of env user w

opened-files : (path : Text) (u : World) → (opened path u).files ≡ u.files
unfolding opened
opened-files path u = ground arith

entries_same :
    (env : Env) (t : Target) (u w : World)
    → u.files ≡ w.files
    → entries_of env t u ≡ entries_of env t w
unfolding entries_of
entries_same env t u w e = rw e refl

module _ (env : Env) (w : World) where
  pub snapshot_settled :
      (t : Target) (u : World) → IsSettled env w u → snapshot_of t u ≡ entries_of env t u
  snapshot_settled memory u s = s.memory_entries ∙ sym (entries_same env memory u w s.files)
  snapshot_settled user u s = s.user_entries ∙ sym (entries_same env user u w s.files)

  -- Reading a file and taking its entries as the snapshot.
  pub taken : Target → World → World
  taken t u = set_snapshot t (entries_of env t u) (opened (curated_file_path env t) u)

  pub taken-IsSettled : (t : Target) (u : World) → IsSettled env w u → IsSettled env w (taken t u)
  unfolding taken
  taken-IsSettled memory u s = record {
    files = opened-files (curated_file_path env memory) u ∙ s.files;
    sent = opened-sent (curated_file_path env memory) u ∙ s.sent;
    memory_entries = entries_same env memory u w s.files;
    user_entries = snapshot_of-opened (curated_file_path env memory) user u ∙ s.user_entries;
  }
  taken-IsSettled user u s = record {
    files = opened-files (curated_file_path env user) u ∙ s.files;
    sent = opened-sent (curated_file_path env user) u ∙ s.sent;
    memory_entries = snapshot_of-opened (curated_file_path env user) memory u ∙ s.memory_entries;
    user_entries = entries_same env user u w s.files;
  }

module _ (env : Env) (config : AmmConfig) (calm : IsCalm env config) where
  snapshot_curated-calm :
      (w : World) → snapshot_curated env w ≡ (done tt, taken env w user (taken env w memory w))
  unfolding snapshot_curated taken
  snapshot_curated-calm w =
      rw (read_curated-calm env config calm memory w, read_curated-calm env config calm user _)

  snapshots-IsSettled : (w : World) → IsSettled env w (taken env w user (taken env w memory w))
  unfolding taken
  snapshots-IsSettled w = record {
    files =
        opened-files (curated_file_path env user) (taken env w memory w)
        ∙ opened-files (curated_file_path env memory) w;
    sent =
        opened-sent (curated_file_path env user) (taken env w memory w)
        ∙ opened-sent (curated_file_path env memory) w;
    memory_entries = snapshot_of-opened (curated_file_path env user) memory (taken env w memory w);
    user_entries =
        entries_same env user (taken env w memory w) w
          (opened-files (curated_file_path env memory) w);
  }

  reconcile_settled :
      (t : Target) (w u : World)
      → IsSettled env w u
      → reconcile_curated env config t u ≡ (done tt, taken env w t u)
  unfolding taken
  reconcile_settled t w u s =
      reconcile_unchanged env config calm t u
        (rw (snapshot_settled env w t u s) (missing_from_self (entries_of env t u)))
        (rw (snapshot_settled env w t u s) (missing_from_self (entries_of env t u)))

  pub agent_end_settled :
      (w u : World)
      → IsSettled env w u
      → agent_end env config u ≡ (done tt, taken env w user (taken env w memory u))
  unfolding agent_end
  agent_end_settled w u s =
      rw
        (
          reconcile_settled memory w u s,
          reconcile_settled user w (taken env w memory u) (taken-IsSettled env w memory u s),
        )
        refl

  -- When no file operation fails, a turn that begins with the snapshot and in which nothing happens
  -- to the curated files ends without an error, sends nothing and changes no file, and the snapshots
  -- are the entries of the files.
  pub turn_unchanged :
      (w : World)
      → ((before_agent_start env config w).0 ≡ done tt)
        × ((agent_end env config (before_agent_start env config w).1).0 ≡ done tt)
        × IsSettled env w (agent_end env config (before_agent_start env config w).1).1
  unfolding before_agent_start
  turn_unchanged w =
      let start = snapshots-IsSettled w in
      rw (snapshot_curated-calm w, agent_end_settled w _ start)
        (refl, refl, taken-IsSettled env w user _ (taken-IsSettled env w memory _ start))

system_prompt_block-not_empty : (config : AmmConfig) → is_empty (system_prompt_block config) ≡ false
unfolding system_prompt_block txt
system_prompt_block-not_empty config = refl

only_guidance :
    (config : AmmConfig)
    → wrapped (part (some (system_prompt_block config)) ++ [])
      ≡ some (txt "<amm-context>\n" ++ (system_prompt_block config ++ txt "\n</amm-context>"))
unfolding join
only_guidance config = rw (system_prompt_block-not_empty config) refl

module _ (env : Env) (config : AmmConfig) (event : PromptBuildEvent) (w : World) where
  -- The recall request for the query of a prompt.
  abbrev pub prompt_request : Request
  prompt_request = recall_request env config (extract_user_query event) event.session_key w

  -- With an API URL and a query, a prompt whose recall fails still gets the guidance, alone.
  pub before_prompt_build_failed :
      is_empty config.api_url ≡ false
      → is_empty (extract_user_query event) ≡ false
      → reply_value env (env.reply w.step prompt_request) ≡ empty_object
      → ((before_prompt_build env config event w).0
          ≡ done (
              some
                (txt "<amm-context>\n" ++ (system_prompt_block config ++ txt "\n</amm-context>"))))
        × ((before_prompt_build env config event w).1.sent ≡ w.sent ++ prompt_request ∷ [])
  unfolding before_prompt_build
  before_prompt_build_failed online asked failed =
      let recalled =
        ambient_recall_failed env config (extract_user_query event) event.session_key w online
          (rw (extract_user_query-trimmed event) asked) failed in
      let eq =
        >>=-done (ambient_recall env config (extract_user_query event) event.session_key)
          (λ context. pure (wrapped (part (some (system_prompt_block config)) ++ part context))) w
          none recalled.0 in
      rw (asked, eq) (ap done (only_guidance config), recalled.1)
