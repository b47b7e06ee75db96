-- ===== src/OpenClaw/Curated/Atomic.antt =====
-- `atomicWrite` of curated-sync.ts: all of the new content, or the old file.
use agent_memory_manager.Base.{suc, ◌≡◌, ◌≢◌, ◌⊎◌, some, arith}
use agent_memory_manager.Base.Text.{Text, text_eq_iff, text_eq_refl}
use agent_memory_manager.Effects.{
  Env, World, done, threw, put, make_dir, random_hex, write_file, rename, unlink,
}
use agent_memory_manager.OpenClaw.Curated.Store.{tmp_path, replace_file, atomic_write}

module _ (env : Env) (path content : Text) where
  replace_file_outcome :
      (tmp q : Text) (w : World)
      → tmp ≢ path
      → q ≢ tmp
      → (((replace_file env tmp path content w).0 ≡ done tt)
          × ((replace_file env tmp path content w).1.files q ≡ put w.files path (some content) q))
        ⊎ (((replace_file env tmp path content w).0 ≡ threw)
            × ((replace_file env tmp path content w).1.files q ≡ w.files q))
  unfolding replace_file write_file rename unlink put
  replace_file_outcome tmp q w fresh other = ground (
    arith,
    text_eq_iff tmp q,
    text_eq_iff tmp path,
    text_eq_iff path tmp,
    text_eq_iff path q,
    text_eq_refl tmp,
  )

  -- `atomicWrite` either gives its file the new content, or throws and leaves it as it was; no
  -- other file but the temporary one is touched in either case. The temporary name is not the
  -- file's own.
  pub atomic_write_outcome :
      (q : Text) (w : World)
      → tmp_path env (env.dirname path) (env.random (suc w.step)) ≢ path
      → q ≢ tmp_path env (env.dirname path) (env.random (suc w.step))
      → (((atomic_write env path content w).0 ≡ done tt)
          × ((atomic_write env path content w).1.files q ≡ put w.files path (some content) q))
        ⊎ (((atomic_write env path content w).0 ≡ threw)
            × ((atomic_write env path content w).1.files q ≡ w.files q))
  unfolding atomic_write make_dir random_hex
  atomic_write_outcome q w fresh other = ground (
    arith,
    replace_file_outcome (tmp_path env (env.dirname path) (env.random (suc w.step))) q
        (record w { step = suc (suc w.step) }),
  )
