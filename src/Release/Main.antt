-- ===== src/Release/Main.antt =====
-- prepare-helm-chart-release.mjs, main: the checks, and the two files that are read and written.
pub mod Outcome
use agent_memory_manager.Base.{
  Bool, true, false, not, ◌||◌, Option, none, some, List, [], ◌∷◌, if◌then◌else◌,
}
use agent_memory_manager.Base.Text.{Text, txt, is_empty, starts_with, trim, text_eq}
use agent_memory_manager.Effects.{
  Env, M, pure, throw, or_throw, ◌>>=◌, ◌>>◌, when, exists, read_file, write_file,
}
use agent_memory_manager.Release.{parse_args, is_semver, update_chart_yaml, update_values_yaml}

-- `args.get(key)`
unfoldable pub get_option : Text → List (Text × Text) → Option Text
get_option key [] = none
get_option key ((k, v) ∷ options) = if text_eq k key then some v else get_option key options

-- A flag that is there and not empty; `none` is `fail`, which ends the process.
abbrev pub required : Option Text → Option Text
required none = none
required (some s) = if is_empty s then none else some s

-- The checks of the release tag.
abbrev pub checked_tag : Option Text → Option Text
checked_tag none = none
checked_tag (some arg) =
    let tag = trim arg in
    if is_empty tag || starts_with tag (txt "v") || not (is_semver tag) then none else some tag

abbrev pub both : Option Text → Option Text → Option (Text × Text)
both (some a) (some b) = some (a, b)
both a b = none

abbrev pub checked_options : Option (List (Text × Text)) → Option (Text × Text)
checked_options none = none
checked_options (some args) =
    both (required (get_option (txt "chart-dir") args))
      (checked_tag (required (get_option (txt "release-tag") args)))

-- The directory and the tag that the arguments name.
unfoldable pub check_arguments : List Text → Option (Text × Text)
unfolding get_option
check_arguments argv = checked_options (parse_args argv)

module _ (env : Env) where
  -- `readFileSync`, an edit whose `none` is `fail`, and `writeFileSync`
  unfoldable pub edit_file : Text → (Text → Option Text) → M (Unit {0})
  edit_file path edit = do
    original ← read_file env path
    updated ← or_throw (edit original)
    write_file env path updated

  abbrev pub required_file : Text → M (Unit {0})
  required_file path = do there ← exists path; if there then pure tt else throw

  -- `resolve` is `path.resolve`.
  abbrev pub chart_yaml_path : (Text → Text) → Text → Text
  chart_yaml_path resolve dir = env.join_path (resolve dir) (txt "Chart.yaml")

  abbrev pub values_yaml_path : (Text → Text) → Text → Text
  values_yaml_path resolve dir = env.join_path (resolve dir) (txt "values.yaml")

  unfoldable pub main : (Text → Text) → List Text → M (Unit {0})
  unfolding check_arguments edit_file
  main resolve argv = do
    (dir, tag) ← or_throw (check_arguments argv)
    required_file (chart_yaml_path resolve dir)
    required_file (values_yaml_path resolve dir)
    edit_file (chart_yaml_path resolve dir) (λ text. update_chart_yaml text tag tag)
    edit_file (values_yaml_path resolve dir) (λ text. update_values_yaml text tag)
