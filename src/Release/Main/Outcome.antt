-- ===== src/Release/Main/Outcome.antt =====
-- main: what a run leaves behind, on every branch.
use agent_memory_manager.Base.{
  ℕ, suc, ◌≡◌, ◌≢◌, refl, ◌∙◌, Bool, true, false, Option, none, some, List, arith,
}
use agent_memory_manager.Base.Text.{Text, text_eq_iff}
use agent_memory_manager.Effects.{
  Env, World, Res, M, done, threw, or_throw, ◌>>=◌, ◌>>◌, exists, put, read_file, write_file, tick,
}
use agent_memory_manager.Release.{update_chart_yaml, update_values_yaml}
use agent_memory_manager.Release.Main.{
  check_arguments, chart_yaml_path, values_yaml_path, edit_file, required_file, main,
}

Files : Type 0
Files = Text → Option Text

-- Whether a run ends well, and the files that it leaves.
abbrev pub RunResult : Type 0
RunResult = Bool × (Text → Option Text)

module _ (chart_path values_path tag : Text) (files : Text → Option Text) where
  -- After Chart.yaml has been written.
  abbrev pub with_values : Text → Option Text → RunResult
  with_values chart none = (false, put files chart_path (some chart))
  with_values chart (some values) =
      (true, put (put files chart_path (some chart)) values_path (some values))

  abbrev pub with_chart : Text → Option Text → RunResult
  with_chart values none = (false, files)
  with_chart values (some chart) = with_values chart (update_values_yaml values tag)

  abbrev pub with_files : Option Text → Option Text → RunResult
  with_files (some chart) (some values) = with_chart values (update_chart_yaml chart tag tag)
  with_files chart values = (false, files)

abbrev pub run_result :
    Env → (Text → Text) → Option (Text × Text) → (Text → Option Text) → RunResult
run_result env resolve none files = (false, files)
run_result env resolve (some (dir, tag)) files =
    let chart_path = chart_yaml_path env resolve dir in
    let values_path = values_yaml_path env resolve dir in
    with_files chart_path values_path tag files (files chart_path) (files values_path)

abbrev pub ended : Bool → Res (Unit {0})
ended true = done tt
ended false = threw

-- A run ends with a result and leaves the files of a world.
pub record Ends (out : Res (Unit {0}) × World) (r : RunResult) : Type 0 where
  pub files : out.1.files ≡ r.1
  pub result : out.0 ≡ ended r.0

abbrev edit_world : Text → Option Text → World → Res (Unit {0}) × World
edit_world path none w = (threw, tick w)
edit_world path (some t) w = (done tt, record (tick (tick w)) { files = put w.files path (some t) })

put_other :
    (files : Text → Option Text) (p q : Text) (content : Option Text)
    → p ≢ q
    → put files p content q ≡ files q
unfolding put
put_other files p q content h = ground (arith, text_eq_iff p q)

module _ (env : Env) where
  required-none :
      (path : Text) (w : World) → w.files path ≡ none → required_file env path w ≡ (threw, w)
  unfolding exists
  required-none path w e = ground arith

  required-some :
      (path text : Text) (w : World)
      → w.files path ≡ some text
      → required_file env path w ≡ (done tt, w)
  unfolding exists
  required-some path text w e = ground arith

module _ (env : Env) (no_fault : (n : ℕ) → env.fault n ≡ false) where
  -- An edit of a file that is there.
  edit_file_lem :
      (path text : Text) (edit : Text → Option Text) (w : World)
      → w.files path ≡ some text
      → edit_file env path edit w ≡ edit_world path (edit text) w
  unfolding edit_file read_file write_file
  edit_file_lem path text edit w there = ground (arith, no_fault w.step, no_fault (suc w.step))

  module _ (resolve : Text → Text) (dir tag : Text)
      (apart : chart_yaml_path env resolve dir ≢ values_yaml_path env resolve dir) (w : World) where
    abbrev chart_path : Text
    chart_path = chart_yaml_path env resolve dir

    abbrev values_path : Text
    values_path = values_yaml_path env resolve dir

    abbrev edit_chart : M (Unit {0})
    edit_chart = edit_file env chart_path (λ text. update_chart_yaml text tag tag)

    abbrev edit_values : M (Unit {0})
    edit_values = edit_file env values_path (λ text. update_values_yaml text tag)

    -- The world after Chart.yaml has been written.
    abbrev charted : Text → World
    charted chart = record (tick (tick w)) { files = put w.files chart_path (some chart) }

    edit_values-Ends :
        (chart values : Text)
        → w.files values_path ≡ some values
        → Ends
            (edit_values (charted chart))
            (with_values chart_path values_path tag w.files chart (update_values_yaml values tag))
    edit_values-Ends chart values hv =
        rw
          (edit_file_lem values_path values (λ text. update_values_yaml text tag) (charted chart)
            (put_other w.files chart_path values_path (some chart) apart ∙ hv))
          (go (update_values_yaml values tag))
      where
        go :
            (o : Option Text)
            → Ends
                (edit_world values_path o (charted chart))
                (with_values chart_path values_path tag w.files chart o)
        go none = record { files = refl; result = refl }
        go (some t) = record { files = refl; result = refl }

    edit_both-Ends :
        (chart values : Text)
        → w.files chart_path ≡ some chart
        → w.files values_path ≡ some values
        → Ends
            ((edit_chart >> edit_values) w)
            (with_chart chart_path values_path tag w.files values (update_chart_yaml chart tag tag))
    edit_both-Ends chart values hc hv =
        rw (edit_file_lem chart_path chart (λ text. update_chart_yaml text tag tag) w hc)
          (go (update_chart_yaml chart tag tag))
      where
        go :
            (o : Option Text)
            → Ends
                (((λ u. edit_world chart_path o u) >> edit_values) w)
                (with_chart chart_path values_path tag w.files values o)
        go none = record { files = refl; result = refl }
        go (some t) = edit_values-Ends t values hv

    -- From the checks of the files on.
    files-Ends :
        (chart values : Option Text)
        → w.files chart_path ≡ chart
        → w.files values_path ≡ values
        → Ends
            ((required_file env chart_path
                >> (required_file env values_path >> (edit_chart >> edit_values)))
              w)
            (with_files chart_path values_path tag w.files chart values)
    files-Ends none values hc hv =
        rw (required-none env chart_path w hc) (record { files = refl; result = refl })
    files-Ends (some chart) none hc hv =
        rw (required-some env chart_path chart w hc, required-none env values_path w hv)
          (record { files = refl; result = refl })
    files-Ends (some chart) (some values) hc hv =
        rw (required-some env chart_path chart w hc, required-some env values_path values w hv)
          (edit_both-Ends chart values hc hv)

  -- Where no file operation fails and the two files differ, a run of the release script leaves
  -- what its result function says: with refused arguments, a missing file or a Chart.yaml without
  -- its two fields, no file changes and the run fails; with a values.yaml without a tag,
  -- Chart.yaml alone is rewritten and the run fails; otherwise both are rewritten.
  pub main-Ends :
      (resolve : Text → Text) (argv : List Text) (w : World)
      → ((dir : Text) → chart_yaml_path env resolve dir ≢ values_yaml_path env resolve dir)
      → Ends (main env resolve argv w) (run_result env resolve (check_arguments argv) w.files)
  unfolding main
  main-Ends resolve argv w apart = go (check_arguments argv)
    where
      go :
          (o : Option (Text × Text))
          → Ends
              ((or_throw o >>= λ (dir, tag).
                  required_file env (chart_yaml_path env resolve dir)
                  >> (required_file env (values_yaml_path env resolve dir)
                      >> (edit_file env
                            (chart_yaml_path env resolve dir)
                            (λ text. update_chart_yaml text tag tag)
                          >> edit_file env
                              (values_yaml_path env resolve dir)
                              (λ text. update_values_yaml text tag))))
                w)
              (run_result env resolve o w.files)
      go none = record { files = refl; result = refl }
      go (some (dir, tag)) = files-Ends resolve dir tag (apart dir) w _ _ refl refl
