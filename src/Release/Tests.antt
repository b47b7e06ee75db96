-- ===== src/Release/Tests.antt =====
-- The theorems on the release script at concrete inputs.
use agent_memory_manager.Base.{
  arith, ◌≡◌, ◌≢◌, ◌↔◌, refl, none, some, true, false, List, [], ◌∷◌, ◌++◌, All,
}
use agent_memory_manager.Base.Text.{
  Text, txt, trim, drop_end, text_eq, all_units, drop_start, is_space, starts_with,
}
use agent_memory_manager.Release.{
  is_semver, after_numbers, is_image, is_tag, tag_line, update_lines, tag_updated,
}
use agent_memory_manager.Release.Grammar.{IsVersion, is_semver_iff}
use agent_memory_manager.Release.Values.{is_plain_line, update_lines_again, update_lines_image}
use agent_memory_manager.Release.{parse_args}
use agent_memory_manager.Release.Flags.{written, parse_args-written, IsOption}
use agent_memory_manager.Release.Main.{main, check_arguments, chart_yaml_path, values_yaml_path}
use agent_memory_manager.Release.Main.Outcome.{Ends, run_result, main-Ends}
use agent_memory_manager.Effects.{World, put}
use agent_memory_manager.OpenClaw.Tests.World.{env, extended, text_ne}

abbrev candidate : Text
candidate = txt "1.2.3-rc.1"

is_semver-candidate : is_semver candidate ≡ true
unfolding is_semver after_numbers drop_start txt
is_semver-candidate = refl

abbrev values : List Text
values = txt "image:" ∷ txt "  repository: amm" ∷ txt "  tag: old" ∷ txt "service:" ∷ []

is_semver_iff_example : (is_semver candidate ≡ true) ↔ IsVersion candidate
is_semver_iff_example = is_semver_iff candidate

update_lines_again_example :
    (update_lines candidate false (update_lines candidate false values)
      ≡ update_lines candidate false values)
    × (tag_updated false (update_lines candidate false values) ≡ tag_updated false values)
update_lines_again_example = update_lines_again candidate false values is_semver-candidate

here :
    (is_image (txt "image:") ≡ true)
    × All (λ line. is_plain_line line ≡ true) (txt "  repository: amm" ∷ [])
    × (is_tag (txt "  tag: old") ≡ true)
unfolding is_image is_tag starts_with drop_start all_units is_space txt
here = (refl, (refl, tt), refl)

update_lines_image_example :
    update_lines candidate false
      (txt "image:" ∷ (txt "  repository: amm" ∷ []) ++ txt "  tag: old" ∷ txt "service:" ∷ [])
    ≡ txt "image:" ∷ (txt "  repository: amm" ∷ [])
      ++ tag_line candidate ∷ update_lines candidate true (txt "service:" ∷ [])
update_lines_image_example =
    update_lines_image candidate (txt "image:") (txt "  repository: amm" ∷ []) (txt "  tag: old")
      (txt "service:" ∷ []) here.0 here.1 here.2

abbrev options : List (Text × Text)
options = (txt "chart-dir", txt "charts/amm") ∷ (txt "release-tag", candidate) ∷ []

options-IsOption : All IsOption options
unfolding txt trim drop_start drop_end all_units is_space starts_with
options-IsOption = (((refl, refl), (refl, refl), refl), (((refl, refl), (refl, refl), refl), tt))

parse_args-written_example : parse_args (written options) ≡ some options
unfolding txt text_eq
parse_args-written_example = parse_args-written options options-IsOption (tt, ((refl, tt), tt))

abbrev chart_text : Text
chart_text = txt "name: amm\nversion: 1.0.0\nappVersion: 1.0.0\n"

-- A chart whose values hold no tag.
abbrev untagged : World
untagged = record extended {
  files =
      put (put (λ q. none) (txt "c/Chart.yaml") (some chart_text)) (txt "c/values.yaml")
        (some (txt "service: {}\n"));
}

apart : (dir : Text) → chart_yaml_path env (λ p. p) dir ≢ values_yaml_path env (λ p. p) dir
unfolding txt text_eq
apart [] = text_ne _ _ refl
apart (c ∷ dir) = λ e. apart dir (ground arith)

main-Ends_example :
    Ends
      (main env (λ p. p) (written options) untagged)
      (run_result env (λ p. p) (check_arguments (written options)) untagged.files)
main-Ends_example = main-Ends env (λ n. refl) (λ p. p) (written options) untagged apart
