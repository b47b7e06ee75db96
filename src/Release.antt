-- ===== src/Release.antt =====
-- scripts/release/prepare-helm-chart-release.mjs: the flags, the version check, the edits of the two
-- YAML files, and the run.
pub mod Version
pub mod Values
pub mod Main
pub mod Flags
pub mod Grammar
mod Tests
use agent_memory_manager.Base.{
  ℕ, Bool, true, false, not, ◌&&◌, ◌||◌, Option, none, some, List, [], ◌∷◌, ◌++◌, ◌==◌, leb, length,
  drop, if◌then◌else◌,
}
use agent_memory_manager.Base.Json.{get_or}
use agent_memory_manager.Base.Text.{
  Text, txt, is_empty, is_space, drop_start, trim, starts_with, all_units, join, text_eq,
}

-- `token.slice(2).trim()`
abbrev pub flag_key : Text → Text
flag_key token = trim (drop 2 token)

abbrev pub is_flag : Text → Bool
is_flag token = starts_with token (txt "--")

-- `options.set(key, value)`: a key that is there keeps its place.
unfoldable pub set_option : List (Text × Text) → Text → Text → List (Text × Text)
set_option [] key value = (key, value) ∷ []
set_option ((k, v) ∷ options) key value =
    let rest = set_option options key value in
    if text_eq k key then (k, value) ∷ options else (k, v) ∷ rest

-- The loop; `none` is `fail`, which ends the process.
unfoldable pub parse_from : List (Text × Text) → List Text → Option (List (Text × Text))
parse_from options [] = some options
parse_from options (token ∷ []) = none
parse_from options (token ∷ value ∷ argv) =
    let rest = parse_from (set_option options (flag_key token) (trim value)) argv in
    if not (is_flag token) || is_empty (flag_key token) || is_empty value || is_flag value
    then none
    else rest

abbrev pub parse_args : List Text → Option (List (Text × Text))
parse_args argv = parse_from [] argv

abbrev pub is_digit : ℕ → Bool
is_digit c = leb b'0' c && leb c b'9'

-- `[0-9A-Za-z.-]`
abbrev pub is_identifier_unit : ℕ → Bool
is_identifier_unit c =
    is_digit c || leb b'A' c && leb c b'Z' || leb b'a' c && leb c b'z' || c == b'.' || c == b'-'

-- What follows one unit or more that pass a test; `none` where there is no such unit.
abbrev pub after_some : (ℕ → Bool) → Text → Option Text
after_some p [] = none
after_some p (c ∷ s) = if p c then some (drop_start p s) else none

abbrev pub after_unit : ℕ → Text → Option Text
after_unit c [] = none
after_unit c (d ∷ s) = if d == c then some s else none

abbrev pub then_on : Option Text → (Text → Option Text) → Option Text
then_on none f = none
then_on (some s) f = f s

-- `(?:c[0-9A-Za-z.-]+)?`; where the unit is there and no identifier follows, what is left cannot
-- match the rest of the pattern.
abbrev pub after_part : ℕ → Text → Text
after_part c [] = []
after_part c (d ∷ s) = if d == c then get_or (after_some is_identifier_unit s) (d ∷ s) else d ∷ s

abbrev pub is_end : Option Text → Bool
is_end (some []) = true
is_end s = false

-- What follows `\d+\.\d+\.\d+`.
unfoldable pub after_numbers : Text → Option Text
after_numbers s = then_on (after_some is_digit s) λ a.
    then_on (after_unit b'.' a) λ b.
      then_on (after_some is_digit b) λ c. then_on (after_unit b'.' c) λ d. after_some is_digit d

-- `semverPattern.test(versionText)`
unfoldable pub is_semver : Text → Bool
unfolding after_numbers
is_semver s =
    is_end (then_on (after_numbers s) λ rest. some (after_part b'+' (after_part b'-' rest)))

-- A unit that `.` of a pattern does not match.
abbrev pub is_terminator : ℕ → Bool
is_terminator c = c == 10 || c == 13 || c == 0x2028 || c == 0x2029

abbrev pub no_terminator : ℕ → Bool
no_terminator c = not (is_terminator c)

-- `/^image:\s*$/.test(line)`
unfoldable pub is_image : Text → Bool
is_image line = starts_with line (txt "image:") && all_units is_space (drop 6 line)

-- `/^[A-Za-z]/.test(line)`
abbrev pub is_top_key : Text → Bool
is_top_key [] = false
is_top_key (c ∷ s) = leb b'A' c && leb c b'Z' || leb b'a' c && leb c b'z'

-- `/^  tag:\s*.*$/.test(line)`
unfoldable pub is_tag : Text → Bool
is_tag line =
    starts_with line (txt "  tag:") && all_units no_terminator (drop_start is_space (drop 6 line))

unfoldable pub tag_line : Text → Text
tag_line tag = txt "  tag: \"" ++ (tag ++ txt "\"")

-- `inImageBlock` after a line
abbrev pub in_block_after : Bool → Text → Bool
in_block_after in_block line = if is_image line then true else in_block && not (is_top_key line)

-- Whether a line is replaced.
abbrev pub is_edited : Bool → Text → Bool
is_edited in_block line = not (is_image line) && in_block_after in_block line && is_tag line

unfoldable pub update_lines : Text → Bool → List Text → List Text
update_lines tag in_block [] = []
update_lines tag in_block (line ∷ lines) =
    (if is_edited in_block line then tag_line tag else line)
    ∷ update_lines tag (in_block_after in_block line) lines

-- `tagUpdated`
unfoldable pub tag_updated : Bool → List Text → Bool
tag_updated in_block [] = false
tag_updated in_block (line ∷ lines) =
    is_edited in_block line || tag_updated (in_block_after in_block line) lines

abbrev starts_line_feed : Text → Bool
starts_line_feed [] = false
starts_line_feed (c ∷ s) = c == 10

abbrev push_unit : ℕ → List Text → List Text
push_unit c [] = (c ∷ []) ∷ []
push_unit c (line ∷ lines) = (c ∷ line) ∷ lines

-- `text.split(/\r?\n/)`
unfoldable pub split_lines : Text → List Text
split_lines [] = [] ∷ []
split_lines (c ∷ s) =
    let rest = split_lines s in
    if c == 10 then [] ∷ rest else if c == 13 && starts_line_feed s then rest else push_unit c rest

-- `updateValuesYaml` on the text of the file; `none` is `fail`, with nothing written.
unfoldable pub update_values_yaml : Text → Text → Option Text
unfolding update_lines tag_updated split_lines
update_values_yaml text release_tag =
    let lines = split_lines text in
    if tag_updated false lines
    then some (join (b'\n' ∷ []) (update_lines release_tag false lines))
    else none

-- One replacement by the pattern `^key\s*.*$` with the flag m, of which only the first match counts;
-- `none` where there is none.
unfoldable pub replace_field : Text → Text → Bool → Text → Option Text
replace_field key new line_start [] = none
replace_field key new line_start (c ∷ s) =
    let rest = replace_field key new (is_terminator c) s in
    if line_start && starts_with (c ∷ s) key
    then some (new ++ drop_start no_terminator (drop_start is_space (drop (length key) (c ∷ s))))
    else then_on rest (λ t. some (c ∷ t))

-- `updateChartYaml` on the text of the file; `none` is `fail`, with nothing written.
unfoldable pub update_chart_yaml : Text → Text → Text → Option Text
unfolding replace_field
update_chart_yaml original chart_version release_tag =
    then_on (replace_field (txt "version:") (txt "version: " ++ chart_version) true original)
      (replace_field (txt "appVersion:") (txt "appVersion: \"" ++ (release_tag ++ txt "\"")) true)
