-- ===== src/Release/Values.antt =====
-- updateValuesYaml: the line that is edited, and the edit of the lines a second time.
use agent_memory_manager.Base.{
  ℕ, ◌≡◌, refl, Bool, true, false, not, ◌&&◌, ◌||◌, List, [], ◌∷◌, ◌++◌, All, arith, if◌then◌else◌,
}
use agent_memory_manager.Base.Text.{Text, txt, is_space, starts_with, drop_start, all_units}
use agent_memory_manager.Release.{
  is_image, is_top_key, is_tag, tag_line, in_block_after, is_edited, update_lines, tag_updated,
  is_semver, no_terminator,
}
use agent_memory_manager.Release.Version.{is_version_unit, is_semver-plain}

unit-no_terminator : (c : ℕ) → is_version_unit c ≡ true → no_terminator c ≡ true
unit-no_terminator c h = ground arith

quoted-no_terminator :
    (tag : Text)
    → all_units is_version_unit tag ≡ true
    → all_units no_terminator (tag ++ b'"' ∷ []) ≡ true
unfolding all_units
quoted-no_terminator [] h = refl
quoted-no_terminator (c ∷ tag) h = ground (arith, unit-no_terminator c, quoted-no_terminator tag)

module _ (tag : Text) (plain : all_units is_version_unit tag ≡ true) where
  tag_line-is_tag : is_tag (tag_line tag) ≡ true
  unfolding is_tag tag_line txt starts_with drop_start is_space all_units
  tag_line-is_tag = quoted-no_terminator tag plain

  tag_line_no_image : is_image (tag_line tag) ≡ false
  unfolding is_image tag_line txt starts_with
  tag_line_no_image = refl

  tag_line_no_key : is_top_key (tag_line tag) ≡ false
  unfolding tag_line txt
  tag_line_no_key = refl

  updated : Bool → Text → Text
  updated in_block line = if is_edited in_block line then tag_line tag else line

  in_block_after-updated :
      (in_block : Bool) (line : Text)
      → in_block_after in_block (updated in_block line) ≡ in_block_after in_block line
  unfolding updated
  in_block_after-updated in_block line = ground (arith, tag_line_no_image, tag_line_no_key)

  updated_twice :
      (in_block : Bool) (line : Text)
      → updated in_block (updated in_block line) ≡ updated in_block line
  unfolding updated
  updated_twice in_block line = ground (arith, tag_line_no_image, tag_line_no_key, tag_line-is_tag)

  is_edited-updated :
      (in_block : Bool) (line : Text)
      → is_edited in_block (updated in_block line) ≡ is_edited in_block line
  unfolding updated
  is_edited-updated in_block line =
      ground (arith, tag_line_no_image, tag_line_no_key, tag_line-is_tag)

  update_lines_twice :
      (in_block : Bool) (lines : List Text)
      → update_lines tag in_block (update_lines tag in_block lines)
        ≡ update_lines tag in_block lines
  unfolding update_lines updated
  update_lines_twice in_block [] = refl
  update_lines_twice in_block (line ∷ lines) =
      rw
        (
          updated_twice in_block line,
          in_block_after-updated in_block line,
          update_lines_twice (in_block_after in_block line) lines,
        )
        refl

  tag_updated_twice :
      (in_block : Bool) (lines : List Text)
      → tag_updated in_block (update_lines tag in_block lines) ≡ tag_updated in_block lines
  unfolding tag_updated update_lines updated
  tag_updated_twice in_block [] = refl
  tag_updated_twice in_block (line ∷ lines) =
      rw
        (
          is_edited-updated in_block line,
          in_block_after-updated in_block line,
          tag_updated_twice (in_block_after in_block line) lines,
        )
        refl

-- With a release version as the tag, editing the edited lines again changes nothing, and a second
-- run finds a tag to update exactly if the first did.
pub update_lines_again :
    (tag : Text) (in_block : Bool) (lines : List Text)
    → is_semver tag ≡ true
    → (update_lines tag in_block (update_lines tag in_block lines)
        ≡ update_lines tag in_block lines)
      × (tag_updated in_block (update_lines tag in_block lines) ≡ tag_updated in_block lines)
update_lines_again tag in_block lines h = (
  update_lines_twice tag (is_semver-plain tag h) in_block lines,
  tag_updated_twice tag (is_semver-plain tag h) in_block lines,
)

-- A line that is no image key, no top-level key and no tag.
abbrev pub is_plain_line : Text → Bool
is_plain_line line = not (is_image line) && not (is_top_key line) && not (is_tag line)

is_tag-indented : (t : Text) → is_tag t ≡ true → (is_image t || is_top_key t) ≡ false
unfolding is_tag is_image txt starts_with
is_tag-indented [] h = ground arith
is_tag-indented (c ∷ s) h = ground arith

module _ (tag : Text) where
  in_block-tag :
      (body : List Text) (t : Text) (rest : List Text)
      → All (λ line. is_plain_line line ≡ true) body
      → is_tag t ≡ true
      → update_lines tag true (body ++ t ∷ rest) ≡ body ++ tag_line tag ∷ update_lines tag true rest
  unfolding update_lines
  in_block-tag [] t rest plain h = ground (arith, is_tag-indented t h)
  in_block-tag (line ∷ body) t rest plain h =
      ground (arith, plain.0, in_block-tag body t rest plain.1 h)

  -- In an image block whose tag has only plain lines before it, that line becomes the line of the
  -- new tag and the lines before it stay; the block goes on after it.
  pub update_lines_image :
      (image : Text) (body : List Text) (t : Text) (rest : List Text)
      → is_image image ≡ true
      → All (λ line. is_plain_line line ≡ true) body
      → is_tag t ≡ true
      → update_lines tag false (image ∷ body ++ t ∷ rest)
        ≡ image ∷ body ++ tag_line tag ∷ update_lines tag true rest
  unfolding update_lines
  update_lines_image image body t rest here plain h =
      ground (arith, in_block-tag body t rest plain h)
