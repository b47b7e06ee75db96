-- ===== src/OpenClaw/Curated/Format.antt =====
-- The entries of a curated file: what is written with the delimiter between the entries is read back.
use agent_memory_manager.Base.{
  ◌≡◌, refl, sym, ap, ◌∙◌, true, false, List, [], ◌∷◌, ◌++◌, arith, All, map, keep, keep-All,
  append-nil, append_assoc, Bool-cases, inl, inr,
}
use agent_memory_manager.Base.Text.{
  Text, is_empty, is_space, trim, drop_start, drop_end, all_units, split, join,
}
use agent_memory_manager.Base.Text.Split.{Lacks}
use agent_memory_manager.Base.Text.Delimited.{split-join_delimited}
use agent_memory_manager.Base.Text.Trim.{
  StartsClean, EndsClean, trim-StartsClean, trim-EndsClean, trim_of_clean,
}
use agent_memory_manager.Base.Text.Split.{split-All-Lacks}
use agent_memory_manager.Base.Text.Lines.{
  IsTidy, trim-IsTidy, join-IsTidy, map-IsLine, trimmed_lines, join-split,
}
use agent_memory_manager.OpenClaw.Curated.Entries.{
  normalize_text, not_empty, entry_delimiter, parse_entries,
}

-- A text that can be an entry: it is normalized and not empty, and holds no section sign.
pub record IsEntry (e : Text) : Type 0 where
  pub normal : normalize_text e ≡ e
  pub filled : is_empty e ≡ false
  pub plain : Lacks 0xa7 e

map-normal : (entries : List Text) → All IsEntry entries → map normalize_text entries ≡ entries
map-normal [] h = refl
map-normal (e ∷ entries) h = rw (h.0.normal, map-normal entries h.1)

All-filled : (entries : List Text) → All IsEntry entries → All (λ e. not_empty e ≡ true) entries
All-filled [] h = tt
All-filled (e ∷ entries) h = (rw (h.0.filled), All-filled entries h.1)

All-plain : (entries : List Text) → All IsEntry entries → All (Lacks 0xa7) entries
All-plain [] h = tt
All-plain (e ∷ entries) h = (h.0.plain, All-plain entries h.1)

normal-StartsClean : (e : Text) → normalize_text e ≡ e → StartsClean is_space e
unfolding normalize_text
normal-StartsClean e h = rw (← h) (trim-StartsClean _)

-- A text that begins cleanly is not blank, whatever follows.
trim-filled :
    (e s : Text) → StartsClean is_space e → is_empty e ≡ false → is_empty (trim (e ++ s)) ≡ false
unfolding trim drop_start drop_end all_units
trim-filled [] s h k = cc
trim-filled (c ∷ e) s h k = ground arith

join-filled :
    (e : Text) (entries : List Text)
    → IsEntry e
    → is_empty (trim (join entry_delimiter (e ∷ entries))) ≡ false
unfolding join
join-filled e [] h =
    sym (ap (λ s. is_empty (trim s)) (append-nil e))
    ∙ trim-filled e [] (normal-StartsClean e h.normal) h.filled
join-filled e (f ∷ entries) h =
    ap (λ s. is_empty (trim s))
      (append_assoc e entry_delimiter (join entry_delimiter (f ∷ entries)))
    ∙ trim-filled e (entry_delimiter ++ join entry_delimiter (f ∷ entries))
        (normal-StartsClean e h.normal) h.filled

-- Entries that are normalized and not empty and hold no section sign, written with the delimiter
-- between them, are read back as they were.
pub parse_entries-join :
    (entries : List Text)
    → All IsEntry entries
    → parse_entries (join entry_delimiter entries) ≡ entries
unfolding parse_entries
parse_entries-join [] h = unfold join trim drop_start drop_end in refl
parse_entries-join (e ∷ entries) h =
    rw
      (
        join-filled e entries h.0,
        split-join_delimited b'\n' 0xa7 b'\n' (omega arith) e entries (All-plain (e ∷ entries) h),
      )
      (ap (keep not_empty) (map-normal (e ∷ entries) h)
        ∙ keep-All not_empty (e ∷ entries) (All-filled (e ∷ entries) h))

-- A text that is trimmed, on each of its lines too, is normalized.
normalize_text_of_tidy :
    (s : Text) → IsTidy s → StartsClean is_space s → EndsClean is_space s → normalize_text s ≡ s
unfolding normalize_text
normalize_text_of_tidy s h k l =
    let trimmed = trim_of_clean s k l in rw (trimmed, trimmed_lines s h l, join-split s, trimmed)

normalize_text-IsTidy : (s : Text) → IsTidy (normalize_text s)
unfolding normalize_text
normalize_text-IsTidy s =
    trim-IsTidy _ (join-IsTidy _ (map-IsLine _ (split-All-Lacks b'\n' (trim s))))

-- Normalizing an entry a second time changes nothing.
pub normalize_text_idempotent : (s : Text) → normalize_text (normalize_text s) ≡ normalize_text s
normalize_text_idempotent s =
    normalize_text_of_tidy (normalize_text s) (normalize_text-IsTidy s)
      (unfold normalize_text in trim-StartsClean _) (unfold normalize_text in trim-EndsClean _)

All-map-normal : (parts : List Text) → All (λ e. normalize_text e ≡ e) (map normalize_text parts)
All-map-normal [] = tt
All-map-normal (p ∷ parts) = (normalize_text_idempotent p, All-map-normal parts)

keep-normal :
    (entries : List Text)
    → All (λ e. normalize_text e ≡ e) entries
    → All (λ e. (normalize_text e ≡ e) × (is_empty e ≡ false)) (keep not_empty entries)
keep-normal [] h = tt
keep-normal (e ∷ entries) h = elim (Bool-cases (is_empty e)) [
  | inl empty ↦ rw empty (keep-normal entries h.1)
  | inr filled ↦ rw filled ((h.0, filled), keep-normal entries h.1)
]

-- Whatever a curated file holds, each of its entries is normalized, so that normalizing it again,
-- as the removal and the replacement do, changes nothing, and none is empty.
pub parse_entries-normal :
    (raw : Text) → All (λ e. (normalize_text e ≡ e) × (is_empty e ≡ false)) (parse_entries raw)
unfolding parse_entries
parse_entries-normal raw = elim (Bool-cases (is_empty (trim raw))) [
  | inl blank ↦ rw blank tt
  | inr filled ↦ rw filled (keep-normal _ (All-map-normal (split raw entry_delimiter)))
]
