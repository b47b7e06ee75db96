-- ===== src/OpenClaw/Config/Url.antt =====
-- `normalizeApiUrl` of config.ts.
use mathlib.Core.Path.{subst}
use agent_memory_manager.Base.{
  ◌≡◌, ◌⊎◌, inl, inr, refl, sym, ap, ◌∙◌, true, false, some, none, Option, [], ◌∷◌, ◌++◌,
  Bool-cases,
}
use agent_memory_manager.Base.Text.{Text, txt, is_empty, is_space, drop_end, trim, ends_with}
use agent_memory_manager.Base.Text.Trim.{
  StartsClean, EndsClean, EndsClean-append, drop_end_of_EndsClean, drop_end-keeps_StartsClean,
  trim_of_clean, trim-StartsClean, ends_with-append, ends_with→append,
}
use agent_memory_manager.OpenClaw.Config.{is_slash, normalize_api_url}

abbrev pub v1 : Text
v1 = txt "/v1"

-- A text that `normalizeApiUrl` leaves as it is.
pub record IsApiUrl (s : Text) : Type 0 where
  pub starts : StartsClean is_space s
  pub base : Text
  pub ends : s ≡ base ++ v1

v1-clean : EndsClean is_space v1 × EndsClean is_slash v1
unfolding txt is_space
v1-clean = (refl, refl)

clean-append : (base : Text) → EndsClean is_space (base ++ v1) × EndsClean is_slash (base ++ v1)
unfolding txt is_space
clean-append base = (
  EndsClean-append is_space base b'/' (b'v' ∷ b'1' ∷ []) refl,
  EndsClean-append is_slash base b'/' (b'v' ∷ b'1' ∷ []) refl,
)

append-v1-not_empty : (base : Text) → is_empty (base ++ v1) ≡ false
unfolding txt
append-v1-not_empty [] = refl
append-v1-not_empty (c ∷ base) = refl

IsApiUrl-fixed : (s : Text) → IsApiUrl s → normalize_api_url (some s) ≡ s
unfolding normalize_api_url
IsApiUrl-fixed s u =
    let clean = clean-append u.base in
    let trimmed : trim s ≡ s =
      trim_of_clean s u.starts (subst (EndsClean is_space) (sym u.ends) clean.0) in
    let stripped : drop_end is_slash (trim s) ≡ s =
      ap (drop_end is_slash) trimmed
      ∙ drop_end_of_EndsClean is_slash s (subst (EndsClean is_slash) (sym u.ends) clean.1) in
    let full : is_empty s ≡ false = ap is_empty u.ends ∙ append-v1-not_empty u.base in
    let suffix : ends_with s v1 ≡ true =
      ap (λ t. ends_with t v1) u.ends ∙ ends_with-append u.base v1 in
    rw (stripped, full, suffix)

StartsClean-append :
    (s t : Text) → is_empty s ≡ false → StartsClean is_space s → StartsClean is_space (s ++ t)
StartsClean-append [] t h k = cc
StartsClean-append (c ∷ s) t h k = k

-- A normalized API URL is empty, or ends in "/v1" and does not begin with white space.
pub normalize_api_url-IsApiUrl :
    (raw : Option Text) → (normalize_api_url raw ≡ []) ⊎ IsApiUrl (normalize_api_url raw)
unfolding normalize_api_url
normalize_api_url-IsApiUrl none = inl refl
normalize_api_url-IsApiUrl (some raw) =
    let t = drop_end is_slash (trim raw) in
    let starts = drop_end-keeps_StartsClean is_space is_slash (trim raw) (trim-StartsClean raw) in
    elim (Bool-cases (is_empty raw)) [
      | inl e ↦ rw e (inl refl)
      | inr e ↦ elim (Bool-cases (is_empty t)) [
        | inl f ↦ rw (e, f) (inl refl)
        | inr f ↦ elim (Bool-cases (ends_with t v1)) [
          | inl g ↦
              let (base, split) = ends_with→append t v1 g in
              rw (e, f, g) (inr (record { starts = starts; base = base; ends = split }))
          | inr g ↦
              rw (e, f, g)
                (inr (record { starts = StartsClean-append t v1 f starts; base = t; ends = refl }))
        ]
      ]
    ]

-- Normalizing an API URL a second time changes nothing.
pub normalize_api_url_idempotent :
    (raw : Option Text) → normalize_api_url (some (normalize_api_url raw)) ≡ normalize_api_url raw
normalize_api_url_idempotent raw = elim (normalize_api_url-IsApiUrl raw) [
  | inl e ↦ rw e (unfold normalize_api_url in refl)
  | inr u ↦ IsApiUrl-fixed (normalize_api_url raw) u
]
