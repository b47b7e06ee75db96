-- ===== src/OpenClaw/Recall/Render.antt =====
-- recall.ts: what the context block holds, and when there is none.
use agent_memory_manager.Base.{
  ℕ, zero, suc, ◌≤◌, ◌≡◌, refl, ap, sym, ◌∙◌, ◌↔◌, Bool, true, false, not, Option, some, none, List,
  [], ◌∷◌, ◌++◌, arith, length, length-append, take, All,
}
use agent_memory_manager.Base.Text.{Text, txt, is_empty, trim, join}
use agent_memory_manager.Base.Json.{Number, Json, null, prop, is_truthy}
use agent_memory_manager.Effects.{Env, World, Request, done, or_throw}
use agent_memory_manager.Effects.Rules.{>>=-done}
use agent_memory_manager.OpenClaw.Config.{AmmConfig}
use agent_memory_manager.OpenClaw.Transport.{recall, recall_payload, empty_object}
use agent_memory_manager.OpenClaw.Transport.Requests.{posted, reply_value, post_json_configured}
use agent_memory_manager.OpenClaw.Recall.{
  slice_count, item_lines, all_lines, joined, rendered, header_lines, footer_lines, shown,
  extract_items, render_recall, ambient_recall,
}

-- An item whose description is undefined or falsy.
abbrev undescribed : Option Json → Bool
undescribed none = true
undescribed (some desc) = not (is_truthy desc)

abbrev pub is_bare : Json → Bool
is_bare null = false
is_bare item = undescribed (prop "tight_description" item)

joined-le :
    (a b : Option (List Text)) (n : ℕ) (ls : List Text)
    → ((xs : List Text) → a ≡ some xs → length xs ≤ 1)
    → ((ys : List Text) → b ≡ some ys → length ys ≤ n)
    → joined a b ≡ some ls
    → length ls ≤ suc n
joined-le none b n ls ha hb h = ground arith
joined-le (some xs) none n ls ha hb h = ground arith
joined-le (some xs) (some ys) n ls ha hb h =
    ground (arith, ha xs refl, hb ys refl, length-append xs ys)

-- What is shown, and why nothing is.
shown_nothing : (o : Option (List Text)) → (shown o ≡ some none) ↔ (o ≡ some [])
shown_nothing none = ground arith
shown_nothing (some []) = ground arith
shown_nothing (some (x ∷ xs)) = ground arith

shown_block :
    (o : Option (List Text)) (block : Text)
    → shown o ≡ some (some block)
    → (lines : List Text) × (block ≡ join (b'\n' ∷ []) (header_lines ++ (lines ++ footer_lines)))
      × (o ≡ some lines)
      × (1 ≤ length lines)
shown_block none block h = ground arith
shown_block (some []) block h = ground arith
shown_block (some (x ∷ xs)) block h = (x ∷ xs, ground arith, refl, omega arith)

module _ (env : Env) where
  -- An item pushes one line at most, and none exactly if it is bare.
  item_lines-le : (item : Json) (ls : List Text) → item_lines env item ≡ some ls → length ls ≤ 1
  unfolding item_lines
  item_lines-le item ls h = ground arith

  item_lines-bare : (item : Json) → (item_lines env item ≡ some []) ↔ (is_bare item ≡ true)
  unfolding item_lines
  item_lines-bare item = ground arith

  all_lines-le :
      (items : List Json) (ls : List Text)
      → all_lines env items ≡ some ls
      → length ls ≤ length items
  unfolding all_lines
  all_lines-le [] ls h = ground arith
  all_lines-le (item ∷ items) ls h =
      joined-le (item_lines env item) (all_lines env items) (length items) ls (item_lines-le item)
        (all_lines-le items) h

  all_lines-bare :
      (items : List Json)
      → (all_lines env items ≡ some []) ↔ All (λ item. is_bare item ≡ true) items
  unfolding all_lines
  all_lines-bare [] = ground arith
  all_lines-bare (item ∷ items) = ground (arith, item_lines-bare item, all_lines-bare items)

length-take_le : {A : Type 0} (n : ℕ) (xs : List A) → length (take n xs) ≤ n
length-take_le zero xs = omega arith
length-take_le (suc n) [] = omega arith
length-take_le (suc n) (x ∷ xs) = omega (arith, length-take_le n xs)

take-nil : {A : Type 0} (n : ℕ) → take {A = A} n [] ≡ []
take-nil zero = refl
take-nil (suc n) = refl

module _ (env : Env) (raw : Json) (limit : Number) (items : List Json) where
  -- The items that are looked at.
  abbrev pub looked_at : List Json
  looked_at = take (slice_count limit (length items)) items

  render_recall_eq :
      extract_items raw ≡ some items → render_recall env raw limit ≡ shown (all_lines env looked_at)
  unfolding render_recall all_lines
  render_recall_eq h = rw h (go items)
    where
      go :
          (xs : List Json)
          → rendered env limit (some xs)
            ≡ shown (all_lines env (take (slice_count limit (length xs)) xs))
      go [] = rw (take-nil (slice_count limit 0)) refl
      go (x ∷ xs) = refl

  -- Nothing is injected exactly if no item that is looked at has a description.
  pub render_recall_nothing :
      extract_items raw ≡ some items
      → (render_recall env raw limit ≡ some none) ↔ All (λ item. is_bare item ≡ true) looked_at
  render_recall_nothing h = rw (render_recall_eq h) (
      (
        λ e. (all_lines-bare env looked_at).0 ((shown_nothing (all_lines env looked_at)).0 e),
        λ e. (shown_nothing (all_lines env looked_at)).1 ((all_lines-bare env looked_at).1 e),
      ))

  -- A block has its header, at least one line and at most as many as the limit, and its footer.
  pub render_recall_block :
      (block : Text)
      → extract_items raw ≡ some items
      → render_recall env raw limit ≡ some (some block)
      → (lines : List Text) × (block ≡ join (b'\n' ∷ []) (header_lines ++ (lines ++ footer_lines)))
        × (all_lines env looked_at ≡ some lines)
        × (1 ≤ length lines)
        × (length lines ≤ slice_count limit (length items))
  render_recall_block block h k =
      let (lines, whole, found, some_line) =
        shown_block (all_lines env looked_at) block (sym (render_recall_eq h) ∙ k) in
      (
        lines,
        whole,
        found,
        some_line,
        omega (
          arith,
          all_lines-le env looked_at lines found,
          length-take_le (slice_count limit (length items)) items,
        ),
      )

-- `{}` has no items.
render_recall-empty :
    (env : Env) (limit : Number) → render_recall env empty_object limit ≡ some none
unfolding render_recall extract_items prop
render_recall-empty env limit = refl

module _ (env : Env) (config : AmmConfig) (query : Text) (session_id : Option Text)
    (w : World) where
  -- The request of a recall.
  abbrev pub recall_request : Request
  recall_request =
      posted env config (txt "/recall") (recall_payload config query session_id) 10000 w

  -- With an API URL and a query that is not blank, a recall whose request fails, or whose reply is
  -- no JSON text, sends that one request, injects nothing and does not throw.
  pub ambient_recall_failed :
      is_empty config.api_url ≡ false
      → is_empty (trim query) ≡ false
      → reply_value env (env.reply w.step recall_request) ≡ empty_object
      → ((ambient_recall env config query session_id w).0 ≡ done none)
        × ((ambient_recall env config query session_id w).1.sent ≡ w.sent ++ recall_request ∷ [])
  unfolding ambient_recall recall
  ambient_recall_failed online not_blank failed =
      let sent =
        post_json_configured env config (txt "/recall") (recall_payload config query session_id)
          10000 w online in
      let value = sent.0 ∙ ap done failed in
      let eq =
        >>=-done (recall env config query session_id)
          (λ raw. or_throw (render_recall env raw config.recall_limit)) w empty_object value in
      rw (not_blank, eq, render_recall-empty env config.recall_limit) (refl, sent.1)
