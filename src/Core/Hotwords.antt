-- ===== src/Core/Hotwords.antt =====
-- src/core/hotwords/loader.py: the canonical hotword format, and the order of preference in which
-- a request's hotwords are found. `json.loads` is a parameter, with `none` for a decode error.
pub mod Format
pub mod Priority
use funasr_api.Prelude.{
  ℕ, ◌+◌, Bool, true, false, ◌&&◌, ◌||◌, not, Option, none, some, List, [], ◌∷◌, ◌++◌,
  if◌then◌else◌, length, ◌==◌, map,
}
use funasr_api.Prelude.Int.{ℤ, pos, ltb_ℤ}
use funasr_api.Prelude.Text.{Text, codes, is_empty, strip, text_eq}

-- A decoded JSON value. An object is the list of its members with distinct names.
mutual
  pub data Json : Type 0 where
    null : Json
    boolean : Bool → Json
    integer : ℤ → Json
    float : Json
    text : Text → Json
    array : Items → Json
    object : Members → Json

  pub data Items : Type 0 where
    no_items : Items
    item : Json → Items → Items

  pub data Members : Type 0 where
    no_members : Members
    member : Text → Json → Members → Members

pub record Hotword : Type 0 where
  pub weight : ℤ
  pub hotword : Text

-- `item["weight"]`, `item["hotword"]`
unfoldable pub find_member : Text → Members → Option Json
find_member key no_members = none
find_member key (member name value ms) = if text_eq name key then some value else find_member key ms

unfoldable pub count_members : Members → ℕ
count_members no_members = 0
count_members (member name value ms) = count_members ms + 1

-- An `int` that is no `bool`, from 1 to 100.
unfoldable pub read_weight : Option Json → Option ℤ
read_weight (some (integer w)) = if ltb_ℤ w (pos 1) || ltb_ℤ (pos 100) w then none else some w
read_weight _ = none

-- A `str` that is not blank, stripped.
unfoldable pub read_word : Option Json → Option Text
read_word (some (text word)) = if is_empty (strip word) then none else some (strip word)
read_word _ = none

abbrev pair_up : Option ℤ → Option Text → Option Hotword
pair_up (some w) (some word) = some (record { weight = w; hotword = word })
pair_up _ _ = none

-- One item of `_normalize_hotword_items`: an object with exactly the two names.
unfoldable pub read_item : Json → Option Hotword
unfolding count_members find_member read_weight read_word
read_item (object ms) =
    if count_members ms == 2
    then pair_up (read_weight (find_member (codes "weight") ms))
        (read_word (find_member (codes "hotword") ms))
    else none
read_item _ = none

abbrev prepend : Option Hotword → Option (List Hotword) → Option (List Hotword)
prepend (some h) (some hs) = some (h ∷ hs)
prepend _ _ = none

-- `_normalize_hotword_items`: `none` is `InvalidHotwordFormatError`.
normalize_items : Items → Option (List Hotword)
unfolding read_item
normalize_items no_items = some []
normalize_items (item j js) = prepend (read_item j) (normalize_items js)

unfoldable pub normalize_hotword_items : Json → Option (List Hotword)
unfolding normalize_items
normalize_hotword_items (array js) = normalize_items js
normalize_hotword_items _ = none

-- What the model is given: pairs of weight and word, or the words joined by spaces.
pub data Formatted : Type 0 where
  pairs : List Hotword → Formatted
  words : Text → Formatted

join_words : List Hotword → Text
join_words [] = []
join_words (h ∷ []) = h.hotword
join_words (h ∷ hs) = h.hotword ++ codes " " ++ join_words hs

-- The entries with a word that is not empty.
with_word : List Hotword → List Hotword
with_word [] = []
with_word (h ∷ hs) = let rest = with_word hs in if is_empty h.hotword then rest else h ∷ rest

unfoldable pub format_hotwords_for_model : List Hotword → Bool → Formatted
unfolding with_word join_words
format_hotwords_for_model hotwords weighted =
    if weighted then pairs (with_word hotwords) else words (join_words (with_word hotwords))

-- `ResolvedHotwords`
pub record Resolved : Type 0 where
  pub value : Formatted
  pub count : ℕ

abbrev pub has_items {ℓ} : {A : Type ℓ} → List A → Bool
has_items [] = false
has_items (x ∷ xs) = true

module _ (json_loads : Text → Option Json) (lookup : ℕ → Option (List Hotword)) where
  -- `parse_hotwords` of a text.
  unfoldable pub parse_hotwords : Text → Option (List Hotword)
  unfolding normalize_hotword_items
  parse_hotwords hotwords_text = elim (json_loads hotwords_text) [
    | none ↦ none
    | some j ↦ normalize_hotword_items j
  ]

  -- `get_hotwords_by_id`: a lookup that raises finds nothing.
  unfoldable pub get_hotwords_by_id : ℕ → List Hotword
  get_hotwords_by_id hotword_id = elim (lookup hotword_id) [ none ↦ [] | some hs ↦ hs ]

  unfoldable pub lookup_all : List ℕ → List Hotword
  unfolding get_hotwords_by_id
  lookup_all [] = []
  lookup_all (id ∷ ids) = get_hotwords_by_id id ++ lookup_all ids

  abbrev resolved : Bool → List Hotword → Resolved
  resolved weighted hs = record { value = format_hotwords_for_model hs weighted; count = length hs }

  -- The last resort: the default ids, and no hotwords at all.
  unfoldable pub resolve_default : Bool → List ℕ → Resolved
  unfolding lookup_all
  resolve_default weighted ids =
      let found = lookup_all ids in
      if has_items found then resolved weighted found else record { value = pairs []; count = 0 }

  unfoldable pub resolve_by_id : Bool → Option ℕ → List ℕ → Resolved
  unfolding resolve_default
  resolve_by_id weighted none ids = resolve_default weighted ids
  resolve_by_id weighted (some id) ids =
      let found = get_hotwords_by_id id in
      if has_items found then resolved weighted found else resolve_default weighted ids

  -- `resolve_hotwords_with_priority`: `none` where the custom text is invalid.
  unfoldable pub resolve_hotwords_with_priority :
      Bool → Option Text → Option ℕ → List ℕ → Option Resolved
  unfolding resolve_by_id parse_hotwords
  resolve_hotwords_with_priority weighted none id ids = some (resolve_by_id weighted id ids)
  resolve_hotwords_with_priority weighted (some custom) id ids = elim (parse_hotwords custom) [
    | none ↦ none
    | some found ↦
        if has_items found
        then some (resolved weighted found)
        else some (resolve_by_id weighted id ids)
  ]
