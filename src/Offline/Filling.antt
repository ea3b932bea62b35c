-- ===== src/Offline/Filling.antt =====
-- `maybe_offset_timestamps` and `fill_timestamp_tokens` of
-- src/engine_runtime/engines/offline/timestamp_utils.py: time stamps that are moved into their
-- sentence, and those that get the text of their tokens.
pub mod Times
use funasr_api.Prelude.{
  ℕ, Bool, true, false, ◌&&◌, ◌||◌, not, ◌==◌, Option, none, some, List, [], ◌∷◌, ◌++◌, length,
  if◌then◌else◌,
}
use funasr_api.Prelude.Int.{ℤ, pos, ◌+ℤ◌, ◌-ℤ◌, leb_ℤ, ltb_ℤ, max_ℤ}
use funasr_api.Prelude.Text.{Text, is_space, is_empty}
use funasr_api.Offline.Alignment.{Item, pair, triple, other, is_text_separator}

-- `max(int(item[2]) for item in timestamps if len(item) >= 3)`; `none` is its ValueError.
unfoldable pub last_end : List Item → Option ℤ
last_end [] = none
last_end (triple text start end ∷ items) = elim (last_end items) [
  | none ↦ some end
  | some later ↦ some (max_ℤ end later)
]
last_end (pair start end ∷ items) = last_end items
last_end (other ∷ items) = last_end items

-- The items moved by `start_ms`; `none` is an IndexError.
unfoldable pub move_items : ℤ → List Item → Option (List Item)
move_items start_ms [] = some []
move_items start_ms (triple text start end ∷ items) = elim (move_items start_ms items) [
  | none ↦ none
  | some moved ↦ some (triple text (start +ℤ start_ms) (end +ℤ start_ms) ∷ moved)
]
move_items start_ms (pair start end ∷ items) = none
move_items start_ms (other ∷ items) = none

abbrev pub move_if_relative : ℤ → ℤ → List Item → Option ℤ → Option (List Item)
move_if_relative start_ms end_ms timestamps none = none
move_if_relative start_ms end_ms timestamps (some last) =
    let sentence_duration = max_ℤ (pos 0) (end_ms -ℤ start_ms) in
    if ltb_ℤ (pos 0) sentence_duration && leb_ℤ last (sentence_duration +ℤ pos 50)
    then move_items start_ms timestamps
    else some timestamps

abbrev pub no_items : List Item → Bool
no_items [] = true
no_items (item ∷ items) = false

unfoldable pub maybe_offset_timestamps : List Item → ℤ → ℤ → Option (List Item)
unfolding last_end move_items
maybe_offset_timestamps timestamps start_ms end_ms =
    if no_items timestamps || leb_ℤ start_ms (pos 0)
    then some timestamps
    else move_if_relative start_ms end_ms timestamps (last_end timestamps)

-- `str.split()`; `word` has what has been read of a word.
unfoldable pub split_words : Text → Text → List Text
unfolding is_space is_empty
split_words word [] = if is_empty word then [] else word ∷ []
split_words word (c ∷ text) =
    let next = split_words [] text in
    let longer = split_words (word ++ c ∷ []) text in
    if is_space c then (if is_empty word then next else word ∷ next) else longer

-- The characters that are neither white space nor separators.
unfoldable pub plain_chars : Text → List Text
unfolding is_text_separator
plain_chars [] = []
plain_chars (c ∷ text) =
    let rest = plain_chars text in if is_text_separator c then rest else (c ∷ []) ∷ rest

-- The loop over the pairs of a token and an item.
unfoldable pub fill : List Text → List Item → List Item
fill [] items = []
fill (token ∷ tokens) [] = []
fill (token ∷ tokens) (triple text start end ∷ items) = triple token start end ∷ fill tokens items
fill (token ∷ tokens) (pair start end ∷ items) = triple token start end ∷ fill tokens items
fill (token ∷ tokens) (other ∷ items) = fill tokens items

abbrev pub fill_if_same : List Text → List Item → List Item
fill_if_same tokens timestamps =
    if length tokens == length timestamps then fill tokens timestamps else timestamps

unfoldable pub fill_timestamp_tokens : Text → List Item → List Item
unfolding split_words plain_chars fill is_empty
fill_timestamp_tokens text timestamps =
    if is_empty text || no_items timestamps
    then timestamps
    else if length (split_words [] text) == length timestamps
    then fill (split_words [] text) timestamps
    else fill_if_same (plain_chars text) timestamps
