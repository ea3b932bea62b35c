-- ===== src/Offline/Alignment.antt =====
-- src/engine_runtime/engines/offline/timestamp_utils.py and the character tests of
-- src/core/text_utils.py: time stamps and the text that they belong to.
pub mod Tokens
pub mod Coverage
pub mod Fuel
use funasr_api.Prelude.{
  ℕ, zero, suc, ◌+◌, ◌==◌, Bool, true, false, ◌||◌, ◌&&◌, not, Option, none, some, List, [], ◌∷◌,
  ◌++◌, map, leb, if◌then◌else◌, length,
}
use funasr_api.Prelude.Int.{ℤ, pos, ◌+ℤ◌, ◌-ℤ◌, leb_ℤ, ltb_ℤ, max_ℤ}
use funasr_api.Prelude.Text.{Text, codes, is_in, is_space, is_empty}

unfoldable pub is_ascii_word_char : ℕ → Bool
is_ascii_word_char c =
    (leb 65 c && leb c 90)
    || (leb 97 c && leb c 122)
    || (leb 48 c && leb c 57)
    || c == 39
    || c == 45

-- `set("。！？!?，,、：:；;（）()【】[]《》<>""''…")`: the two straight double quotes end one literal
-- and begin the next one, so that the double quote is not in the set and the apostrophe is.
abbrev pub separators : Text
separators = codes "。！？!?，,、：:；;（）()【】[]《》<>''…"

unfoldable pub is_text_separator : ℕ → Bool
unfolding is_space is_in
is_text_separator c = is_space c || is_in c separators

-- An item of a list of time stamps: `[start, end]`, `[text, start, end]`, or a value that
-- is neither, with fewer than two entries.
pub data Item : Type 0 where
  pair : ℤ → ℤ → Item
  triple : Text → ℤ → ℤ → Item
  other : Item

unfoldable pub normalize_item : Item → List Item
normalize_item (pair start end) = triple [] start end ∷ []
normalize_item (triple text start end) = triple text start end ∷ []
normalize_item other = []

unfoldable pub normalize_items : List Item → List Item
unfolding normalize_item
normalize_items [] = []
normalize_items (item ∷ items) = normalize_item item ++ normalize_items items

-- `normalized or None`
abbrev pub or_none : List Item → Option (List Item)
or_none [] = none
or_none (item ∷ items) = some (item ∷ items)

-- For a list; any other value gives None.
unfoldable pub normalize_timestamps : List Item → Option (List Item)
unfolding normalize_items
normalize_timestamps items = or_none (normalize_items items)

unfoldable pub shift : ℤ → List Item → List Item
shift offset_ms [] = []
shift offset_ms (triple text start end ∷ items) =
    triple text (start +ℤ offset_ms) (end +ℤ offset_ms) ∷ shift offset_ms items
shift offset_ms (pair start end ∷ items) = shift offset_ms items
shift offset_ms (other ∷ items) = shift offset_ms items

unfoldable pub offset_timestamps : List Item → ℤ → List Item
unfolding shift
offset_timestamps timestamps offset_ms =
    if leb_ℤ offset_ms (pos 0) then timestamps else shift offset_ms timestamps

pub record Token : Type 0 where
  pub text : Text
  pub start : ℤ
  pub end : ℤ

-- The inner loop: the rest of an ASCII word, and what follows it.
unfoldable pub word_rest : Text → Text
unfolding is_ascii_word_char
word_rest [] = []
word_rest (c ∷ s) = let rest = word_rest s in if is_ascii_word_char c then c ∷ rest else []

unfoldable pub after_word : Text → Text
unfolding is_ascii_word_char
after_word [] = []
after_word (c ∷ s) = let rest = after_word s in if is_ascii_word_char c then rest else c ∷ s

-- `tokens[-1]["text"] += more`
unfoldable pub extend_last : Text → List Token → List Token
extend_last more [] = []
extend_last more (t ∷ []) = record t { text = t.text ++ more } ∷ []
extend_last more (t ∷ u ∷ tokens) = t ∷ extend_last more (u ∷ tokens)

pub record Alignment : Type 0 where
  pub tokens : List Token
  pub pending_prefix : Text
  -- `timestamps[timestamp_index:]`
  pub timestamps : List Item

abbrev pub has_tokens : List Token → Bool
has_tokens [] = false
has_tokens (t ∷ tokens) = true

unfoldable pub add_separator : ℕ → Alignment → Alignment
unfolding extend_last
add_separator c a =
    if has_tokens a.tokens
    then record a { tokens = extend_last (c ∷ []) a.tokens }
    else record a { pending_prefix = a.pending_prefix ++ c ∷ [] }

unfoldable pub take_item : Text → List Item → Alignment → Alignment
unfolding extend_last
take_item unit [] a =
    if has_tokens a.tokens then record a { tokens = extend_last unit a.tokens } else a
take_item unit (triple text start end ∷ items) a = record {
  tokens = a.tokens ++ record { text = a.pending_prefix ++ unit; start = start; end = end } ∷ [];
  pending_prefix = [];
  timestamps = items;
}
take_item unit (pair start end ∷ items) a = record a { timestamps = items }
take_item unit (other ∷ items) a = record a { timestamps = items }

abbrev pub add_unit : Text → Alignment → Alignment
add_unit unit a = take_item unit a.timestamps a

-- What one pass makes of the state, and the text that it leaves.
unfoldable pub read_unit : ℕ → Text → Alignment → Alignment
unfolding is_text_separator is_ascii_word_char word_rest add_separator take_item
read_unit c text a =
    if is_text_separator c
    then add_separator c a
    else if is_ascii_word_char c
    then add_unit (c ∷ word_rest text) a
    else add_unit (c ∷ []) a

unfoldable pub after_unit : ℕ → Text → Text
unfolding is_text_separator is_ascii_word_char after_word
after_unit c text =
    if is_text_separator c then text else if is_ascii_word_char c then after_word text else text

-- The loop over the text. Each pass reads one character at least, so that the length of the
-- text is enough fuel.
unfoldable pub align : ℕ → Text → Alignment → Alignment
unfolding read_unit after_unit
align zero text a = a
align (suc fuel) [] a = a
align (suc fuel) (c ∷ text) a = align fuel (after_unit c text) (read_unit c text a)

abbrev pub finish : Alignment → List Token
finish a =
    if not (is_empty a.pending_prefix) && has_tokens a.tokens
    then extend_last a.pending_prefix a.tokens
    else a.tokens

unfoldable pub align_text_to_timestamps : Text → List Item → List Token
unfolding align extend_last is_empty
align_text_to_timestamps text timestamps = finish (
    align (length text) text (record { tokens = []; pending_prefix = []; timestamps = timestamps }))
