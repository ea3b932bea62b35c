-- ===== src/Online/Times.antt =====
-- src/engine_runtime/engines/online/timestamp_utils.py with the tokens of src/core/text_utils.py: the
-- time stamps of a segment in the time of its session.
pub mod Bounds
use funasr_api.Prelude.{
  ℕ, suc, ◌+◌, ◌==◌, Bool, true, false, ◌&&◌, not, List, [], ◌∷◌, ◌++◌, if◌then◌else◌,
}
use funasr_api.Prelude.Int.{ℤ, pos, ◌+ℤ◌, ◌-ℤ◌, leb_ℤ, ltb_ℤ, max_ℤ, min_ℤ}
use funasr_api.Prelude.Text.{Text, is_space, is_empty, strip}

-- An item of the payload of a model: two numbers; three entries or more of which the last two are
-- numbers, with the first one as text; or anything else. A number is rounded to milliseconds.
pub data Stamp : Type 0 where
  two : ℤ → ℤ → Stamp
  more : Text → ℤ → ℤ → Stamp
  neither : Stamp

-- `[token, start, end]`
pub record Timed : Type 0 where
  pub token : Text
  pub start : ℤ
  pub end : ℤ

-- `str.replace(" ", "")`
unfoldable pub without_blanks : Text → Text
without_blanks [] = []
without_blanks (c ∷ s) = let rest = without_blanks s in if c == 32 then rest else c ∷ rest

unfoldable pub compact_token_text : Text → Text
unfolding without_blanks strip
compact_token_text text = strip (without_blanks text)

-- The characters of a text that `strip` does not remove, each by itself.
unfoldable pub text_tokens : Text → List Text
unfolding is_space
text_tokens [] = []
text_tokens (c ∷ s) = let rest = text_tokens s in if is_space c then rest else (c ∷ []) ∷ rest

-- `raw_tokens[index] if index < len(raw_tokens) else ""`, and what is left for the next index.
abbrev pub first_token : List Text → Text
first_token [] = []
first_token (t ∷ ts) = t

abbrev pub next_tokens : List Text → List Text
next_tokens [] = []
next_tokens (t ∷ ts) = ts

-- `item_token or token`
abbrev pub token_or : Text → Text → Text
token_or item_token token = if is_empty item_token then token else item_token

-- The first loop: `normalized`.
unfoldable pub normalize_stamps : List Text → List Stamp → List Timed
unfolding compact_token_text is_empty
normalize_stamps tokens [] = []
normalize_stamps tokens (two start end ∷ stamps) =
    record { token = first_token tokens; start = start; end = end }
    ∷ normalize_stamps (next_tokens tokens) stamps
normalize_stamps tokens (more text start end ∷ stamps) =
    record {
      token = token_or (compact_token_text text) (first_token tokens);
      start = start;
      end = end;
    }
    ∷ normalize_stamps (next_tokens tokens) stamps
normalize_stamps tokens (neither ∷ stamps) = normalize_stamps (next_tokens tokens) stamps

-- `max_observed`, from 0 on.
unfoldable pub max_observed : ℤ → List Timed → ℤ
max_observed observed [] = observed
max_observed observed (t ∷ ts) = max_observed (max_ℤ observed (max_ℤ t.start t.end)) ts

-- `max(start_ms, min(value, end_ms))`
abbrev pub clamp : ℤ → ℤ → ℤ → ℤ
clamp start_ms end_ms value = max_ℤ start_ms (min_ℤ value end_ms)

-- A pass of the second loop, for the offset that is added.
abbrev pub globalize : ℤ → ℤ → ℤ → Timed → Timed
globalize start_ms end_ms offset t =
    let token_start = clamp start_ms end_ms (t.start +ℤ offset) in
    let token_end = clamp start_ms end_ms (t.end +ℤ offset) in
    record {
      token = t.token;
      start = token_start;
      end = if ltb_ℤ token_end token_start then token_start else token_end;
    }

unfoldable pub globalize_all : ℤ → ℤ → ℤ → List Timed → List Timed
globalize_all start_ms end_ms offset [] = []
globalize_all start_ms end_ms offset (t ∷ ts) =
    globalize start_ms end_ms offset t ∷ globalize_all start_ms end_ms offset ts

-- `should_offset` and what is then added.
abbrev pub offset_of : ℤ → ℤ → List Timed → ℤ
offset_of padded_start_ms padded_end_ms normalized =
    let local_duration_ms = max_ℤ (pos 0) (padded_end_ms -ℤ padded_start_ms) in
    if leb_ℤ (max_observed (pos 0) normalized) (local_duration_ms +ℤ pos 1000)
    then padded_start_ms
    else pos 0

-- `extract_global_timestamps`, from the payload that `extract_timestamp_payload` has found.
unfoldable pub extract_global_timestamps : List Stamp → Text → ℤ → ℤ → ℤ → ℤ → List Timed
unfolding normalize_stamps text_tokens max_observed globalize_all
extract_global_timestamps payload raw_text start_ms end_ms padded_start_ms padded_end_ms =
    let normalized = normalize_stamps (text_tokens raw_text) payload in
    globalize_all start_ms end_ms (offset_of padded_start_ms padded_end_ms normalized) normalized
