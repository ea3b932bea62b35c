-- ===== src/Offline/SpeakerMerge.antt =====
-- src/engine_runtime/engines/offline/onnx/speaker_merge.py with
-- src/engine_runtime/engines/offline/sentence_builder.py: the sentences of a recognition, with the
-- speakers of a diarization where there is one.
pub mod Kept
use funasr_api.Prelude.{
  ℕ, zero, suc, ◌+◌, ◌-◌, Bool, true, false, ◌&&◌, ◌||◌, not, Option, none, some, List, [], ◌∷◌,
  ◌++◌, ltb, leb, if◌then◌else◌, length, get_elem?, min,
}
use funasr_api.Prelude.Int.{ℤ, pos}
use funasr_api.Prelude.Text.{Text, codes, is_in, is_empty, strip}
use funasr_api.Offline.Alignment.{Item, pair, triple, other, Token, align_text_to_timestamps}
use funasr_api.Offline.Speakers.{
  SpeakerSegment, TimedUnit, Sentence, sort_segments, speaker_for_time_range_with_boundary,
  merge_timed_units_by_speaker,
}

-- A segment that has been recognized by itself.
pub record AsrSegment : Type 0 where
  pub text : Text
  pub start : ℤ
  pub end : ℤ
  pub timestamp : Option (List Item)

-- The keys of the payload that are read; a list that is missing is empty, as is a text.
pub record Payload : Type 0 where
  pub text : Text
  pub raw_text : Text
  pub timestamps : List Item
  pub asr_segments : List AsrSegment
  pub vad_segments : List (ℤ × ℤ)

-- `SpeakerResult`
pub record SpeakerResult : Type 0 where
  pub segments : List SpeakerSegment
  pub error : Option Text

-- `payload.get("text") or payload.get("raw_text") or ""`
abbrev pub text_of_payload : Payload → Text
text_of_payload p = if is_empty p.text then p.raw_text else p.text

abbrev pub terminals : Text
terminals = codes "。！？"

-- `_STRIP_CHARS`
abbrev pub strip_chars : Text
strip_chars = codes "。！？，、：；\"'（）【】《》 \t\r\n"

-- The complete sentences of `build_sentence_info_from_timestamps`; `current` has what has been
-- read of a sentence.
unfoldable pub complete_sentences : Text → Text → List Text
unfolding is_in is_empty strip
complete_sentences current [] = if is_empty (strip current) then [] else current ∷ []
complete_sentences current (c ∷ text) =
    let ended = complete_sentences [] text in
    let longer = complete_sentences (current ++ c ∷ []) text in
    if is_in c terminals then (current ++ c ∷ []) ∷ ended else longer

-- How many characters of a sentence have a time stamp.
unfoldable pub count_chars : Text → ℕ
unfolding is_in
count_chars [] = 0
count_chars (c ∷ s) = if is_in c strip_chars then count_chars s else count_chars s + 1

-- `timestamps[i][1]` as a start, and the end of a time stamp; `none` is an IndexError.
abbrev pub start_of_item : Item → ℤ
start_of_item (triple text start end) = start
start_of_item (pair start end) = end
start_of_item other = pos 0

abbrev pub end_of_item : Item → Option ℤ
end_of_item (triple text start end) = some end
end_of_item (pair start end) = some end
end_of_item other = none

abbrev pub plain_sentence : Text → ℤ → ℤ → Sentence
plain_sentence text start end = record {
  text = text;
  start = start;
  end = end;
  spk = 0;
  timestamp = none;
}

abbrev pub cons_sentence :
    Text → Option Item → Option Item → Option (List Sentence) → Option (List Sentence)
cons_sentence text (some first) (some last) (some later) = elim (end_of_item last) [
  | none ↦ none
  | some end ↦ some (plain_sentence (strip text) (start_of_item first) end ∷ later)
]
cons_sentence text first last later = none

-- The loop of `build_sentence_info_from_timestamps`, with the speaker 0 that its caller adds.
unfoldable pub sentences_by_time : List Text → ℕ → List Item → Option (List Sentence)
unfolding is_empty strip count_chars
sentences_by_time [] word_index timestamps = some []
sentences_by_time (sentence ∷ sentences) word_index timestamps =
    let end_index = min (word_index + count_chars sentence) (length timestamps - 1) in
    let skipped = sentences_by_time sentences word_index timestamps in
    let later = sentences_by_time sentences (end_index + 1) timestamps in
    if is_empty (strip sentence) || leb (length timestamps) word_index
    then skipped
    else cons_sentence sentence (get_elem? timestamps word_index) (get_elem? timestamps end_index)
        later

unfoldable pub build_sentence_info_from_timestamps : Text → List Item → Option (List Sentence)
unfolding complete_sentences sentences_by_time
build_sentence_info_from_timestamps text timestamps =
    sentences_by_time (complete_sentences [] text) 0 timestamps

-- `text.split("。")`, with "。" put back behind what is not blank.
unfoldable pub split_full_stops : Text → Text → List Text
unfolding is_in is_empty strip
split_full_stops current [] =
    if is_empty (strip current) then [] else (strip current ++ codes "。") ∷ []
split_full_stops current (c ∷ text) =
    let next = split_full_stops [] text in
    let longer = split_full_stops (current ++ c ∷ []) text in
    if is_in c (codes "。")
    then (if is_empty (strip current) then next else (strip current ++ codes "。") ∷ next)
    else longer

abbrev pub sentences_or_text : Text → List Text → List Text
sentences_or_text text [] = if is_empty text then [] else text ∷ []
sentences_or_text text (s ∷ ss) = s ∷ ss

-- The loop of `build_sentence_info_from_vad`.
abbrev pub pair_with_vad : List Text → List (ℤ × ℤ) → List Sentence
pair_with_vad [] segments = []
pair_with_vad (s ∷ ss) [] = []
pair_with_vad (s ∷ ss) ((start, end) ∷ segments) =
    plain_sentence s start end ∷ pair_with_vad ss segments

unfoldable pub build_sentence_info_from_vad : Text → List (ℤ × ℤ) → List Sentence
unfolding split_full_stops
build_sentence_info_from_vad text vad_segments =
    pair_with_vad (sentences_or_text text (split_full_stops [] text)) vad_segments

-- `assign_speakers_to_asr_segments`
unfoldable pub assign_speakers_to_asr_segments :
    List AsrSegment → List SpeakerSegment → List Sentence
unfolding is_empty speaker_for_time_range_with_boundary
assign_speakers_to_asr_segments [] speaker_segments = []
assign_speakers_to_asr_segments (a ∷ segments) speaker_segments =
    let rest = assign_speakers_to_asr_segments segments speaker_segments in
    if is_empty a.text
    then rest
    else record {
      text = a.text;
      start = a.start;
      end = a.end;
      spk = speaker_for_time_range_with_boundary a.start a.end speaker_segments;
      timestamp = a.timestamp;
    }
      ∷ rest

-- The segments with a text, all of speaker 0.
unfoldable pub plain_segments : List AsrSegment → List Sentence
unfolding is_empty
plain_segments [] = []
plain_segments (a ∷ segments) =
    let rest = plain_segments segments in
    if is_empty a.text
    then rest
    else record { text = a.text; start = a.start; end = a.end; spk = 0; timestamp = a.timestamp }
      ∷ rest

-- `build_asr_sentence_info` without segments.
unfoldable pub sentences_of_text : Text → List Item → List (ℤ × ℤ) → Option (List Sentence)
unfolding build_sentence_info_from_timestamps build_sentence_info_from_vad is_empty
sentences_of_text text (item ∷ timestamps) vad_segments =
    build_sentence_info_from_timestamps text (item ∷ timestamps)
sentences_of_text text [] (v ∷ vad_segments) =
    some (build_sentence_info_from_vad text (v ∷ vad_segments))
sentences_of_text text [] [] =
    some (if is_empty text then [] else plain_sentence text (pos 0) (pos 0) ∷ [])

abbrev pub or_else_sentences : List Sentence → Option (List Sentence) → Option (List Sentence)
or_else_sentences [] d = d
or_else_sentences (s ∷ ss) d = some (s ∷ ss)

unfoldable pub build_asr_sentence_info : Payload → Option (List Sentence)
unfolding plain_segments sentences_of_text is_empty
build_asr_sentence_info p =
    or_else_sentences (plain_segments p.asr_segments)
      (sentences_of_text (text_of_payload p) p.timestamps p.vad_segments)

-- A token without the key "timestamp".
abbrev pub units_of_tokens : List Token → List TimedUnit
units_of_tokens [] = []
units_of_tokens (t ∷ tokens) =
    record { text = t.text; start = t.start; end = t.end; timestamp = none }
    ∷ units_of_tokens tokens

unfoldable pub build_speaker_aligned_text : Text → List Item → List SpeakerSegment → List Sentence
unfolding align_text_to_timestamps merge_timed_units_by_speaker
build_speaker_aligned_text text timestamps speaker_segments =
    merge_timed_units_by_speaker (units_of_tokens (align_text_to_timestamps text timestamps))
      speaker_segments

abbrev pub aligned_if_timed : Text → List Item → List SpeakerSegment → List Sentence
aligned_if_timed text [] speaker_segments = []
aligned_if_timed text (item ∷ timestamps) speaker_segments =
    build_speaker_aligned_text text (item ∷ timestamps) speaker_segments

abbrev pub with_segments : Payload → List SpeakerSegment → Option (List Sentence)
with_segments p [] = build_asr_sentence_info p
with_segments p (s ∷ segments) =
    let speaker_segments = sort_segments (s ∷ segments) in
    or_else_sentences (aligned_if_timed (text_of_payload p) p.timestamps speaker_segments) (
      or_else_sentences (assign_speakers_to_asr_segments p.asr_segments speaker_segments)
        (build_asr_sentence_info p))

-- An error message that counts as true.
abbrev pub has_error : Option Text → Bool
has_error none = false
has_error (some e) = not (is_empty e)

-- The `sentence_info` of `merge_onnx_speaker_result`.
unfoldable pub merge_onnx_speaker_result : Payload → Option SpeakerResult → Option (List Sentence)
unfolding build_asr_sentence_info assign_speakers_to_asr_segments build_speaker_aligned_text
    sort_segments is_empty
merge_onnx_speaker_result p none = build_asr_sentence_info p
merge_onnx_speaker_result p (some speaker) =
    if has_error speaker.error then build_asr_sentence_info p else with_segments p speaker.segments
