-- ===== src/Tests/Merging.antt =====
-- Time stamps and the merging with a diarization at concrete inputs.
use funasr_api.Prelude.{ℕ, ◌≡◌, ◌≢◌, refl, arith, ap, none, some, List, [], ◌∷◌, ◌++◌, All}
use funasr_api.Prelude.Int.{pos}
use funasr_api.Prelude.Text.{Text, codes}
use funasr_api.Prelude.Text.Solid.{solid}
use funasr_api.Offline.Alignment.{Item, pair, triple}
use funasr_api.Offline.Filling.{fill_timestamp_tokens, maybe_offset_timestamps}
use funasr_api.Offline.Filling.Times.{times_of, fill_timestamp_tokens_keeps_times}
use funasr_api.Offline.Speakers.{SpeakerSegment, Sentence}
use funasr_api.Offline.Speakers.Grouping.{text_of_sentences, IsSpoken}
use funasr_api.Offline.SpeakerMerge.{
  Payload, SpeakerResult, build_sentence_info_from_timestamps, build_sentence_info_from_vad,
  merge_onnx_speaker_result, plain_sentence,
}
use funasr_api.Offline.SpeakerMerge.Kept.{merge_onnx_speaker_result_keeps_text}
use funasr_api.Online.Times.{two, more, neither, extract_global_timestamps}
use funasr_api.Online.Times.Bounds.{
  expected_tokens, character_at, IsWithin, tokens_of, extract_global_timestamps-IsWithin,
}

abbrev first : Item
first = triple (codes "嗨") (pos 0) (pos 5)

abbrev second : Item
second = triple (codes "喂") (pos 5) (pos 9)

abbrev speech : SpeakerSegment
speech = record { start = pos 0; end = pos 9; speaker = 1 }

abbrev payload : Payload
payload = record {
  text = codes "嗨，喂。";
  raw_text = [];
  timestamps = first ∷ second ∷ [];
  asr_segments = [];
  vad_segments = [];
}

abbrev diarized : SpeakerResult
diarized = record { segments = speech ∷ []; error = none }

abbrev merged : List Sentence
merged = record { text = codes "嗨，喂。"; start = pos 0; end = pos 9; spk = 1; timestamp = none } ∷ []

by_time :
    build_sentence_info_from_timestamps (codes "嗨。喂。") (first ∷ second ∷ [])
    ≡ some (plain_sentence (codes "嗨。") (pos 0) (pos 9) ∷ [])
unfolding build_sentence_info_from_timestamps funasr_api.Prelude.Text.is_space
by_time = refl

by_vad :
    build_sentence_info_from_vad (codes "嗨。 喂") ((pos 1, pos 2) ∷ (pos 3, pos 4) ∷ [])
    ≡ plain_sentence (codes "嗨。") (pos 1) (pos 2) ∷ plain_sentence (codes "喂。") (pos 3) (pos 4) ∷ []
unfolding build_sentence_info_from_vad funasr_api.Prelude.Text.is_space
by_vad = refl

merged_some : merged ≢ []
merged_some e = cc e

merge_onnx_speaker_result_keeps_text_example :
    (merge_onnx_speaker_result payload (some diarized) ≡ some merged)
    × (solid (text_of_sentences merged) ≡ solid (codes "嗨，喂。"))
    × All IsSpoken merged
unfolding funasr_api.Offline.SpeakerMerge.build_speaker_aligned_text funasr_api.Prelude.Int.◌-ℤ◌
merge_onnx_speaker_result_keeps_text_example =
    merge_onnx_speaker_result_keeps_text payload first (second ∷ []) diarized speech [] refl refl
      refl (tt, (tt, tt)) (refl, tt) merged_some

extract_global_timestamps-IsWithin_example :
    All (IsWithin (pos 100) (pos 200)) (
      extract_global_timestamps
        (two (pos 0) (pos 5) ∷ neither ∷ more [] (pos 90) (pos 500) ∷ [])
        (codes "a b")
        (pos 100)
        (pos 200)
        (pos 90)
        (pos 210))
    × (tokens_of (
          extract_global_timestamps
            (two (pos 0) (pos 5) ∷ neither ∷ more [] (pos 90) (pos 500) ∷ [])
            (codes "a b")
            (pos 100)
            (pos 200)
            (pos 90)
            (pos 210))
        ≡ codes "a" ∷ [] ∷ [])
unfolding expected_tokens character_at funasr_api.Prelude.Text.is_space
    funasr_api.Prelude.Text.is_empty funasr_api.Online.Times.compact_token_text
extract_global_timestamps-IsWithin_example =
    extract_global_timestamps-IsWithin
      (two (pos 0) (pos 5) ∷ neither ∷ more [] (pos 90) (pos 500) ∷ []) (codes "a b") (pos 100)
      (pos 200) (pos 90) (pos 210) (omega arith)

filled :
    fill_timestamp_tokens (codes "ab，c") (pair (pos 0) (pos 1) ∷ first ∷ second ∷ [])
    ≡ triple (codes "a") (pos 0) (pos 1)
      ∷ triple (codes "b") (pos 0) (pos 5)
      ∷ triple (codes "c") (pos 5) (pos 9)
      ∷ []
unfolding fill_timestamp_tokens
filled = refl

moved :
    maybe_offset_timestamps (first ∷ second ∷ []) (pos 100) (pos 120)
    ≡ some (triple (codes "嗨") (pos 100) (pos 105) ∷ triple (codes "喂") (pos 105) (pos 109) ∷ [])
unfolding maybe_offset_timestamps funasr_api.Prelude.Int.◌-ℤ◌ funasr_api.Prelude.Int.◌+ℤ◌
moved = refl

fill_timestamp_tokens_keeps_times_example :
    times_of (fill_timestamp_tokens (codes "ab，c") (pair (pos 0) (pos 1) ∷ first ∷ second ∷ []))
    ≡ (pos 0, pos 1) ∷ (pos 0, pos 5) ∷ (pos 5, pos 9) ∷ []
fill_timestamp_tokens_keeps_times_example =
    fill_timestamp_tokens_keeps_times (codes "ab，c") (pair (pos 0) (pos 1) ∷ first ∷ second ∷ [])
