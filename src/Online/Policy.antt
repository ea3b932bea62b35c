-- ===== src/Online/Policy.antt =====
-- src/engine_runtime/engines/online/session_policy.py: when a finished speech segment is decoded,
-- and which audio has to be kept. Times are milliseconds, as Python's signed integers.
pub mod Flush
pub mod Trim
use funasr_api.Prelude.{
  ℕ, suc, ◌*◌, ◌/◌, Bool, true, false, Option, none, some, List, [], ◌∷◌, if◌then◌else◌,
}
use funasr_api.Prelude.Int.{ℤ, pos, negsuc, ◌+ℤ◌, ◌-ℤ◌, ltb_ℤ, leb_ℤ, max_ℤ, min_ℤ}

-- `{"start": …, "end": …}`
pub record Segment : Type 0 where
  pub start : ℤ
  pub end : ℤ

unfoldable pub effective_segment_merge_gap_ms : ℤ → ℤ → ℤ
effective_segment_merge_gap_ms vad_merge_gap_ms vad_post_padding_ms =
    vad_merge_gap_ms +ℤ vad_post_padding_ms

unfoldable pub required_tail_gap_ms : ℤ → ℤ → ℤ → ℤ
required_tail_gap_ms duration_ms vad_min_final_ms segment_merge_gap_ms =
    if leb_ℤ vad_min_final_ms duration_ms
    then segment_merge_gap_ms
    else max_ℤ segment_merge_gap_ms (vad_min_final_ms -ℤ duration_ms)

-- The settings that the policy is given.
pub record Limits : Type 0 where
  pub vad_max_final_ms : ℤ
  pub vad_min_final_ms : ℤ
  pub segment_merge_gap_ms : ℤ

unfoldable pub duration : Segment → ℤ
duration s = max_ℤ (pos 0) (s.end -ℤ s.start)

-- Speech that has begun again so near the segment that it will be merged with it.
unfoldable pub speech_goes_on : Limits → Segment → Option ℤ → Bool
speech_goes_on l s none = false
speech_goes_on l s (some active_speech_start) =
    leb_ℤ (active_speech_start -ℤ s.end) l.segment_merge_gap_ms

unfoldable pub should_flush_pending_segment : Bool → Limits → ℤ → Option ℤ → Segment → Bool
should_flush_pending_segment force l current_duration_ms active_speech_start s =
    if force
    then true
    else if leb_ℤ l.vad_max_final_ms (duration s)
    then true
    else let tail_gap_ms = max_ℤ (pos 0) (current_duration_ms -ℤ s.end) in
      let required_gap_ms =
        required_tail_gap_ms (duration s) l.vad_min_final_ms l.segment_merge_gap_ms in
      if speech_goes_on l s active_speech_start
      then false
      else if ltb_ℤ tail_gap_ms required_gap_ms
      then false
      else ltb_ℤ (pos 0) (duration s)

-- `int(ms * sample_rate / 1000)`: the quotient is cut towards zero. The float division is
-- exact enough for this below 2 ^ 43.
unfoldable pub samples_of_ms : ℕ → ℤ → ℤ
samples_of_ms sample_rate (pos n) = pos (n * sample_rate / 1000)
samples_of_ms sample_rate (negsuc n) = pos 0 -ℤ pos (suc n * sample_rate / 1000)

-- `min(keep_from_sample, min(pending_starts))`
unfoldable pub keep_pending : ℕ → ℤ → List Segment → ℤ → ℤ
unfolding samples_of_ms
keep_pending sample_rate vad_pre_padding_ms [] keep_from_sample = keep_from_sample
keep_pending sample_rate vad_pre_padding_ms (s ∷ ss) keep_from_sample =
    min_ℤ
      (max_ℤ (pos 0)
        (samples_of_ms sample_rate s.start -ℤ samples_of_ms sample_rate vad_pre_padding_ms))
      (keep_pending sample_rate vad_pre_padding_ms ss keep_from_sample)

unfoldable pub keep_active : ℕ → ℤ → Option ℤ → ℤ → ℤ
unfolding samples_of_ms
keep_active sample_rate vad_pre_padding_ms none keep_from_sample = keep_from_sample
keep_active sample_rate vad_pre_padding_ms (some start) keep_from_sample =
    min_ℤ keep_from_sample (max_ℤ (pos 0) (samples_of_ms sample_rate (start -ℤ vad_pre_padding_ms)))

unfoldable pub audio_trim_keep_from_sample : ℤ → ℤ → List Segment → ℤ → ℕ → Option ℤ → ℤ
unfolding keep_pending keep_active
audio_trim_keep_from_sample last_stream_samples vad_fed_samples pending vad_pre_padding_ms
      sample_rate active_speech_start =
    max_ℤ (pos 0) (
      keep_active sample_rate vad_pre_padding_ms active_speech_start (
        keep_pending sample_rate vad_pre_padding_ms pending
          (min_ℤ last_stream_samples vad_fed_samples)))
