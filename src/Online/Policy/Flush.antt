-- ===== src/Online/Policy/Flush.antt =====
-- When `should_flush_pending_segment` lets a segment go.
use funasr_api.Prelude.{◌≡◌, true, false, none, arith}
use funasr_api.Prelude.Int.{ℤ, pos, ◌+ℤ◌, ◌≤ℤ◌, ltb_ℤ, -ℤ_parts, +ℤ_parts}
use funasr_api.Online.Policy.{
  Segment, Limits, duration, required_tail_gap_ms, speech_goes_on, should_flush_pending_segment,
}

-- A segment of positive length goes as soon as no speech is active and the audio has gone on
-- after it for the merge gap and for the least length of a final segment.
pub flush_in_silence :
    (l : Limits) (now : ℤ) (s : Segment)
    → pos 0 ≤ℤ l.segment_merge_gap_ms
    → ltb_ℤ s.start s.end ≡ true
    → s.end +ℤ l.segment_merge_gap_ms ≤ℤ now
    → s.end +ℤ l.vad_min_final_ms ≤ℤ now
    → should_flush_pending_segment false l now none s ≡ true
unfolding should_flush_pending_segment duration required_tail_gap_ms speech_goes_on
flush_in_silence l now s gap positive merged long = ground (
  arith,
  -ℤ_parts now s.end,
  -ℤ_parts s.end s.start,
  +ℤ_parts s.end l.segment_merge_gap_ms,
  +ℤ_parts s.end l.vad_min_final_ms,
  -ℤ_parts l.vad_min_final_ms (duration s),
)
