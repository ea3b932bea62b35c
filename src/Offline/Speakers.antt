-- ===== src/Offline/Speakers.antt =====
-- src/engine_runtime/engines/offline/speaker_utils.py: which speaker a stretch of time belongs
-- to, and timed text grouped by speakers. Speakers are numbers, times whole milliseconds.
pub mod Overlap
pub mod Sorting
pub mod Grouping
use funasr_api.Prelude.{
  ℕ, ◌==◌, Bool, true, false, ◌||◌, ◌&&◌, not, Option, none, some, List, [], ◌∷◌, ◌++◌,
  if◌then◌else◌,
}
use funasr_api.Prelude.Int.{ℤ, pos, negsuc, ◌+ℤ◌, ◌-ℤ◌, ltb_ℤ, leb_ℤ, max_ℤ, min_ℤ, abs}
use funasr_api.Prelude.Text.{Text, is_empty, strip}
use funasr_api.Offline.Alignment.{Item}

pub record SpeakerSegment : Type 0 where
  pub start : ℤ
  pub end : ℤ
  pub speaker : ℕ

unfoldable pub overlap : ℤ → ℤ → SpeakerSegment → ℤ
overlap start_ms end_ms segment = min_ℤ end_ms segment.end -ℤ max_ℤ start_ms segment.start

-- The loop that looks for the greatest overlap: `best_segment` and `best_overlap`.
unfoldable pub best_of :
    ℤ → ℤ → List SpeakerSegment → Option SpeakerSegment → ℤ → Option SpeakerSegment × ℤ
unfolding overlap
best_of start_ms end_ms [] best_segment best_overlap = (best_segment, best_overlap)
best_of start_ms end_ms (segment ∷ segments) best_segment best_overlap =
    let better = ltb_ℤ best_overlap (overlap start_ms end_ms segment) in
    best_of start_ms end_ms segments (if better then some segment else best_segment)
      (if better then overlap start_ms end_ms segment else best_overlap)

-- Twice the distance from the midpoint, which is a half of `start_ms + end_ms`.
unfoldable pub distance : ℤ → ℤ → SpeakerSegment → ℤ
distance start_ms end_ms segment =
    min_ℤ (abs (start_ms +ℤ end_ms -ℤ (segment.start +ℤ segment.start)))
      (abs (start_ms +ℤ end_ms -ℤ (segment.end +ℤ segment.end)))

-- `min(…, key=…)`: the first one of the least.
unfoldable pub nearest_of : ℤ → ℤ → SpeakerSegment → List SpeakerSegment → SpeakerSegment
unfolding distance
nearest_of start_ms end_ms nearest [] = nearest
nearest_of start_ms end_ms nearest (segment ∷ segments) =
    nearest_of start_ms end_ms
      (if ltb_ℤ (distance start_ms end_ms segment) (distance start_ms end_ms nearest)
        then segment
        else nearest)
      segments

unfoldable pub nearest_speaker : ℤ → ℤ → List SpeakerSegment → ℕ
unfolding nearest_of
nearest_speaker start_ms end_ms [] = 0
nearest_speaker start_ms end_ms (segment ∷ segments) =
    (nearest_of start_ms end_ms segment segments).speaker

abbrev pub chosen : ℤ → ℤ → List SpeakerSegment → Option SpeakerSegment × ℤ → ℕ
chosen start_ms end_ms segments (none, best_overlap) = nearest_speaker start_ms end_ms segments
chosen start_ms end_ms segments (some best_segment, best_overlap) =
    if ltb_ℤ (pos 0) best_overlap
    then best_segment.speaker
    else nearest_speaker start_ms end_ms segments

unfoldable pub speaker_for_time_range : ℤ → ℤ → List SpeakerSegment → ℕ
unfolding best_of nearest_speaker
speaker_for_time_range start_ms end_ms segments =
    chosen start_ms end_ms segments (best_of start_ms end_ms segments none (negsuc 0))

-- `(start, end) <= (start, end)`
abbrev pub times_le : ℤ → ℤ → ℤ → ℤ → Bool
times_le s e t f = ltb_ℤ s t || (leb_ℤ s t && leb_ℤ e f)

-- `sorted(…, key=lambda item: (item.start, item.end))`, which keeps equal keys in their order.
unfoldable pub insert_segment : SpeakerSegment → List SpeakerSegment → List SpeakerSegment
insert_segment s [] = s ∷ []
insert_segment s (t ∷ ts) =
    let rest = insert_segment s ts in
    if times_le s.start s.end t.start t.end then s ∷ t ∷ ts else t ∷ rest

unfoldable pub sort_segments : List SpeakerSegment → List SpeakerSegment
unfolding insert_segment
sort_segments [] = []
sort_segments (s ∷ ss) = insert_segment s (sort_segments ss)

unfoldable pub boundary_after : ℤ → ℤ → SpeakerSegment → List SpeakerSegment → Option ℕ
boundary_after start_ms end_ms previous [] = none
boundary_after start_ms end_ms previous (current ∷ segments) =
    let rest = boundary_after start_ms end_ms current segments in
    if previous.speaker == current.speaker
    then rest
    else if ltb_ℤ start_ms current.start && ltb_ℤ current.start end_ms
    then some current.speaker
    else rest

-- The loop over the pairs of neighbours.
abbrev pub first_boundary : ℤ → ℤ → List SpeakerSegment → Option ℕ
first_boundary start_ms end_ms [] = none
first_boundary start_ms end_ms (s ∷ ss) = boundary_after start_ms end_ms s ss

unfoldable pub speaker_for_short_boundary_token : ℤ → ℤ → List SpeakerSegment → Option ℕ
unfolding boundary_after sort_segments
speaker_for_short_boundary_token start_ms end_ms segments =
    let duration = end_ms -ℤ start_ms in
    if leb_ℤ duration (pos 0) || ltb_ℤ (pos 250) duration
    then none
    else first_boundary start_ms end_ms (sort_segments segments)

abbrev pub or_by_range : ℤ → ℤ → List SpeakerSegment → Option ℕ → ℕ
or_by_range start_ms end_ms segments none = speaker_for_time_range start_ms end_ms segments
or_by_range start_ms end_ms segments (some boundary_speaker) = boundary_speaker

unfoldable pub speaker_for_time_range_with_boundary : ℤ → ℤ → List SpeakerSegment → ℕ
unfolding speaker_for_short_boundary_token speaker_for_time_range
speaker_for_time_range_with_boundary start_ms end_ms segments =
    or_by_range start_ms end_ms segments (speaker_for_short_boundary_token start_ms end_ms segments)

-- A timed piece of text. Without the key "timestamp", and with None there, `timestamp` is none.
pub record TimedUnit : Type 0 where
  pub text : Text
  pub start : ℤ
  pub end : ℤ
  pub timestamp : Option (List Item)

pub record Sentence : Type 0 where
  pub text : Text
  pub start : ℤ
  pub end : ℤ
  pub spk : ℕ
  pub timestamp : Option (List Item)

unfoldable pub merge_timestamps : Option (List Item) → Option (List Item) → Option (List Item)
merge_timestamps (some existing) (some incoming) = some (existing ++ incoming)
merge_timestamps (some []) none = none
merge_timestamps (some (item ∷ existing)) none = some (item ∷ existing)
merge_timestamps none incoming = incoming

unfoldable pub insert_unit : TimedUnit → List TimedUnit → List TimedUnit
insert_unit u [] = u ∷ []
insert_unit u (v ∷ vs) =
    let rest = insert_unit u vs in
    if times_le u.start u.end v.start v.end then u ∷ v ∷ vs else v ∷ rest

unfoldable pub sort_units : List TimedUnit → List TimedUnit
unfolding insert_unit
sort_units [] = []
sort_units (u ∷ us) = insert_unit u (sort_units us)

abbrev pub unit_payload : ℕ → TimedUnit → Sentence
unit_payload speaker_id u = record {
  text = u.text;
  start = u.start;
  end = u.end;
  spk = speaker_id;
  timestamp = u.timestamp;
}

abbrev pub extend : TimedUnit → Sentence → Sentence
extend u current = record current {
  text = current.text ++ u.text;
  end = u.end;
  timestamp = merge_timestamps current.timestamp u.timestamp;
}

-- `if current and current["text"].strip(): merged.append(current)`, before what is merged later.
unfoldable pub keep : Sentence → List Sentence → List Sentence
unfolding is_empty strip
keep current later = if is_empty (strip current.text) then later else current ∷ later

-- The loop, from the second unit on.
unfoldable pub group : List SpeakerSegment → Sentence → List TimedUnit → List Sentence
unfolding speaker_for_time_range_with_boundary merge_timestamps keep
group segments current [] = keep current []
group segments current (u ∷ us) =
    let speaker_id = speaker_for_time_range_with_boundary u.start u.end segments in
    let same = current.spk == speaker_id in
    let later = group segments (if same then extend u current else unit_payload speaker_id u) us in
    if same then later else keep current later

abbrev pub group_all : List SpeakerSegment → List TimedUnit → List Sentence
group_all segments [] = []
group_all segments (u ∷ us) =
    group segments (unit_payload (speaker_for_time_range_with_boundary u.start u.end segments) u) us

unfoldable pub merge_timed_units_by_speaker : List TimedUnit → List SpeakerSegment → List Sentence
unfolding group sort_units
merge_timed_units_by_speaker units segments = group_all segments (sort_units units)
