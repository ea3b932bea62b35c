-- ===== src/Online/Session.antt =====
-- src/engine_runtime/engines/online/realtime_session.py: the state of one realtime session and the
-- operations on it. The two recognizers, the punctuation, the speech detector and the tests of
-- audio_quality.py on audio and text are parameters, any functions at all. The metrics and the
-- details of a sentence beyond its text, times and source are left out.
pub mod Operations
pub mod Spans
pub mod Growth
pub mod Emission
pub mod Finish
use funasr_api.Prelude.{
  ℕ, zero, suc, ◌+◌, ◌-◌, ◌*◌, ◌/◌, ◌==◌, Bool, true, false, ◌||◌, ◌&&◌, not, String, Option, none,
  some, List, [], ◌∷◌, ◌++◌, ltb, leb, if◌then◌else◌, length, drop, min, concat,
}
use funasr_api.Prelude.Int.{ℤ, pos, pos_part, ◌+ℤ◌, ◌-ℤ◌, ltb_ℤ, leb_ℤ, max_ℤ, min_ℤ}
use funasr_api.Prelude.Text.{Text, is_empty, strip}
use funasr_api.Online.Audio.{Buffer, append, slice, drop_before, has_items}
use funasr_api.Online.Audio as Audio
use funasr_api.Online.Policy.{
  Segment, Limits, effective_segment_merge_gap_ms, should_flush_pending_segment, samples_of_ms,
  audio_trim_keep_from_sample,
}
use funasr_api.Online.Boundary.{
  collapse_adjacent_repeated_phrases, repair_previous_boundary_overlap,
}

-- An entry of `locked_sentences`.
pub record Sentence : Type 0 where
  pub text : Text
  pub start : ℤ
  pub end : ℤ
  pub source : Option String

pub record Settings : Type 0 where
  pub sample_rate : ℕ
  pub first_decode_samples : ℕ
  pub chunk_samples : ℕ
  pub vad_pre_padding_ms : ℤ
  pub vad_post_padding_ms : ℤ
  pub vad_merge_gap_ms : ℤ
  pub vad_min_final_ms : ℤ
  pub vad_max_final_ms : ℤ

-- What the session calls: `V` is the state of the speech detector and `C` the cache of the
-- streaming recognizer. A recognizer gives none when it raises.
pub record Models (A V C : Type 0) : Type 0 where
  pub feed : List A → Bool → V → List (List ℤ) × V
  pub current_speech_start : V → Option ℤ
  pub clear_speech_start : V → V
  pub initial_vad : V
  pub initial_cache : C
  -- `final_model.generate`, the extraction of the text and its punctuation.
  pub decode_final : List A → Option Text
  pub decode_streaming : List A → Bool → C → Option Text × C
  pub merge_partial : Text → Text → Text
  pub has_effective_speech_audio : List A → Bool
  pub has_acceptable_final_text : Text → Bool

pub record Session (A V C : Type 0) : Type 0 where
  pub audio : Buffer A
  pub vad : V
  pub vad_fed_samples : ℕ
  pub last_stream_samples : ℤ
  pub streaming_cache : C
  pub partial : Text
  pub partial_start_ms : ℤ
  pub first_decode_done : Bool
  pub locked_sentences : List Sentence
  pub pending_final_segments : List Segment
  pub emitted_locked_count : ℕ

-- `_normalize_vad_segment`
unfoldable pub normalize_vad_segment : List ℤ → Option Segment
normalize_vad_segment (start_ms ∷ end_ms ∷ []) =
    if leb_ℤ end_ms start_ms then none else some (record { start = start_ms; end = end_ms })
normalize_vad_segment _ = none

-- `_enqueue_pending_final_segment`: only the last segment is compared.
unfoldable pub enqueue_pending : ℤ → Segment → List Segment → List Segment
enqueue_pending merge_gap_ms s [] = s ∷ []
enqueue_pending merge_gap_ms s (current ∷ []) =
    if leb_ℤ (s.start -ℤ current.end) merge_gap_ms
    then record { start = min_ℤ current.start s.start; end = max_ℤ current.end s.end } ∷ []
    else current ∷ s ∷ []
enqueue_pending merge_gap_ms s (current ∷ next ∷ pending) =
    current ∷ enqueue_pending merge_gap_ms s (next ∷ pending)

abbrev pub enqueue_normalized : ℤ → Option Segment → List Segment → List Segment
enqueue_normalized merge_gap_ms none pending = pending
enqueue_normalized merge_gap_ms (some s) pending = enqueue_pending merge_gap_ms s pending

-- The loop of `_lock_confirmed_segments`.
unfoldable pub enqueue_segments : ℤ → List (List ℤ) → List Segment → List Segment
unfolding normalize_vad_segment enqueue_pending
enqueue_segments merge_gap_ms [] pending = pending
enqueue_segments merge_gap_ms (seg ∷ segments) pending =
    enqueue_segments merge_gap_ms segments
      (enqueue_normalized merge_gap_ms (normalize_vad_segment seg) pending)

-- `_repair_previous_boundary_overlap` on the list of sentences, with the new text: the last one
-- gets the repaired text, unless that is empty.
unfoldable pub repair_last : ℤ → Text → ℤ → List Sentence → List Sentence × Text
unfolding repair_previous_boundary_overlap strip is_empty
repair_last merge_gap_ms current_text start_ms [] = ([], strip current_text)
repair_last merge_gap_ms current_text start_ms (previous ∷ []) =
    let r =
      repair_previous_boundary_overlap previous.text previous.end (strip current_text) start_ms
        merge_gap_ms in
    if is_empty (strip current_text)
    then (previous ∷ [], strip current_text)
    else if is_empty r.0
    then (previous ∷ [], r.1)
    else (record previous { text = r.0 } ∷ [], r.1)
repair_last merge_gap_ms current_text start_ms (s ∷ t ∷ sentences) =
    let rest = repair_last merge_gap_ms current_text start_ms (t ∷ sentences) in
    (s ∷ rest.0, rest.1)

-- `_append_locked_sentence` on the list of sentences.
unfoldable pub append_locked : ℤ → Text → ℤ → ℤ → Option String → List Sentence → List Sentence
unfolding repair_last collapse_adjacent_repeated_phrases strip is_empty
append_locked merge_gap_ms text start_ms end_ms source sentences =
    let collapsed = collapse_adjacent_repeated_phrases (strip text) in
    let repaired = repair_last merge_gap_ms collapsed start_ms sentences in
    if is_empty collapsed
    then sentences
    else if is_empty repaired.1
    then repaired.0
    else repaired.0
      ++ record { text = repaired.1; start = start_ms; end = end_ms; source = source } ∷ []

module _ {A V C : Type 0} (m : Models A V C) (c : Settings) where
  abbrev pub merge_gap : ℤ
  merge_gap = effective_segment_merge_gap_ms c.vad_merge_gap_ms c.vad_post_padding_ms

  -- `__init__` and `reset`
  abbrev pub new_session : Session A V C
  new_session = record {
    audio = Audio.reset;
    vad = m.initial_vad;
    vad_fed_samples = 0;
    last_stream_samples = pos 0;
    streaming_cache = m.initial_cache;
    partial = [];
    partial_start_ms = pos 0;
    first_decode_done = false;
    locked_sentences = [];
    pending_final_segments = [];
    emitted_locked_count = 0;
  }

  -- `_current_duration_ms`, at a sample rate that is not 0.
  abbrev pub current_duration_ms : Session A V C → ℕ
  current_duration_ms s = s.audio.total_samples * 1000 / c.sample_rate

  -- `_slice_audio`; the buffer cuts a negative index off at 0.
  abbrev pub slice_audio : ℤ → ℤ → Session A V C → List A
  slice_audio start end s = slice (pos_part start) (pos_part end) s.audio

  unfoldable pub trim_audio_buffer : Session A V C → Session A V C
  unfolding audio_trim_keep_from_sample drop_before
  trim_audio_buffer s = record s {
    audio =
        drop_before
          (pos_part (
            audio_trim_keep_from_sample s.last_stream_samples (pos s.vad_fed_samples)
              s.pending_final_segments c.vad_pre_padding_ms c.sample_rate
              (m.current_speech_start s.vad)))
          s.audio;
  }

  -- A decoding that raised, or gave a text that is not acceptable, gives no text.
  abbrev pub accepted_text : Option Text → Text
  accepted_text none = []
  accepted_text (some text) =
      if not (is_empty text) && not (m.has_acceptable_final_text text) then [] else text

  -- The text of `_decode_final_segment`.
  unfoldable pub decode_final_segment : ℤ → ℤ → Session A V C → Text
  unfolding slice samples_of_ms
  decode_final_segment start_ms end_ms s =
      let padded_start_ms = max_ℤ (pos 0) (start_ms -ℤ c.vad_pre_padding_ms) in
      let padded_end_ms = min_ℤ (pos (current_duration_ms s)) (end_ms +ℤ c.vad_post_padding_ms) in
      let start_sample = samples_of_ms c.sample_rate padded_start_ms in
      let end_sample =
        min_ℤ (samples_of_ms c.sample_rate padded_end_ms) (pos s.audio.total_samples) in
      let segment_audio = slice_audio start_sample end_sample s in
      if ltb (length segment_audio) (c.sample_rate / 10)
      then []
      else if not (m.has_effective_speech_audio segment_audio)
      then []
      else accepted_text (m.decode_final segment_audio)

  unfoldable pub finalize_pending_segment : Segment → Session A V C → Session A V C × Bool
  unfolding decode_final_segment trim_audio_buffer append_locked is_empty
  finalize_pending_segment segment s =
      let text = decode_final_segment segment.start segment.end s in
      let sentences =
        if is_empty text
        then s.locked_sentences
        else append_locked merge_gap text segment.start segment.end none s.locked_sentences in
      (
        trim_audio_buffer (record s {
          locked_sentences = sentences;
          last_stream_samples =
              min_ℤ (samples_of_ms c.sample_rate segment.end) (pos s.audio.total_samples);
          partial_start_ms = segment.end;
          partial = [];
          streaming_cache = m.initial_cache;
          first_decode_done = false;
        }),
        not (is_empty text),
      )

  abbrev pub should_flush : Bool → Segment → Session A V C → Bool
  should_flush force segment s =
      should_flush_pending_segment force
        (record {
          vad_max_final_ms = c.vad_max_final_ms;
          vad_min_final_ms = c.vad_min_final_ms;
          segment_merge_gap_ms = merge_gap;
        })
        (pos (current_duration_ms s)) (m.current_speech_start s.vad) segment

  -- The loop of `_flush_pending_final_segments`, over the segments that are pending.
  unfoldable pub flush_segments : Bool → List Segment → Session A V C → Session A V C × Bool
  unfolding finalize_pending_segment should_flush_pending_segment
  flush_segments force [] s = (record s { pending_final_segments = [] }, false)
  flush_segments force (segment ∷ pending) s =
      let r = finalize_pending_segment segment (record s { pending_final_segments = pending }) in
      let rest = flush_segments force pending r.0 in
      if should_flush force segment s
      then (rest.0, r.1 || rest.1)
      else (record s { pending_final_segments = segment ∷ pending }, false)

  abbrev pub flush_pending_final_segments : Bool → Session A V C → Session A V C × Bool
  flush_pending_final_segments force s = flush_segments force s.pending_final_segments s

  -- `_lock_confirmed_segments`. `_flush_ready_pending_segments` tests the first segment, as
  -- the loop does then.
  unfoldable pub lock_confirmed_segments : List (List ℤ) → Session A V C → Session A V C × Bool
  unfolding flush_segments enqueue_segments
  lock_confirmed_segments segments s = flush_pending_final_segments false (record s {
    pending_final_segments = enqueue_segments merge_gap segments s.pending_final_segments;
  })
