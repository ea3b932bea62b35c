-- ===== src/Online/Session/Operations.antt =====
-- src/engine_runtime/engines/online/realtime_session.py: what a client's messages call, on the
-- state of Online/Session.antt.
use funasr_api.Prelude.{
  ℕ, ◌*◌, ◌/◌, ◌==◌, Bool, true, false, ◌&&◌, not, Option, none, some, List, [], ◌∷◌, ◌++◌, ltb,
  if◌then◌else◌, length, drop,
}
use funasr_api.Prelude.Int.{ℤ, pos, ◌+ℤ◌, leb_ℤ, min_ℤ}
use funasr_api.Prelude.Text.{Text, is_empty}
use funasr_api.Online.Audio.{append, slice, has_items}
use funasr_api.Online.Session.{
  Sentence, Settings, Models, Session, merge_gap, current_duration_ms, slice_audio,
  decode_final_segment, append_locked, flush_pending_final_segments, lock_confirmed_segments,
  flush_segments,
}

module _ {A V C : Type 0} (m : Models A V C) (c : Settings) where
  -- `vad.feed(audio, is_final)`, up to the end of the audio.
  abbrev pub feed_vad : List A → Bool → Session A V C → List (List ℤ) × Session A V C
  feed_vad audio is_final s =
      let fed = m.feed audio is_final s.vad in (fed.0, record s { vad = fed.1 })

  abbrev pub unfed_audio : Session A V C → List A
  unfed_audio s = slice_audio m c (pos s.vad_fed_samples) (pos s.audio.total_samples) s

  -- `add_audio`, of the samples that the bytes stand for.
  unfoldable pub add_audio : List A → Session A V C → Session A V C × Bool
  unfolding append slice lock_confirmed_segments
  add_audio samples s =
      let heard = record s { audio = append samples s.audio } in
      let fed = feed_vad (unfed_audio heard) false heard in
      let locked =
        lock_confirmed_segments m c fed.0
          (record fed.1 { vad_fed_samples = heard.audio.total_samples }) in
      if not (has_items samples)
      then (s, false)
      else if not (has_items (unfed_audio heard))
      then (heard, false)
      else locked

  abbrev pub merged_partial : Option Text → Session A V C → Session A V C
  merged_partial none s = s
  merged_partial (some text) s =
      if is_empty text
      then s
      else record s { partial = m.merge_partial s.partial text; first_decode_done = true }

  abbrev pub after_decoding : ℤ → Option Text → Session A V C → Session A V C
  after_decoding chunk_end none s = s
  after_decoding chunk_end (some text) s = record (merged_partial (some text) s) {
    last_stream_samples = chunk_end;
  }

  -- `decode_partial`, without the event that it returns; a recognizer that raises leaves the
  -- state but for the cache, and the exception goes to the caller.
  unfoldable pub decode_partial : Session A V C → Session A V C
  unfolding slice
  decode_partial s =
      let threshold = if s.first_decode_done then c.chunk_samples else c.first_decode_samples in
      let chunk_end = min_ℤ (s.last_stream_samples +ℤ pos threshold) (pos s.audio.total_samples) in
      let new_audio = slice_audio m c s.last_stream_samples chunk_end s in
      let decoded = m.decode_streaming new_audio false s.streaming_cache in
      let cached = record s { streaming_cache = decoded.1 } in
      if ltb (length new_audio) threshold then s else after_decoding chunk_end decoded.0 cached

  -- `_flush_streaming_tail`: the state and the text.
  abbrev pub streaming_tail : Option Text → Session A V C → Session A V C × Text
  streaming_tail none s = (s, [])
  streaming_tail (some text) s =
      if not (is_empty text) && not (m.has_acceptable_final_text text)
      then (s, [])
      else (record s { last_stream_samples = pos s.audio.total_samples }, text)

  unfoldable pub flush_streaming_tail : Session A V C → Session A V C × Text
  unfolding slice
  flush_streaming_tail s =
      let remaining = slice_audio m c s.last_stream_samples (pos s.audio.total_samples) s in
      let decoded = m.decode_streaming remaining true s.streaming_cache in
      if not (has_items remaining)
      then (s, [])
      else if not (m.has_effective_speech_audio remaining)
      then (record s { last_stream_samples = pos s.audio.total_samples }, [])
      else streaming_tail decoded.0 (record s { streaming_cache = decoded.1 })

  -- `_force_lock_tail`
  unfoldable pub force_lock_tail : Session A V C → Session A V C
  unfolding decode_final_segment append_locked
  force_lock_tail s =
      let duration_ms : ℤ = pos (current_duration_ms m c s) in
      let start_ms = min_ℤ s.partial_start_ms duration_ms in
      let text = decode_final_segment m c start_ms duration_ms s in
      if leb_ℤ duration_ms start_ms then s else if is_empty text then s else record s {
        locked_sentences =
            append_locked (merge_gap m c) text start_ms duration_ms (some "forced_final_tail")
              s.locked_sentences;
      }

  -- `int(len(self.audio_buffer) * 1000 / self.sample_rate)`: of the audio that is still kept.
  abbrev pub buffered_ms : Session A V C → ℕ
  buffered_ms s =
      length (slice s.audio.start_sample s.audio.total_samples s.audio) * 1000 / c.sample_rate

  -- What `finish` feeds to the detector at the end: the segments, and the session.
  unfoldable pub feed_rest : Session A V C → List (List ℤ) × Session A V C
  unfolding slice
  feed_rest s =
      let remaining = unfed_audio s in
      let fed = feed_vad remaining true s in
      let all = record fed.1 { vad_fed_samples = s.audio.total_samples } in
      let closed = feed_vad [] true all in
      if has_items remaining then (fed.0 ++ closed.0, closed.1) else feed_vad [] true s

  -- Speech that the detector holds open ends with the audio.
  abbrev pub close_speech : Option ℤ → Session A V C → Session A V C
  close_speech none s = s
  close_speech (some start) s =
      let locked =
        (lock_confirmed_segments m c ((start ∷ pos (current_duration_ms m c s) ∷ []) ∷ []) s).0 in
      record locked { vad = m.clear_speech_start locked.vad }

  unfoldable pub lock_tail : ℕ → Text → Session A V C → Session A V C
  unfolding slice append_locked force_lock_tail
  lock_tail locked_count_before_finish flush_text s =
      let none_new = length s.locked_sentences == locked_count_before_finish in
      let duration_ms : ℤ = pos (buffered_ms s) in
      let from_stream = record s {
        locked_sentences =
            append_locked (merge_gap m c) flush_text (min_ℤ s.partial_start_ms duration_ms)
              duration_ms (some "streaming_final_flush") s.locked_sentences;
      } in
      if not (is_empty flush_text) && none_new
      then from_stream
      else if none_new
      then force_lock_tail s
      else s

  unfoldable pub finish : Session A V C → Session A V C
  unfolding feed_rest lock_confirmed_segments flush_segments flush_streaming_tail lock_tail
  finish s =
      let fed = feed_rest s in
      let confirmed = (lock_confirmed_segments m c fed.0 fed.1).0 in
      let closed = close_speech (m.current_speech_start confirmed.vad) confirmed in
      let flushed = (flush_pending_final_segments m c true closed).0 in
      let tail = flush_streaming_tail flushed in
      record (lock_tail (length s.locked_sentences) tail.1 tail.0) {
        partial = [];
        partial_start_ms = pos 0;
      }

  -- `consume_locked_sentences`: the sentences that have not been emitted yet.
  unfoldable pub consume_locked_sentences : Session A V C → List Sentence × Session A V C
  consume_locked_sentences s = (
    drop s.emitted_locked_count s.locked_sentences,
    record s { emitted_locked_count = length s.locked_sentences },
  )
