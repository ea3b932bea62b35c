-- ===== src/Online/Session/Growth.antt =====
-- No operation but the answering of a request takes anything from the locked sentences, or counts
-- them as sent.
use funasr_api.Prelude.{
  ℕ, ◌≡◌, refl, ◌∙◌, Bool, true, false, ◌&&◌, not, inl, inr, Option, none, some, List, [], ◌∷◌,
  Bool-cases, if◌then◌else◌, length, ◌==◌, ltb,
}
use funasr_api.Prelude.Int.{ℤ, pos, min_ℤ, leb_ℤ, ◌+ℤ◌}
use funasr_api.Prelude.Text.{Text, is_empty}
use funasr_api.Online.Audio.{has_items, append}
use funasr_api.Online.Policy.{Segment}
use funasr_api.Online.Session.{
  Settings, Models, Session, merge_gap, decode_final_segment, append_locked,
  finalize_pending_segment, trim_audio_buffer, should_flush, flush_segments,
  lock_confirmed_segments, enqueue_segments, slice_audio, current_duration_ms,
  flush_pending_final_segments,
}
use funasr_api.Online.Session.Operations.{
  add_audio, decode_partial, feed_vad, unfed_audio, after_decoding, streaming_tail, buffered_ms,
  feed_rest, close_speech, flush_streaming_tail, lock_tail, force_lock_tail, finish,
}
use funasr_api.Online.Session.Spans.{Grows, Grows-refl, Grows-trans, append_locked-Grows}

-- The session has the sentences of the other one and more, and has emitted as many.
abbrev pub Extends : {A V C : Type 0} → Session A V C → Session A V C → Type 0
Extends s t =
    Grows s.locked_sentences t.locked_sentences × (t.emitted_locked_count ≡ s.emitted_locked_count)

module _ {A V C : Type 0} (m : Models A V C) (c : Settings) where
  Extends-trans : (s t u : Session A V C) → Extends s t → Extends t u → Extends s u
  Extends-trans s t u h k =
      (Grows-trans s.locked_sentences t.locked_sentences u.locked_sentences h.0 k.0, k.1 ∙ h.1)

  finalize-Extends :
      (segment : Segment) (s : Session A V C) → Extends s (finalize_pending_segment m c segment s).0
  unfolding finalize_pending_segment trim_audio_buffer
  finalize-Extends segment s =
      let text = decode_final_segment m c segment.start segment.end s in
      elim (Bool-cases (is_empty text)) [
        | inl e ↦ rw e (Grows-refl s.locked_sentences, refl)
        | inr e ↦ rw e (
          append_locked-Grows (merge_gap m c) text segment.start segment.end none
              s.locked_sentences,
          refl,
        )
      ]

  flush-Extends :
      (force : Bool) (pending : List Segment) (s : Session A V C)
      → Extends s (flush_segments m c force pending s).0
  unfolding flush_segments
  flush-Extends force [] s = (Grows-refl s.locked_sentences, refl)
  flush-Extends force (segment ∷ pending) s =
      let left = record s { pending_final_segments = pending } in
      let r = finalize_pending_segment m c segment left in
      elim (Bool-cases (should_flush m c force segment s)) [
        | inl e ↦ rw e (
            Extends-trans left r.0 (flush_segments m c force pending r.0).0
              (finalize-Extends segment left) (flush-Extends force pending r.0))
        | inr e ↦ rw e (Grows-refl s.locked_sentences, refl)
      ]

  pub Extends-refl : (s : Session A V C) → Extends s s
  Extends-refl s = (Grows-refl s.locked_sentences, refl)

  Extends-if :
      (b : Bool) (s t u : Session A V C)
      → Extends s t
      → Extends s u
      → Extends s (if b then t else u)
  Extends-if true s t u h k = h
  Extends-if false s t u h k = k

  Extends-if_fst :
      {B : Type 0} (b : Bool) (s : Session A V C) (p q : Session A V C × B)
      → Extends s p.0
      → Extends s q.0
      → Extends s (if b then p else q).0
  Extends-if_fst true s p q h k = h
  Extends-if_fst false s p q h k = k

  lock-Extends :
      (segments : List (List ℤ)) (s : Session A V C)
      → Extends s (lock_confirmed_segments m c segments s).0
  unfolding lock_confirmed_segments
  lock-Extends segments s =
      let pending = enqueue_segments (merge_gap m c) segments s.pending_final_segments in
      flush-Extends false pending (record s { pending_final_segments = pending })

  pub add_audio-Extends :
      (samples : List A) (s : Session A V C) → Extends s (add_audio m c samples s).0
  unfolding add_audio
  add_audio-Extends samples s =
      let heard = record s { audio = append samples s.audio } in
      let fed = feed_vad m c (unfed_audio m c heard) false heard in
      let ready = record fed.1 { vad_fed_samples = heard.audio.total_samples } in
      let locked = lock_confirmed_segments m c fed.0 ready in
      Extends-if_fst (not (has_items samples)) s (s, false)
        (if not (has_items (unfed_audio m c heard)) then (heard, false) else locked)
        (Extends-refl s)
        (Extends-if_fst (not (has_items (unfed_audio m c heard))) s (heard, false) locked
          (Extends-refl s) (lock-Extends fed.0 ready))

  after_decoding-Extends :
      (chunk_end : ℤ) (text : Option Text) (s : Session A V C)
      → Extends s (after_decoding m c chunk_end text s)
  unfolding is_empty
  after_decoding-Extends chunk_end none s = Extends-refl s
  after_decoding-Extends chunk_end (some []) s = Extends-refl s
  after_decoding-Extends chunk_end (some (d ∷ text)) s = Extends-refl s

  pub decode_partial-Extends : (s : Session A V C) → Extends s (decode_partial m c s)
  unfolding decode_partial
  decode_partial-Extends s =
      let threshold = if s.first_decode_done then c.chunk_samples else c.first_decode_samples in
      let chunk_end = min_ℤ (s.last_stream_samples +ℤ pos threshold) (pos s.audio.total_samples) in
      let new_audio = slice_audio m c s.last_stream_samples chunk_end s in
      let decoded = m.decode_streaming new_audio false s.streaming_cache in
      let cached = record s { streaming_cache = decoded.1 } in
      Extends-if (ltb (length new_audio) threshold) s s
        (after_decoding m c chunk_end decoded.0 cached) (Extends-refl s)
        (after_decoding-Extends chunk_end decoded.0 cached)

  feed_rest-Extends : (s : Session A V C) → Extends s (feed_rest m c s).1
  unfolding feed_rest
  feed_rest-Extends s = elim (Bool-cases (has_items (unfed_audio m c s))) [
    | inl e ↦ rw e (Extends-refl s)
    | inr e ↦ rw e (Extends-refl s)
  ]

  close_speech-Extends :
      (start : Option ℤ) (s : Session A V C) → Extends s (close_speech m c start s)
  close_speech-Extends none s = Extends-refl s
  close_speech-Extends (some start) s =
      lock-Extends ((start ∷ pos (current_duration_ms m c s) ∷ []) ∷ []) s

  streaming_tail-Extends :
      (text : Option Text) (s : Session A V C) → Extends s (streaming_tail m c text s).0
  streaming_tail-Extends none s = Extends-refl s
  streaming_tail-Extends (some text) s =
      Extends-if_fst (not (is_empty text) && not (m.has_acceptable_final_text text)) s (s, [])
        (record s { last_stream_samples = pos s.audio.total_samples }, text) (Extends-refl s)
        (Extends-refl s)

  flush_streaming_tail-Extends : (s : Session A V C) → Extends s (flush_streaming_tail m c s).0
  unfolding flush_streaming_tail
  flush_streaming_tail-Extends s =
      let remaining = slice_audio m c s.last_stream_samples (pos s.audio.total_samples) s in
      let decoded = m.decode_streaming remaining true s.streaming_cache in
      let cached = record s { streaming_cache = decoded.1 } in
      elim (Bool-cases (has_items remaining)) [
        | inr e ↦ rw e (Extends-refl s)
        | inl e ↦ elim (Bool-cases (m.has_effective_speech_audio remaining)) [
          | inr f ↦ rw (e, f) (Extends-refl s)
          | inl f ↦ rw (e, f) (streaming_tail-Extends decoded.0 cached)
        ]
      ]

  force_lock_tail-Extends : (s : Session A V C) → Extends s (force_lock_tail m c s)
  unfolding force_lock_tail
  force_lock_tail-Extends s =
      let end : ℤ = pos (current_duration_ms m c s) in
      let start = min_ℤ s.partial_start_ms end in
      let text = decode_final_segment m c start end s in
      let locked = record s {
        locked_sentences =
            append_locked (merge_gap m c) text start end (some "forced_final_tail")
              s.locked_sentences;
      } in
      Extends-if (leb_ℤ end start) s s (if is_empty text then s else locked) (Extends-refl s) (
        Extends-if (is_empty text) s s locked (Extends-refl s) (
          append_locked-Grows (merge_gap m c) text start end (some "forced_final_tail")
              s.locked_sentences,
          refl,
        ))

  lock_tail-Extends :
      (count : ℕ) (text : Text) (s : Session A V C) → Extends s (lock_tail m c count text s)
  unfolding lock_tail
  lock_tail-Extends count text s =
      let none_new = length s.locked_sentences == count in
      let end : ℤ = pos (buffered_ms m c s) in
      let start = min_ℤ s.partial_start_ms end in
      let from_stream = record s {
        locked_sentences =
            append_locked (merge_gap m c) text start end (some "streaming_final_flush")
              s.locked_sentences;
      } in
      Extends-if (not (is_empty text) && none_new) s from_stream
        (if none_new then force_lock_tail m c s else s)
        (
          append_locked-Grows (merge_gap m c) text start end (some "streaming_final_flush")
              s.locked_sentences,
          refl,
        )
        (Extends-if none_new s (force_lock_tail m c s) s (force_lock_tail-Extends s)
          (Extends-refl s))

  pub finish-Extends : (s : Session A V C) → Extends s (finish m c s)
  unfolding finish
  finish-Extends s =
      let fed = feed_rest m c s in
      let confirmed = (lock_confirmed_segments m c fed.0 fed.1).0 in
      let closed = close_speech m c (m.current_speech_start confirmed.vad) confirmed in
      let flushed = (flush_pending_final_segments m c true closed).0 in
      let tail = flush_streaming_tail m c flushed in
      let locked = lock_tail m c (length s.locked_sentences) tail.1 tail.0 in
      Extends-trans s fed.1 locked (feed_rest-Extends s) (
        Extends-trans fed.1 confirmed locked (lock-Extends fed.0 fed.1) (
          Extends-trans confirmed closed locked
            (close_speech-Extends (m.current_speech_start confirmed.vad) confirmed)
            (Extends-trans closed flushed locked
              (flush-Extends true closed.pending_final_segments closed)
              (Extends-trans flushed tail.0 locked (flush_streaming_tail-Extends flushed)
                (lock_tail-Extends (length s.locked_sentences) tail.1 tail.0)))))
