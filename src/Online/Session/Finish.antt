-- ===== src/Online/Session/Finish.antt =====
-- What `finish` leaves behind, and that a pending segment is never empty.
use funasr_api.Prelude.{
  ◌≡◌, refl, ap, ◌∙◌, Bool, true, false, inl, inr, Option, none, some, List, [], ◌∷◌, arith,
  Bool-cases, All, length, ℕ, Option-cases, ◌==◌, not, ◌&&◌,
}
use funasr_api.Prelude.Int.{ℤ, pos, ◌-ℤ◌, ltb_ℤ, leb_ℤ, min_ℤ, max_ℤ}
use funasr_api.Prelude.Text.{Text, is_empty}
use funasr_api.Online.Audio.{has_items}
use funasr_api.Online.Policy.{Segment, should_flush_pending_segment}
use funasr_api.Online.Session.{
  Settings, Models, Session, merge_gap, normalize_vad_segment, enqueue_pending, enqueue_normalized,
  enqueue_segments, finalize_pending_segment, trim_audio_buffer, should_flush, flush_segments,
  lock_confirmed_segments, slice_audio, decode_final_segment, current_duration_ms,
  flush_pending_final_segments,
}
use funasr_api.Online.Session.Operations.{
  feed_rest, close_speech, flush_streaming_tail, streaming_tail, lock_tail, force_lock_tail, finish,
}

-- The segment ends after it begins.
abbrev pub IsProper : Segment → Type 0
IsProper s = ltb_ℤ s.start s.end ≡ true

normalize-IsProper : (seg : List ℤ) (s : Segment) → normalize_vad_segment seg ≡ some s → IsProper s
unfolding normalize_vad_segment
normalize-IsProper [] s h = cc
normalize-IsProper (a ∷ []) s h = cc
normalize-IsProper (a ∷ b ∷ []) s h = ground arith
normalize-IsProper (a ∷ b ∷ d ∷ seg) s h = cc

merged-IsProper :
    (a b c d : ℤ) → ltb_ℤ a b ≡ true → ltb_ℤ c d ≡ true → ltb_ℤ (min_ℤ a c) (max_ℤ b d) ≡ true
merged-IsProper a b c d h k = ground arith

enqueue_pending-IsProper :
    (gap : ℤ) (s : Segment) (pending : List Segment)
    → IsProper s
    → All IsProper pending
    → All IsProper (enqueue_pending gap s pending)
unfolding enqueue_pending
enqueue_pending-IsProper gap s [] h k = (h, tt)
enqueue_pending-IsProper gap s (last ∷ []) h k =
    elim (Bool-cases (leb_ℤ (s.start -ℤ last.end) gap)) [
      | inl e ↦ rw e (merged-IsProper last.start last.end s.start s.end k.0 h, tt)
      | inr e ↦ rw e (k.0, (h, tt))
    ]
enqueue_pending-IsProper gap s (t ∷ u ∷ pending) h k =
    (k.0, enqueue_pending-IsProper gap s (u ∷ pending) h k.1)

enqueue_normalized-IsProper :
    (gap : ℤ) (seg : List ℤ) (o : Option Segment) (pending : List Segment)
    → normalize_vad_segment seg ≡ o
    → All IsProper pending
    → All IsProper (enqueue_normalized gap o pending)
enqueue_normalized-IsProper gap seg none pending e h = h
enqueue_normalized-IsProper gap seg (some s) pending e h =
    enqueue_pending-IsProper gap s pending (normalize-IsProper seg s e) h

enqueue_segments-IsProper :
    (gap : ℤ) (segments : List (List ℤ)) (pending : List Segment)
    → All IsProper pending
    → All IsProper (enqueue_segments gap segments pending)
unfolding enqueue_segments
enqueue_segments-IsProper gap [] pending h = h
enqueue_segments-IsProper gap (seg ∷ segments) pending h =
    enqueue_segments-IsProper gap segments
      (enqueue_normalized gap (normalize_vad_segment seg) pending)
      (enqueue_normalized-IsProper gap seg (normalize_vad_segment seg) pending refl h)

module _ {A V C : Type 0} (m : Models A V C) (c : Settings) where
  flush-IsProper :
      (force : Bool) (pending : List Segment) (s : Session A V C)
      → All IsProper pending
      → All IsProper (flush_segments m c force pending s).0.pending_final_segments
  unfolding flush_segments
  flush-IsProper force [] s h = tt
  flush-IsProper force (segment ∷ pending) s h =
      let r =
        finalize_pending_segment m c segment (record s { pending_final_segments = pending }) in
      elim (Bool-cases (should_flush m c force segment s)) [
        | inl e ↦ rw e (flush-IsProper force pending r.0 h.1)
        | inr e ↦ rw e h
      ]

  -- When no pending segment is empty, none is after the detector's segments have been taken in, whatever
  -- those are: malformed, empty, backwards or overlapping.
  pub lock-IsProper :
      (segments : List (List ℤ)) (s : Session A V C)
      → All IsProper s.pending_final_segments
      → All IsProper (lock_confirmed_segments m c segments s).0.pending_final_segments
  unfolding lock_confirmed_segments
  lock-IsProper segments s h =
      let pending = enqueue_segments (merge_gap m c) segments s.pending_final_segments in
      flush-IsProper false pending (record s { pending_final_segments = pending })
        (enqueue_segments-IsProper (merge_gap m c) segments s.pending_final_segments h)

  forced_flush :
      (pending : List Segment) (s : Session A V C)
      → ((flush_segments m c true pending s).0.pending_final_segments ≡ [])
        × ((flush_segments m c true pending s).0.vad ≡ s.vad)
  unfolding flush_segments should_flush_pending_segment finalize_pending_segment trim_audio_buffer
  forced_flush [] s = (refl, refl)
  forced_flush (segment ∷ pending) s =
      let left = record s { pending_final_segments = pending } in
      forced_flush pending (finalize_pending_segment m c segment left).0

  -- The same segments pending, and the same detector.
  abbrev Waits : Session A V C → Session A V C → Type 0
  Waits s t = (t.pending_final_segments ≡ s.pending_final_segments) × (t.vad ≡ s.vad)

  streaming_tail-Waits :
      (text : Option Text) (s : Session A V C) → Waits s (streaming_tail m c text s).0
  streaming_tail-Waits none s = (refl, refl)
  streaming_tail-Waits (some text) s =
      elim (Bool-cases (not (is_empty text) && not (m.has_acceptable_final_text text))) [
        | inl e ↦ rw e (refl, refl)
        | inr e ↦ rw e (refl, refl)
      ]

  flush_streaming_tail-Waits : (s : Session A V C) → Waits s (flush_streaming_tail m c s).0
  unfolding flush_streaming_tail
  flush_streaming_tail-Waits s =
      let remaining = slice_audio m c s.last_stream_samples (pos s.audio.total_samples) s in
      let decoded = m.decode_streaming remaining true s.streaming_cache in
      elim (Bool-cases (has_items remaining)) [
        | inr e ↦ rw e (refl, refl)
        | inl e ↦ elim (Bool-cases (m.has_effective_speech_audio remaining)) [
          | inr f ↦ rw (e, f) (refl, refl)
          | inl f ↦
              rw (e, f) (streaming_tail-Waits decoded.0 (record s { streaming_cache = decoded.1 }))
        ]
      ]

  force_lock_tail-Waits : (s : Session A V C) → Waits s (force_lock_tail m c s)
  unfolding force_lock_tail
  force_lock_tail-Waits s =
      let end : ℤ = pos (current_duration_ms m c s) in
      let start = min_ℤ s.partial_start_ms end in
      elim (Bool-cases (leb_ℤ end start)) [
        | inl e ↦ rw e (refl, refl)
        | inr e ↦ elim (Bool-cases (is_empty (decode_final_segment m c start end s))) [
          | inl f ↦ rw (e, f) (refl, refl)
          | inr f ↦ rw (e, f) (refl, refl)
        ]
      ]

  lock_tail-Waits :
      (count : ℕ) (text : Text) (s : Session A V C) → Waits s (lock_tail m c count text s)
  unfolding lock_tail
  lock_tail-Waits count text s =
      let none_new = length s.locked_sentences == count in
      elim (Bool-cases none_new) [
        | inr f ↦ elim (Bool-cases (is_empty text)) [
          | inl e ↦ rw (e, f) (refl, refl)
          | inr e ↦ rw (e, f) (refl, refl)
        ]
        | inl f ↦ elim (Bool-cases (is_empty text)) [
          | inl e ↦ rw (e, f) (force_lock_tail-Waits s)
          | inr e ↦ rw (e, f) (refl, refl)
        ]
      ]

  close_speech-closed :
      ((v : V) → m.current_speech_start (m.clear_speech_start v) ≡ none)
      → (s : Session A V C)
      → m.current_speech_start (close_speech m c (m.current_speech_start s.vad) s).vad ≡ none
  close_speech-closed clears s = elim (Option-cases (m.current_speech_start s.vad)) [
    | inl e ↦ rw e e
    | inr started ↦ rw started.1 (
        clears
          (lock_confirmed_segments m c ((started.0 ∷ pos (current_duration_ms m c s) ∷ []) ∷ [])
            s).0.vad)
  ]

  -- If clearing the start of the speech that the detector is in does clear it, then `finish`
  -- leaves, in every state and whatever the models answer, no segment pending, no partial text and no speech
  -- begun.
  pub finish_leaves_nothing :
      ((v : V) → m.current_speech_start (m.clear_speech_start v) ≡ none)
      → (s : Session A V C)
      → let t = finish m c s in
        (t.pending_final_segments ≡ []) × (t.partial ≡ []) × (m.current_speech_start t.vad ≡ none)
  unfolding finish
  finish_leaves_nothing clears s =
      let fed = feed_rest m c s in
      let confirmed = (lock_confirmed_segments m c fed.0 fed.1).0 in
      let closed = close_speech m c (m.current_speech_start confirmed.vad) confirmed in
      let flushed = forced_flush closed.pending_final_segments closed in
      let after = (flush_pending_final_segments m c true closed).0 in
      let tail = flush_streaming_tail m c after in
      let tail_waits = flush_streaming_tail-Waits after in
      let lock_waits = lock_tail-Waits (length s.locked_sentences) tail.1 tail.0 in
      (
        lock_waits.0 ∙ tail_waits.0 ∙ flushed.0,
        refl,
        ap m.current_speech_start (lock_waits.1 ∙ tail_waits.1 ∙ flushed.1)
            ∙ close_speech-closed clears confirmed,
      )
