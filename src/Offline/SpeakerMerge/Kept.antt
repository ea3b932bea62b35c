-- ===== src/Offline/SpeakerMerge/Kept.antt =====
-- The text of a recognition in its sentences by speakers
-- (src/engine_runtime/engines/offline/onnx/speaker_merge.py).
use funasr_api.Prelude.{
  ◌≡◌, ◌≢◌, refl, ap, sym, ◌∙◌, subst, true, false, ◌⊎◌, inl, inr, Option, none, some, List, [],
  ◌∷◌, ◌++◌, All,
}
use funasr_api.Prelude.Int.{ℤ}
use funasr_api.Prelude.Text.{Text}
use funasr_api.Prelude.Text.Solid.{solid}
use funasr_api.Offline.Alignment.{Item, Token, align_text_to_timestamps}
use funasr_api.Offline.Alignment.Tokens.{IsTriple, joined, token_times, item_times}
use funasr_api.Offline.Alignment.Coverage.{align_keeps_text}
use funasr_api.Offline.Speakers.{
  SpeakerSegment, Sentence, times_le, insert_unit, sort_units, sort_segments,
  merge_timed_units_by_speaker,
}
use funasr_api.Offline.Speakers.Grouping.{
  text_of_units, text_of_sentences, IsSpoken, merge_keeps_sorted,
}
use funasr_api.Offline.SpeakerMerge.{
  Payload, SpeakerResult, text_of_payload, units_of_tokens, build_speaker_aligned_text,
  aligned_if_timed, with_segments, or_else_sentences, has_error, assign_speakers_to_asr_segments,
  build_asr_sentence_info, merge_onnx_speaker_result,
}

-- No time comes before the one in front of it.
abbrev pub InTime : List (ℤ × ℤ) → Type 0
InTime [] = Unit
InTime (t ∷ []) = Unit
InTime (t ∷ u ∷ ts) = (times_le t.0 t.1 u.0 u.1 ≡ true) × InTime (u ∷ ts)

InTime-append : (ts us : List (ℤ × ℤ)) → InTime (ts ++ us) → InTime ts
InTime-append [] us h = tt
InTime-append (t ∷ []) us h = tt
InTime-append (t ∷ u ∷ ts) us h = (h.0, InTime-append (u ∷ ts) us h.1)

sort_units-InTime :
    (tokens : List Token)
    → InTime (token_times tokens)
    → sort_units (units_of_tokens tokens) ≡ units_of_tokens tokens
unfolding sort_units insert_unit
sort_units-InTime [] h = refl
sort_units-InTime (t ∷ []) h = refl
sort_units-InTime (t ∷ u ∷ tokens) h =
    let rest = sort_units-InTime (u ∷ tokens) h.1 in
    ap (insert_unit (record { text = t.text; start = t.start; end = t.end; timestamp = none })) rest
    ∙ rw h.0 refl

text-units_of_tokens :
    (tokens : List Token) → text_of_units (units_of_tokens tokens) ≡ joined tokens
text-units_of_tokens [] = refl
text-units_of_tokens (t ∷ tokens) = ap (λ s. t.text ++ s) (text-units_of_tokens tokens)

-- With time stamps of three entries in the order of time, one at least, the sentences by
-- speakers have the characters of the text that are no white space, in their order, or the
-- alignment has found no token; and no sentence is blank.
aligned_keeps_text :
    (text : Text) (item : Item) (items : List Item) (segments : List SpeakerSegment)
    → All IsTriple (item ∷ items)
    → InTime (item_times (item ∷ items))
    → ((align_text_to_timestamps text (item ∷ items) ≡ [])
        ⊎ (solid (text_of_sentences (build_speaker_aligned_text text (item ∷ items) segments))
            ≡ solid text))
      × All IsSpoken (build_speaker_aligned_text text (item ∷ items) segments)
unfolding build_speaker_aligned_text
aligned_keeps_text text item items segments triples ordered =
    let tokens = align_text_to_timestamps text (item ∷ items) in
    let (whole, (left, times)) = align_keeps_text text (item ∷ items) triples (λ e. cc e) in
    let (kept, spoken) = merge_keeps_sorted (units_of_tokens tokens) segments in
    let in_time =
      InTime-append (token_times tokens) (item_times left) (subst InTime (sym times) ordered) in
    let all =
      kept
      ∙ ap (λ us. solid (text_of_units us)) (sort_units-InTime tokens in_time)
      ∙ ap solid (text-units_of_tokens tokens) in
    (elim whole [ inl none_read ↦ inl none_read | inr same ↦ inr (all ∙ ap solid same) ], spoken)

or_else-nonempty :
    (info : List Sentence) (d : Option (List Sentence))
    → info ≢ []
    → or_else_sentences info d ≡ some info
or_else-nonempty [] d h = absurd (h refl)
or_else-nonempty (s ∷ ss) d h = refl

no_tokens :
    (text : Text) (items : List Item) (segments : List SpeakerSegment)
    → align_text_to_timestamps text items ≡ []
    → build_speaker_aligned_text text items segments ≡ []
unfolding build_speaker_aligned_text
no_tokens text items segments e =
    ap (λ tokens. merge_timed_units_by_speaker (units_of_tokens tokens) segments) e

module _ (p : Payload) (item : Item) (items : List Item) (speaker : SpeakerResult)
    (s : SpeakerSegment) (segments : List SpeakerSegment) (timed : p.timestamps ≡ item ∷ items)
    (heard : speaker.segments ≡ s ∷ segments) (sound : has_error speaker.error ≡ false) where
  abbrev aligned : List Sentence
  aligned =
      build_speaker_aligned_text (text_of_payload p) (item ∷ items) (sort_segments (s ∷ segments))

  -- The sentences where alignment gives none.
  abbrev unaligned : Option (List Sentence)
  unaligned =
      or_else_sentences
        (assign_speakers_to_asr_segments p.asr_segments (sort_segments (s ∷ segments)))
        (build_asr_sentence_info p)

  merged_aligned : aligned ≢ [] → merge_onnx_speaker_result p (some speaker) ≡ some aligned
  unfolding merge_onnx_speaker_result
  merged_aligned some_left = rw sound (
      ap (with_segments p) heard
      ∙ ap
          (λ ts.
            or_else_sentences
              (aligned_if_timed (text_of_payload p) ts (sort_segments (s ∷ segments))) unaligned)
          timed
      ∙ or_else-nonempty aligned unaligned some_left)

  -- A recognition with time stamps of three entries in the order of time, merged with a diarization
  -- that has segments and no error: when the text can be aligned to any sentence at all, the sentences
  -- are those by speakers, they have the characters of the text that are no white space, in their
  -- order, and none of them is blank.
  pub merge_onnx_speaker_result_keeps_text :
      All IsTriple (item ∷ items)
      → InTime (item_times (item ∷ items))
      → aligned ≢ []
      → (merge_onnx_speaker_result p (some speaker) ≡ some aligned)
        × (solid (text_of_sentences aligned) ≡ solid (text_of_payload p))
        × All IsSpoken aligned
  merge_onnx_speaker_result_keeps_text triples ordered some_left =
      let (whole, spoken) =
        aligned_keeps_text (text_of_payload p) item items (sort_segments (s ∷ segments)) triples
          ordered in
      (
        merged_aligned some_left,
        elim whole [
          | inl none_read ↦ absurd (some_left (no_tokens (text_of_payload p) _ _ none_read))
          | inr same ↦ same
        ],
        spoken,
      )
