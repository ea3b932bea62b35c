-- ===== src/Offline/Speakers/Grouping.antt =====
-- Grouping by speakers loses white space at most.
use mathlib.Core.List.{Perm}
use funasr_api.Prelude.{
  append_assoc, ◌≡◌, refl, ap, sym, ◌∙◌, false, inl, inr, List, [], ◌∷◌, ◌++◌, Bool-cases, ◌==◌,
  All,
}
use funasr_api.Prelude.Text.{Text, is_empty, strip}
use funasr_api.Prelude.Text.Solid.{solid, solid-append, solid_blank}
use funasr_api.Offline.Speakers.Sorting.{IsInOrder, sort_units-IsInOrder, sort_units-perm}
use funasr_api.Offline.Speakers.{
  SpeakerSegment, TimedUnit, Sentence, speaker_for_time_range_with_boundary, sort_units,
  unit_payload, extend, keep, group, group_all, merge_timed_units_by_speaker,
}

abbrev pub text_of_units : List TimedUnit → Text
text_of_units [] = []
text_of_units (u ∷ us) = u.text ++ text_of_units us

abbrev pub text_of_sentences : List Sentence → Text
text_of_sentences [] = []
text_of_sentences (s ∷ ss) = s.text ++ text_of_sentences ss

solid-keep :
    (s : Sentence) (later : List Sentence)
    → solid (text_of_sentences (keep s later)) ≡ solid s.text ++ solid (text_of_sentences later)
unfolding keep
solid-keep s later = elim (Bool-cases (is_empty (strip s.text))) [
  | inl e ↦ rw e (ap (λ t. t ++ solid (text_of_sentences later)) (sym (solid_blank s.text e)))
  | inr e ↦ rw e (solid-append s.text (text_of_sentences later))
]

solid-group :
    (segments : List SpeakerSegment) (current : Sentence) (us : List TimedUnit)
    → solid (text_of_sentences (group segments current us))
      ≡ solid current.text ++ solid (text_of_units us)
unfolding group
solid-group segments current [] = solid-keep current []
solid-group segments current (u ∷ us) =
    let speaker_id = speaker_for_time_range_with_boundary u.start u.end segments in
    elim (Bool-cases (current.spk == speaker_id)) [
      | inl e ↦ rw e (
          solid-group segments (extend u current) us
          ∙ ap (λ t. t ++ solid (text_of_units us)) (solid-append current.text u.text)
          ∙ append_assoc (solid current.text) (solid u.text) (solid (text_of_units us))
          ∙ ap (λ t. solid current.text ++ t) (sym (solid-append u.text (text_of_units us))))
      | inr e ↦ rw e (
          solid-keep current (group segments (unit_payload speaker_id u) us)
          ∙ ap (λ t. solid current.text ++ t)
              (solid-group segments (unit_payload speaker_id u) us
                ∙ sym (solid-append u.text (text_of_units us))))
    ]

-- No sentence of the result is blank.
abbrev pub IsSpoken : Sentence → Type 0
IsSpoken s = is_empty (strip s.text) ≡ false

keep-All : (s : Sentence) (later : List Sentence) → All IsSpoken later → All IsSpoken (keep s later)
unfolding keep
keep-All s later h = elim (Bool-cases (is_empty (strip s.text))) [
  | inl e ↦ rw e h
  | inr e ↦ rw e (e, h)
]

group-All :
    (segments : List SpeakerSegment) (current : Sentence) (us : List TimedUnit)
    → All IsSpoken (group segments current us)
unfolding group
group-All segments current [] = keep-All current [] tt
group-All segments current (u ∷ us) =
    let speaker_id = speaker_for_time_range_with_boundary u.start u.end segments in
    elim (Bool-cases (current.spk == speaker_id)) [
      | inl e ↦ rw e (group-All segments (extend u current) us)
      | inr e ↦ rw e (
          keep-All current (group segments (unit_payload speaker_id u) us)
            (group-All segments (unit_payload speaker_id u) us))
    ]

-- The sentences have the texts of the sorted units, but for white space, and none is blank.
pub merge_keeps_sorted :
    (units : List TimedUnit) (segments : List SpeakerSegment)
    → (solid (text_of_sentences (merge_timed_units_by_speaker units segments))
        ≡ solid (text_of_units (sort_units units)))
      × All IsSpoken (merge_timed_units_by_speaker units segments)
unfolding merge_timed_units_by_speaker
merge_keeps_sorted units segments = each (sort_units units)
  where
    each :
        (us : List TimedUnit)
        → (solid (text_of_sentences (group_all segments us)) ≡ solid (text_of_units us))
          × All IsSpoken (group_all segments us)
    each [] = (refl, tt)
    each (u ∷ us) =
        let speaker_id = speaker_for_time_range_with_boundary u.start u.end segments in
        (
          solid-group segments (unit_payload speaker_id u) us
              ∙ sym (solid-append u.text (text_of_units us)),
          group-All segments (unit_payload speaker_id u) us,
        )

-- For every list of timed units and of speaker segments, the sentences of
-- `merge_timed_units_by_speaker`, joined, are but for white space the texts of the same units,
-- each once, in an order in which no unit stands behind one that starts later, or that starts with
-- it and ends later; and no sentence is blank.
pub merge_keeps_text :
    (units : List TimedUnit) (segments : List SpeakerSegment)
    → ((ordered : List TimedUnit) × Perm ordered units
        × IsInOrder ordered
        × (solid (text_of_sentences (merge_timed_units_by_speaker units segments))
            ≡ solid (text_of_units ordered)))
      × All IsSpoken (merge_timed_units_by_speaker units segments)
merge_keeps_text units segments =
    let (kept, spoken) = merge_keeps_sorted units segments in
    ((sort_units units, sort_units-perm units, sort_units-IsInOrder units, kept), spoken)
