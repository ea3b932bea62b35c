-- ===== src/Tests/Results.antt =====
-- Hotwords, aligned text and speakers at concrete inputs.
use mathlib.Core.List.{Perm}
use funasr_api.Prelude.{
  if◌then◌else◌, ◌==◌, ℕ, ◌+◌, ◌≤◌, ◌≡◌, ◌≢◌, refl, ◌⊎◌, inl, inr, Bool, true, false, Option, none,
  some, List, [], ◌∷◌, ◌++◌, arith, All, length, if◌then◌else◌,
}
use funasr_api.Prelude.Int.{ℤ, pos, ◌≤ℤ◌}
use funasr_api.Prelude.Text.{Text, codes, strip, is_empty}
use funasr_api.Core.Hotwords.{
  Json, array, object, integer, text, no_items, item, no_members, member, Hotword,
  normalize_hotword_items,
}
use funasr_api.Core.Hotwords.{words, Resolved, lookup_all, resolve_hotwords_with_priority}
use funasr_api.Core.Hotwords.Priority.{
  first_found, by_custom, by_id, IsResolved, resolve_hotwords_with_priority-IsResolved,
}
use funasr_api.Core.Hotwords.Format.{IsCanonical, encode, normalize-IsCanonical, normalize-encode}
use funasr_api.Offline.Alignment.{Item, triple, align_text_to_timestamps}
use funasr_api.Offline.Alignment.Tokens.{joined, token_times, item_times}
use funasr_api.Offline.Alignment.Coverage.{align_keeps_text}
use funasr_api.Offline.Speakers.Sorting.{IsInOrder}
use funasr_api.Offline.Speakers.{
  SpeakerSegment, TimedUnit, speaker_for_time_range, merge_timed_units_by_speaker,
}
use funasr_api.Offline.Speakers.Overlap.{IsMatching, speaker_matches}
use funasr_api.Prelude.Text.Solid.{solid}
use funasr_api.Offline.Speakers.Grouping.{
  text_of_sentences, text_of_units, IsSpoken, merge_keeps_text,
}

abbrev word : Hotword
word = record { weight = pos 20; hotword = codes "fun asr" }

abbrev written : Json
written = array (
    item
      (object (
        member (codes "hotword") (text (codes " fun asr "))
          (member (codes "weight") (integer (pos 20)) no_members)))
      no_items)

reads_stripped : normalize_hotword_items written ≡ some (word ∷ [])
unfolding normalize_hotword_items funasr_api.Prelude.Text.text_eq is_empty strip
    funasr_api.Prelude.Text.is_space
reads_stripped = refl

normalize-IsCanonical_example : All IsCanonical (word ∷ [])
normalize-IsCanonical_example = normalize-IsCanonical written (word ∷ []) reads_stripped

word-IsCanonical : IsCanonical word
unfolding strip funasr_api.Prelude.Text.is_space
word-IsCanonical = record { low = omega arith; high = omega arith; stripped = refl; solid = refl }

normalize-encode_example : normalize_hotword_items (encode (word ∷ [])) ≡ some (word ∷ [])
normalize-encode_example = normalize-encode (word ∷ []) (word-IsCanonical, tt)

-- No list is stored under 3, and one word under 4.
abbrev stored : ℕ → Option (List Hotword)
stored id = if id == 4 then some (word ∷ []) else none

abbrev by_default : Resolved
by_default = record { value = words (codes "fun asr"); count = 1 }

finds_default :
    resolve_hotwords_with_priority (λ t. none) stored false none (some 3) (4 ∷ []) ≡ some by_default
unfolding resolve_hotwords_with_priority funasr_api.Core.Hotwords.format_hotwords_for_model is_empty
finds_default = refl

resolve_hotwords_with_priority-IsResolved_example :
    IsResolved
      (λ t. none)
      stored
      false
      (first_found (
        by_custom (λ t. none) stored none
        ∷ by_id (λ t. none) stored (some 3)
        ∷ lookup_all (λ t. none) stored (4 ∷ [])
        ∷ []))
      by_default
resolve_hotwords_with_priority-IsResolved_example =
    resolve_hotwords_with_priority-IsResolved (λ t. none) stored false none (some 3) (4 ∷ [])
      by_default finds_default

abbrev sentence : Text
sentence = codes "ok, 好"

abbrev stamps : List Item
stamps =
    triple [] (pos 10) (pos 20) ∷ triple [] (pos 20) (pos 30) ∷ triple [] (pos 30) (pos 40) ∷ []

some_stamps : stamps ≢ []
some_stamps e = cc

align_keeps_text_example :
    ((align_text_to_timestamps sentence stamps ≡ [])
      ⊎ (joined (align_text_to_timestamps sentence stamps) ≡ sentence))
    × ((left : List Item) × (token_times (align_text_to_timestamps sentence stamps)
            ++ item_times left
          ≡ item_times stamps))
align_keeps_text_example = align_keeps_text sentence stamps (tt, (tt, (tt, tt))) some_stamps

-- The third time stamp is left over.
two_tokens : length (align_text_to_timestamps sentence stamps) ≡ 2
unfolding align_text_to_timestamps
two_tokens = refl

abbrev speakers : List SpeakerSegment
speakers =
    record { start = pos 0; end = pos 100; speaker = 4 }
    ∷ record { start = pos 100; end = pos 300; speaker = 7 }
    ∷ []

some_speakers : speakers ≢ []
some_speakers e = cc

second_speaker : speaker_for_time_range (pos 80) (pos 150) speakers ≡ 7
unfolding speaker_for_time_range funasr_api.Prelude.Int.◌-ℤ◌
second_speaker = refl

speaker_matches_example :
    (s : SpeakerSegment) × (speaker_for_time_range (pos 80) (pos 150) speakers ≡ s.speaker)
    × IsMatching (pos 80) (pos 150) speakers s
speaker_matches_example = speaker_matches (pos 80) (pos 150) speakers some_speakers

abbrev units : List TimedUnit
units =
    record { text = codes "b"; start = pos 120; end = pos 200; timestamp = none }
    ∷ record { text = codes "a "; start = pos 10; end = pos 90; timestamp = none }
    ∷ []

merge_keeps_text_example :
    ((ordered : List TimedUnit) × Perm ordered units
      × IsInOrder ordered
      × (solid (text_of_sentences (merge_timed_units_by_speaker units speakers))
          ≡ solid (text_of_units ordered)))
    × All IsSpoken (merge_timed_units_by_speaker units speakers)
merge_keeps_text_example = merge_keeps_text units speakers
