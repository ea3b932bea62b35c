-- ===== src/Tests/Sessions.antt =====
-- The realtime session at concrete inputs.
use funasr_api.Prelude.{
  ℕ, ◌+◌, ◌-◌, ◌≤◌, ◌≡◌, refl, ◌⊎◌, inl, inr, Bool, true, false, ◌||◌, Option, none, some, List, [],
  ◌∷◌, ◌++◌, replicate, arith, All, length, min, max, take, drop, if◌then◌else◌,
}
use funasr_api.Prelude.Int.{ℤ, pos, ◌+ℤ◌, ◌-ℤ◌, ◌≤ℤ◌, ltb_ℤ, max_ℤ}
use funasr_api.Prelude.Text.{Text, codes, strip, is_empty}
use funasr_api.Online.Audio.{Buffer, slice, drop_before}
use funasr_api.Online.Audio.Slices.{held, slice_lem, slice-drop_before}
use funasr_api.Online.Policy.{
  Segment, Limits, should_flush_pending_segment, audio_trim_keep_from_sample,
}
use funasr_api.Online.Policy.Flush.{flush_in_silence}
use funasr_api.Online.Policy.Trim.{decode_from, decode_bound, trim_keeps_pending}
use funasr_api.Online.Boundary.{repair_previous_boundary_overlap}
use funasr_api.Online.Boundary.Repair.{IsRepair, repair_previous_boundary_overlap-IsRepair}
use funasr_api.Online.Session.{Settings, Models, new_session, lock_confirmed_segments}
use funasr_api.Online.Session.Operations.{add_audio, finish, consume_locked_sentences}
use funasr_api.Online.Session.Emission.{audio, end, results, run, sends_each_once}
use funasr_api.Online.Session.Spans.{spans}
use funasr_api.Online.Session.Finish.{IsProper, lock-IsProper, finish_leaves_nothing}

abbrev buffer : Buffer ℕ
buffer = record {
  start_sample = 2;
  total_samples = 6;
  chunks = (12 ∷ 13 ∷ []) ∷ (14 ∷ 15 ∷ []) ∷ [];
}

slice_lem_example : slice 1 4 buffer ≡ take (min 4 6 - max 1 2) (drop (1 - 2) (held buffer))
slice_lem_example = slice_lem 1 4 buffer

slice-drop_before_example : slice 4 6 (drop_before 3 buffer) ≡ slice 4 6 buffer
slice-drop_before_example = slice-drop_before 3 4 6 buffer (omega arith)

abbrev limits : Limits
limits = record {
  vad_max_final_ms = pos 12000;
  vad_min_final_ms = pos 2500;
  segment_merge_gap_ms = pos 2000;
}

abbrev segment : Segment
segment = record { start = pos 1000; end = pos 4000 }

lets_go : should_flush_pending_segment false limits (pos 6500) none segment ≡ true
unfolding should_flush_pending_segment funasr_api.Online.Policy.duration ◌-ℤ◌
    funasr_api.Online.Policy.speech_goes_on funasr_api.Online.Policy.required_tail_gap_ms
lets_go = refl

merge_over : segment.end +ℤ limits.segment_merge_gap_ms ≤ℤ pos 6500
unfolding ◌+ℤ◌
merge_over = omega arith

long_over : segment.end +ℤ limits.vad_min_final_ms ≤ℤ pos 6500
unfolding ◌+ℤ◌
long_over = omega arith

flush_in_silence_example : should_flush_pending_segment false limits (pos 6500) none segment ≡ true
flush_in_silence_example =
    flush_in_silence limits (pos 6500) segment (omega arith) refl merge_over long_over

trim_keeps_pending_example :
    All
      (λ s.
        audio_trim_keep_from_sample (pos 90000) (pos 96000) (segment ∷ []) (pos 350) 16000 none
        ≤ℤ decode_bound 16000 350 s)
      (segment ∷ [])
    × (pos 0
        ≤ℤ audio_trim_keep_from_sample (pos 90000) (pos 96000) (segment ∷ []) (pos 350) 16000 none)
    × (audio_trim_keep_from_sample (pos 90000) (pos 96000) (segment ∷ []) (pos 350) 16000 none
        ≤ℤ max_ℤ (pos 0) (pos 90000))
    × (audio_trim_keep_from_sample (pos 90000) (pos 96000) (segment ∷ []) (pos 350) 16000 none
        ≤ℤ max_ℤ (pos 0) (pos 96000))
trim_keeps_pending_example =
    trim_keeps_pending (pos 90000) (pos 96000) (segment ∷ []) 350 16000 none (omega arith, tt)

-- At 11025 samples a second the trim may pass the first sample of the decoding by one.
abbrev at_40 : Segment
at_40 = record { start = pos 40; end = pos 4000 }

kept_from :
    audio_trim_keep_from_sample (pos 90000) (pos 96000) (at_40 ∷ []) (pos 1) 11025 none ≡ pos 430
unfolding audio_trim_keep_from_sample ◌-ℤ◌
kept_from = refl

read_from : decode_from 11025 (pos 1) at_40 ≡ pos 429
unfolding funasr_api.Online.Policy.samples_of_ms ◌-ℤ◌
read_from = refl

repair_previous_boundary_overlap-IsRepair_example :
    let r =
      repair_previous_boundary_overlap
        (codes "we go home,")
        (pos 1000)
        (codes "home now")
        (pos 1100)
        (pos 2000) in
    (r.1 ≡ strip (codes "home now"))
    × ((r.0 ≡ codes "we go home,")
        ⊎ ((is_empty (strip (codes "home now")) ≡ false)
            × ((ltb_ℤ (pos 1100 -ℤ pos 1000) (pos 0) || ltb_ℤ (pos 2000) (pos 1100 -ℤ pos 1000))
                ≡ false)
            × IsRepair (codes "we go home,") (strip (codes "home now")) r.0))
repair_previous_boundary_overlap-IsRepair_example =
    repair_previous_boundary_overlap-IsRepair (codes "we go home,") (pos 1000) (codes "home now")
      (pos 1100) (pos 2000)

repaired :
    (repair_previous_boundary_overlap
      (codes "we go home,")
      (pos 1000)
      (codes "home now")
      (pos 1100)
      (pos 2000)).0
    ≡ codes "we go,"
unfolding repair_previous_boundary_overlap funasr_api.Prelude.Text.is_space ◌-ℤ◌
repaired = refl

abbrev settings : Settings
settings = record {
  sample_rate = 1000;
  first_decode_samples = 2;
  chunk_samples = 2;
  vad_pre_padding_ms = pos 1;
  vad_post_padding_ms = pos 1;
  vad_merge_gap_ms = pos 1;
  vad_min_final_ms = pos 1;
  vad_max_final_ms = pos 2;
}

-- The detector's state is the start of the speech that it is in; it confirms one segment
-- before the audio ends, and then finds speech begun.
abbrev models : Models ℕ (Option ℤ) ℕ
models = record {
  feed = λ samples is_final v. (
    if is_final then [] else (pos 0 ∷ pos 5 ∷ []) ∷ [],
    if is_final then some (pos 150) else none,
  );
  current_speech_start = λ v. v;
  clear_speech_start = λ v. none;
  initial_vad = none;
  initial_cache = 0;
  decode_final = λ samples. some (codes "hello");
  decode_streaming = λ samples is_final cache. (some (codes "hel"), cache);
  merge_partial = λ partial more. partial ++ more;
  has_effective_speech_audio = λ samples. true;
  has_acceptable_final_text = λ text. true;
}

abbrev samples : List ℕ
samples = replicate 200 1

sends_each_once_example :
    let r =
      run models settings (audio samples ∷ results ∷ end ∷ []) (new_session models settings) in
    spans (r.0 ++ (consume_locked_sentences models settings r.1).0) ≡ spans r.1.locked_sentences
sends_each_once_example = sends_each_once models settings (audio samples ∷ results ∷ end ∷ [])

finish_leaves_nothing_example :
    let t =
      finish models settings (add_audio models settings samples (new_session models settings)).0 in
    (t.pending_final_segments ≡ []) × (t.partial ≡ []) × (models.current_speech_start t.vad ≡ none)
finish_leaves_nothing_example =
    finish_leaves_nothing models settings (λ v. refl)
      (add_audio models settings samples (new_session models settings)).0

lock-IsProper_example :
    All IsProper
      (lock_confirmed_segments models settings
        ((pos 0 ∷ pos 5 ∷ []) ∷ (pos 9 ∷ pos 9 ∷ []) ∷ [])
        (new_session models settings)).0.pending_final_segments
lock-IsProper_example =
    lock-IsProper models settings ((pos 0 ∷ pos 5 ∷ []) ∷ (pos 9 ∷ pos 9 ∷ []) ∷ [])
      (new_session models settings) tt
