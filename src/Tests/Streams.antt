-- ===== src/Tests/Streams.antt =====
-- The stream runtime, the recording and the loops over texts at concrete inputs.
use funasr_api.Prelude.{ℕ, ◌≡◌, refl, arith, true, false, some, List, [], ◌∷◌, length}
use funasr_api.Prelude.Int.{pos}
use funasr_api.Prelude.Text.{codes}
use funasr_api.Online.Stream.{
  Sent, started, result, stopped, Receiver, idle, finishing, waiting, delivering, sending, Stream,
  new_stream,
}
use funasr_api.Online.Stream.Steps.{
  Event, receives_audio, receives_start, receives_stop, gets_start_lock, announces, gets_stop_lock,
  finishes, takes, gets_add_lock, gets_send_lock, added, delivers, run_events,
}
use funasr_api.Online.Stream.Steps.Invariant.{current, AreCurrent, IsOf}
use funasr_api.Online.Stream.Steps.Generations.{results-AreCurrent, finish_sees_all}
use funasr_api.Online.Audio.{slice}
use funasr_api.Online.Audio.Recording.{
  Op, replaces, appends, drops, record_ops, excerpt, buffer_ops, buffer_refines_recording,
}
use funasr_api.Offline.Alignment.{Item, triple, align}
use funasr_api.Offline.Alignment.Fuel.{align_ends}
use funasr_api.Online.Boundary.{split_trailing_punctuation}
use funasr_api.Online.Boundary.Fuel.{Splits, split_trailing_punctuation_ends}

-- A session with one chunk, whose result is sent, and the lock for its end.
abbrev one_chunk : List (Event ℕ)
one_chunk =
    receives_start
    ∷ gets_start_lock
    ∷ announces
    ∷ receives_audio false 7
    ∷ takes
    ∷ gets_add_lock
    ∷ added (some true)
    ∷ gets_send_lock
    ∷ delivers true
    ∷ receives_stop
    ∷ gets_stop_lock
    ∷ []

abbrev at_end : Stream ℕ
at_end = record {
  generation = 1;
  queue = [];
  queue_max_chunks = 2;
  receiver = finishing;
  worker = waiting;
  is_active = true;
  audio = (1, 7) ∷ [];
  accepted = (1, 7) ∷ [];
  dropped = 0;
  queue_peak = 1;
  sent = result 1 ∷ started 1 ∷ [];
}

reaches : run_events one_chunk (new_stream 2) ≡ some at_end
unfolding run_events funasr_api.Online.Stream.Steps.step
    funasr_api.Online.Stream.Steps.receiver_step new_stream funasr_api.Online.Stream.begin_start
    funasr_api.Online.Stream.reset_session funasr_api.Online.Stream.Steps.worker_step
    funasr_api.Online.Stream.enqueue_audio funasr_api.Online.Stream.take_chunk
    funasr_api.Online.Stream.begin_add funasr_api.Online.Stream.end_add
    funasr_api.Online.Stream.begin_send funasr_api.Online.Stream.begin_finish
reaches = refl

-- A new start while a result waits for the lock: the result is not sent.
restarted : List (Event ℕ)
restarted =
    receives_start
    ∷ gets_start_lock
    ∷ announces
    ∷ receives_audio false 7
    ∷ takes
    ∷ gets_add_lock
    ∷ added (some true)
    ∷ receives_start
    ∷ gets_start_lock
    ∷ announces
    ∷ gets_send_lock
    ∷ []

not_sent :
    run_events restarted (new_stream 2)
    ≡ some (record at_end {
      generation = 2;
      receiver = idle;
      audio = [];
      accepted = [];
      sent = started 2 ∷ started 1 ∷ [];
    })
unfolding run_events restarted funasr_api.Online.Stream.Steps.step
    funasr_api.Online.Stream.Steps.receiver_step new_stream funasr_api.Online.Stream.begin_start
    funasr_api.Online.Stream.reset_session funasr_api.Online.Stream.Steps.worker_step
    funasr_api.Online.Stream.enqueue_audio funasr_api.Online.Stream.take_chunk
    funasr_api.Online.Stream.begin_add funasr_api.Online.Stream.end_add
    funasr_api.Online.Stream.begin_send
not_sent = refl

results-AreCurrent_example :
    AreCurrent (result 1 ∷ started 1 ∷ []) × IsOf (current (result 1 ∷ started 1 ∷ [])) at_end.audio
results-AreCurrent_example = results-AreCurrent 2 one_chunk at_end reaches

finish_sees_all_example : (at_end.audio ≡ at_end.accepted) × (at_end.queue ≡ [])
finish_sees_all_example = finish_sees_all 2 one_chunk at_end reaches refl

abbrev taped : List (Op ℕ)
taped = drops 1 ∷ appends (7 ∷ 8 ∷ []) ∷ replaces (5 ∷ 6 ∷ []) ∷ []

buffer_refines_recording_example :
    ((buffer_ops taped).total_samples ≡ length (record_ops taped).samples)
    × (slice 0 3 (buffer_ops taped) ≡ excerpt 0 3 (record_ops taped))
buffer_refines_recording_example = buffer_refines_recording taped 0 3

abbrev stamps : List Item
stamps = triple [] (pos 0) (pos 5) ∷ []

align_ends_example :
    align 9 (codes "hi") (record { tokens = []; pending_prefix = []; timestamps = stamps })
    ≡ align 2 (codes "hi") (record { tokens = []; pending_prefix = []; timestamps = stamps })
align_ends_example =
    align_ends 9 2 (codes "hi") (record { tokens = []; pending_prefix = []; timestamps = stamps })
      (omega arith) (omega arith)

split_trailing_punctuation_ends_example :
    Splits (codes "so, ok . !") [] (split_trailing_punctuation (codes "so, ok . !"))
split_trailing_punctuation_ends_example = split_trailing_punctuation_ends (codes "so, ok . !")
