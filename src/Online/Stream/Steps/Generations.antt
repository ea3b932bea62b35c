-- ===== src/Online/Stream/Steps/Generations.antt =====
-- What holds in every run of a stream runtime (src/application/online_stream_runtime.py).
use funasr_api.Prelude.{ℕ, ◌≡◌, refl, subst, Bool, true, false, Option, none, some, List, [], ◌∷◌}
use funasr_api.Online.Stream.{
  Receiver, idle, starting, announcing, joining, finishing, Worker, waiting, holding, adding,
  decoding, sending, delivering, Stream, new_stream, lock_is_free,
}
use funasr_api.Online.Stream.Steps.{
  Event, receives_audio, receives_start, receives_stop, gets_start_lock, announces, gets_stop_lock,
  finishes, closes, takes, gets_add_lock, decodes, gets_send_lock, added, decoded, delivers,
  only_if, and_then, receiver_step, worker_step, step, run_events,
}
use funasr_api.Online.Stream.Steps.Invariant.{current, AreCurrent, IsOf, Phase, IsSound}
use funasr_api.Online.Stream.Steps.Work.{
  end_add-IsSound, end_decode-IsSound, begin_decode-IsSound, begin_send-IsSound, deliver-IsSound,
  deliver_fails-IsSound, take_chunk-IsSound, begin_add-IsSound,
}
use funasr_api.Online.Stream.Steps.Receive.{
  new_stream-IsSound, enqueue_audio-IsSound, begin_start-IsSound, begin_stop-IsSound, close-IsSound,
  reset_session-IsSound, announce-IsSound, begin_finish-IsSound, end_finish-IsSound,
}

only_if-some {ℓ} : {A : Type ℓ} (b : Bool) (a c : A) → only_if b a ≡ some c → (b ≡ true) × (a ≡ c)
only_if-some true a c e = (refl, cc e)
only_if-some false a c e = cc e

module _ {D : Type 0} (s t : Stream D) (h : IsSound s) where
  now : {x : Stream D} → IsSound x → some x ≡ some t → IsSound t
  now {x} k e = let same : x ≡ t = cc e in subst IsSound same k

  if_free : {x : Stream D} (b : Bool) → (b ≡ true → IsSound x) → only_if b x ≡ some t → IsSound t
  if_free {x} b k e = let (free, same) = only_if-some b x t e in subst IsSound same (k free)

  receiver_step-IsSound :
      (r : Receiver) (e : Event D) → s.receiver ≡ r → receiver_step r e s ≡ some t → IsSound t
  unfolding receiver_step
  receiver_step-IsSound idle (receives_audio notify d) at st =
      now (enqueue_audio-IsSound s h notify d at) st
  receiver_step-IsSound idle receives_start at st = now (begin_start-IsSound s h) st
  receiver_step-IsSound idle receives_stop at st = now (begin_stop-IsSound s h at) st
  receiver_step-IsSound (starting g) gets_start_lock at st =
      if_free (lock_is_free s) (reset_session-IsSound s h g at) st
  receiver_step-IsSound (announcing g) announces at st = now (announce-IsSound s h g at) st
  receiver_step-IsSound joining gets_stop_lock at st = if_free _ (begin_finish-IsSound s h at) st
  receiver_step-IsSound finishing (finishes has_result) at st =
      now (end_finish-IsSound s h has_result at) st
  receiver_step-IsSound r e at st = cc st

  worker_step-IsSound :
      (w : Worker D) (e : Event D) → s.worker ≡ w → worker_step w e s ≡ some t → IsSound t
  unfolding worker_step
  worker_step-IsSound waiting takes at st = take_chunk-IsSound s h t at st
  worker_step-IsSound (holding g d) gets_add_lock at st =
      if_free (lock_is_free s) (λ free. begin_add-IsSound s h g d at) st
  worker_step-IsSound (adding g) (added end) at st = now (end_add-IsSound s h end g at) st
  worker_step-IsSound (adding g) decodes at st = now (begin_decode-IsSound s h g at) st
  worker_step-IsSound (decoding g) (decoded end) at st = now (end_decode-IsSound s h end g at) st
  worker_step-IsSound (sending g) gets_send_lock at st =
      if_free (lock_is_free s) (λ free. begin_send-IsSound s h g at) st
  worker_step-IsSound (delivering g) (delivers true) at st = now (deliver-IsSound s h g at) st
  worker_step-IsSound (delivering g) (delivers false) at st =
      now (deliver_fails-IsSound s h g at) st
  worker_step-IsSound w e at st = cc st

  step-IsSound : (e : Event D) → step e s ≡ some t → IsSound t
  unfolding step
  step-IsSound closes st = now (close-IsSound s h) st
  step-IsSound takes st = worker_step-IsSound s.worker takes refl st
  step-IsSound gets_add_lock st = worker_step-IsSound s.worker gets_add_lock refl st
  step-IsSound decodes st = worker_step-IsSound s.worker decodes refl st
  step-IsSound gets_send_lock st = worker_step-IsSound s.worker gets_send_lock refl st
  step-IsSound (added end) st = worker_step-IsSound s.worker (added end) refl st
  step-IsSound (decoded end) st = worker_step-IsSound s.worker (decoded end) refl st
  step-IsSound (delivers done) st = worker_step-IsSound s.worker (delivers done) refl st
  step-IsSound (receives_audio notify d) st = receiver_step-IsSound s.receiver _ refl st
  step-IsSound receives_start st = receiver_step-IsSound s.receiver _ refl st
  step-IsSound receives_stop st = receiver_step-IsSound s.receiver _ refl st
  step-IsSound gets_start_lock st = receiver_step-IsSound s.receiver _ refl st
  step-IsSound announces st = receiver_step-IsSound s.receiver _ refl st
  step-IsSound gets_stop_lock st = receiver_step-IsSound s.receiver _ refl st
  step-IsSound (finishes b) st = receiver_step-IsSound s.receiver _ refl st

module _ {D : Type 0} where
  run_events-IsSound :
      (es : List (Event D)) (s t : Stream D) → IsSound s → run_events es s ≡ some t → IsSound t
  unfolding run_events
  run_events-IsSound [] s t h e = let same : s ≡ t = cc e in subst IsSound same h
  run_events-IsSound (e ∷ es) s t h st =
      ran (step e s) refl st (λ u q. run_events-IsSound es u t (step-IsSound s u h e q))
    where
      ran :
          (o : Option (Stream D))
          → step e s ≡ o
          → and_then o (run_events es) ≡ some t
          → ((u : Stream D) → step e s ≡ some u → run_events es u ≡ some t → IsSound t)
          → IsSound t
      ran none q k go = cc k
      ran (some u) q k go = go u q k

  -- In every run of a new runtime, every result was sent while the session of its audio was the one
  -- started last, so that none of an earlier session follows the start of a later one; and the
  -- session started last has been given chunks of its own generation only.
  pub results-AreCurrent :
      (limit : ℕ) (es : List (Event D)) (t : Stream D)
      → run_events es (new_stream limit) ≡ some t
      → AreCurrent t.sent × IsOf (current t.sent) t.audio
  results-AreCurrent limit es t e =
      let h = run_events-IsSound es (new_stream limit) t (new_stream-IsSound limit) e in
      (h.results, h.audio)

  -- In every run of a new runtime, when `stop_session` comes to `finish` the session has been given
  -- every chunk that the queue has taken since its start, each once and in their order, and
  -- nothing waits.
  pub finish_sees_all :
      (limit : ℕ) (es : List (Event D)) (t : Stream D)
      → run_events es (new_stream limit) ≡ some t
      → t.receiver ≡ finishing
      → (t.audio ≡ t.accepted) × (t.queue ≡ [])
  finish_sees_all limit es t e at =
      let h = run_events-IsSound es (new_stream limit) t (new_stream-IsSound limit) e in
      let (empty, here, all, still) = subst (λ r. Phase r t) at h.phase in (all, empty)
