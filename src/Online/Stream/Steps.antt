-- ===== src/Online/Stream/Steps.antt =====
-- What may happen next to a stream runtime (src/application/online_stream_runtime.py), and the runs
-- from its start. A run is any sequence of events each of which may happen when its turn comes.

pub mod Invariant
pub mod Work
pub mod Receive
pub mod Generations
use funasr_api.Prelude.{
  ℕ, Bool, true, false, ◌&&◌, not, Option, none, some, List, [], ◌∷◌, if◌then◌else◌,
}
use funasr_api.Online.Stream.{
  started, result, stopped, failure, Receiver, idle, starting, announcing, joining, finishing,
  closed, Worker, waiting, holding, adding, decoding, sending, delivering, cancelled, Stream,
  is_idle, is_busy, lock_is_free, send_event, enqueue_audio, begin_start, reset_session,
  begin_finish, end_finish, close, take_chunk, begin_add, end_add, begin_decode, end_decode,
  begin_send,
}

-- The events of the receiver and of the worker, each with what its surroundings decide: how a call
-- of the session ends, or whether the sending of a result succeeds.
pub data Event (D : Type 0) : Type 0 where
  receives_audio : Bool → D → Event D
  receives_start receives_stop : Event D
  gets_start_lock announces : Event D
  gets_stop_lock : Event D
  finishes : Bool → Event D
  closes : Event D
  takes gets_add_lock decodes gets_send_lock : Event D
  added decoded : Option Bool → Event D
  delivers : Bool → Event D

abbrev pub only_if {ℓ} : {A : Type ℓ} → Bool → A → Option A
only_if b a = if b then some a else none

abbrev pub is_empty {ℓ} : {A : Type ℓ} → List A → Bool
is_empty [] = true
is_empty (x ∷ xs) = false

abbrev pub and_then {ℓ} : {A : Type ℓ} → Option A → (A → Option A) → Option A
and_then none f = none
and_then (some a) f = f a

module _ {D : Type 0} where
  -- An event of the receiver, by where it waits.
  unfoldable pub receiver_step : Receiver → Event D → Stream D → Option (Stream D)
  receiver_step idle (receives_audio notify d) s = some (enqueue_audio notify d s)
  receiver_step idle receives_start s = some (begin_start s)
  receiver_step idle receives_stop s = some (record s { receiver = joining })
  receiver_step (starting g) gets_start_lock s = only_if (lock_is_free s) (reset_session g s)
  receiver_step (announcing g) announces s =
      some (send_event (started g) (record s { receiver = idle }))
  receiver_step joining gets_stop_lock s =
      only_if (is_empty s.queue && not (is_busy s.worker) && lock_is_free s) (begin_finish s)
  receiver_step finishing (finishes has_result) s = some (end_finish has_result s)
  receiver_step r e s = none

  -- An event of the worker, by where it waits.
  unfoldable pub worker_step : Worker D → Event D → Stream D → Option (Stream D)
  worker_step waiting takes s = take_chunk s
  worker_step (holding g d) gets_add_lock s = only_if (lock_is_free s) (begin_add g d s)
  worker_step (adding g) (added end) s = some (end_add end g s)
  worker_step (adding g) decodes s = some (begin_decode g s)
  worker_step (decoding g) (decoded end) s = some (end_decode end g s)
  worker_step (sending g) gets_send_lock s = only_if (lock_is_free s) (begin_send g s)
  worker_step (delivering g) (delivers true) s =
      some (send_event (result g) (record s { worker = waiting }))
  worker_step (delivering g) (delivers false) s =
      some (send_event failure (record s { worker = waiting }))
  worker_step w e s = none

  -- One event; `none` where it cannot happen.
  unfoldable pub step : Event D → Stream D → Option (Stream D)
  step closes s = some (close s)
  step takes s = worker_step s.worker takes s
  step gets_add_lock s = worker_step s.worker gets_add_lock s
  step decodes s = worker_step s.worker decodes s
  step gets_send_lock s = worker_step s.worker gets_send_lock s
  step (added end) s = worker_step s.worker (added end) s
  step (decoded end) s = worker_step s.worker (decoded end) s
  step (delivers done) s = worker_step s.worker (delivers done) s
  step e s = receiver_step s.receiver e s

  -- A run, the events in their order.
  unfoldable pub run_events : List (Event D) → Stream D → Option (Stream D)
  run_events [] s = some s
  run_events (e ∷ es) s = and_then (step e s) (run_events es)
