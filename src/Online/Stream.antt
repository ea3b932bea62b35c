-- ===== src/Online/Stream.antt =====
-- `OnlineStreamRuntime` of src/application/online_stream_runtime.py: the queue between the receiver
-- of a client's messages and the recognition worker, and the generations of its sessions. Each of the
-- two coroutines is cut at its `await`s.
pub mod Steps
use funasr_api.Prelude.{
  ℕ, zero, suc, ◌+◌, Bool, true, false, ◌&&◌, not, Option, none, some, List, [], ◌∷◌, ◌++◌, ltb,
  max, if◌then◌else◌, length,
}
use funasr_api.Prelude.Equality.{◌==◌, nat_eq}

-- What has been sent to the client: the events of src/application/online_events.py, a result with
-- the generation of its audio.
pub data Sent : Type 0 where
  started : ℕ → Sent
  result : ℕ → Sent
  stopped inactive backpressure failure : Sent

-- Where the receiver waits: for the next message, for the session lock in `start_session` and
-- then for the `started` event, for `join` in `stop_session` and then for `finish` under the
-- lock; or it has closed the runtime.
pub data Receiver : Type 0 where
  idle : Receiver
  starting : ℕ → Receiver
  announcing : ℕ → Receiver
  joining : Receiver
  finishing : Receiver
  closed : Receiver

-- Where the worker waits: for the queue, for the lock with a chunk, in `add_audio` or
-- `decode_partial` under the lock, for the lock with a result, or for the sending under the lock.
pub data Worker (D : Type 0) : Type 0 where
  waiting : Worker D
  holding : ℕ → D → Worker D
  adding : ℕ → Worker D
  decoding : ℕ → Worker D
  sending : ℕ → Worker D
  delivering : ℕ → Worker D
  cancelled : Worker D

-- The runtime. Of the session it has `is_active`, the chunks that `add_audio` was called with since
-- `reset`, with their generations, and two counters. `sent` has the newest first. `accepted`, which
-- the code has not, keeps for the statements the chunks that the queue has taken since `reset`.
pub record Stream (D : Type 0) : Type 0 where
  pub generation : ℕ
  pub queue : List (ℕ × D)
  pub queue_max_chunks : ℕ
  pub receiver : Receiver
  pub worker : Worker D
  pub is_active : Bool
  pub audio : List (ℕ × D)
  pub accepted : List (ℕ × D)
  pub dropped : ℕ
  pub queue_peak : ℕ
  pub sent : List Sent

abbrev pub receiver_holds_lock : Receiver → Bool
receiver_holds_lock finishing = true
receiver_holds_lock r = false

abbrev pub is_idle : Receiver → Bool
is_idle idle = true
is_idle r = false

abbrev pub is_joining : Receiver → Bool
is_joining joining = true
is_joining r = false

module _ {D : Type 0} where
  -- `__init__` and `start_worker`; `limit` is the configured number of chunks.
  unfoldable pub new_stream : ℕ → Stream D
  new_stream limit = record {
    generation = 0;
    queue = [];
    queue_max_chunks = max 1 limit;
    receiver = idle;
    worker = waiting;
    is_active = false;
    audio = [];
    accepted = [];
    dropped = 0;
    queue_peak = 0;
    sent = [];
  }

  abbrev pub worker_holds_lock : Worker D → Bool
  worker_holds_lock (adding g) = true
  worker_holds_lock (decoding g) = true
  worker_holds_lock (delivering g) = true
  worker_holds_lock w = false

  -- A chunk that is taken and not yet marked by `task_done`.
  abbrev pub is_busy : Worker D → Bool
  is_busy waiting = false
  is_busy cancelled = false
  is_busy w = true

  abbrev pub lock_is_free : Stream D → Bool
  lock_is_free s = not (receiver_holds_lock s.receiver) && not (worker_holds_lock s.worker)

  abbrev pub send_event : Sent → Stream D → Stream D
  send_event e s = record s { sent = e ∷ s.sent }

  -- `_handle_backpressure`; `notify` tells whether the last notice is old enough.
  unfoldable pub handle_backpressure : Bool → Stream D → Stream D
  handle_backpressure notify s =
      let counted = record s { dropped = s.dropped + 1 } in
      if notify then send_event backpressure counted else counted

  -- `enqueue_audio`
  unfoldable pub enqueue_audio : Bool → D → Stream D → Stream D
  unfolding handle_backpressure
  enqueue_audio notify d s =
      if not s.is_active
      then send_event inactive s
      else if ltb (length s.queue) s.queue_max_chunks
      then record s {
        queue = s.queue ++ (s.generation, d) ∷ [];
        accepted = s.accepted ++ (s.generation, d) ∷ [];
        queue_peak = max s.queue_peak (length s.queue + 1);
      }
      else handle_backpressure notify s

  -- `start_session` up to the lock, with `_drain_audio_queue`.
  unfoldable pub begin_start : Stream D → Stream D
  begin_start s = record s {
    generation = s.generation + 1;
    queue = [];
    receiver = starting (s.generation + 1);
  }

  -- `start_session` under the lock.
  unfoldable pub reset_session : ℕ → Stream D → Stream D
  reset_session generation s =
      if not (generation == s.generation) then record s { receiver = idle } else record s {
        is_active = true;
        audio = [];
        accepted = [];
        receiver = announcing generation;
      }

  -- `stop_session` under the lock: `finish` is awaited only in an active session.
  unfoldable pub begin_finish : Stream D → Stream D
  begin_finish s =
      if s.is_active
      then record s { receiver = finishing }
      else send_event stopped (record s { receiver = idle })

  -- The end of `stop_session`; `has_result` tells whether the last event has any text.
  unfoldable pub end_finish : Bool → Stream D → Stream D
  end_finish has_result s =
      let t = record s { is_active = false; receiver = idle } in
      send_event stopped (if has_result then send_event (result s.generation) t else t)

  -- `close`
  unfoldable pub close : Stream D → Stream D
  close s = record s { generation = s.generation + 1; worker = cancelled; receiver = closed }

  abbrev pub take_of : List (ℕ × D) → Stream D → Option (Stream D)
  take_of [] s = none
  take_of ((g, d) ∷ cs) s = some (record s { queue = cs; worker = holding g d })

  -- `_recognition_worker` receives from the queue.
  unfoldable pub take_chunk : Stream D → Option (Stream D)
  take_chunk s = take_of s.queue s

  -- `_process_audio` once it has the lock.
  unfoldable pub begin_add : ℕ → D → Stream D → Stream D
  begin_add generation d s =
      if not (generation == s.generation)
      then record s { worker = waiting }
      else if not s.is_active
      then record s { worker = waiting }
      else record s { worker = adding generation; audio = s.audio ++ (generation, d) ∷ [] }

  -- How a call of the session ends: with nothing to send, with a result, or with an exception;
  -- `add_audio` may also lead to a partial decoding.
  unfoldable pub end_add : Option Bool → ℕ → Stream D → Stream D
  end_add none generation s = send_event failure (record s { worker = waiting })
  end_add (some has_result) generation s =
      if not (generation == s.generation)
      then record s { worker = waiting }
      else record s { worker = if has_result then sending generation else waiting }

  unfoldable pub begin_decode : ℕ → Stream D → Stream D
  begin_decode generation s =
      if not (generation == s.generation)
      then record s { worker = waiting }
      else record s { worker = decoding generation }

  unfoldable pub end_decode : Option Bool → ℕ → Stream D → Stream D
  end_decode none generation s = send_event failure (record s { worker = waiting })
  end_decode (some has_result) generation s = record s {
    worker = if has_result then sending generation else waiting;
  }

  -- `_send_if_current` once it has the lock.
  unfoldable pub begin_send : ℕ → Stream D → Stream D
  begin_send generation s =
      if not (generation == s.generation)
      then record s { worker = waiting }
      else record s { worker = delivering generation }
