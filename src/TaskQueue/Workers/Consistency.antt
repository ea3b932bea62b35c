-- ===== src/TaskQueue/Workers/Consistency.antt =====
-- The registry agrees with the queue, the workers and the batches
-- (src/task_queue/execution.py, workers.py).
use funasr_api.Prelude.{
  ℕ, zero, suc, ◌+◌, ◌≤◌, ◌≡◌, ◌≢◌, refl, sym, ap, ◌∙◌, String, Bool, true, false, ◌&&◌, inl, inr,
  Option, none, some, List, [], ◌∷◌, arith, if◌then◌else◌, length, get_elem?, set, Option-cases,
  max,
}
use funasr_api.Prelude.Equality.{
  string_eq, bit, contains, contains-add, contains-discard, count, count-remove_one, count_pos,
}
use funasr_api.TaskQueue.Registry.{
  TaskKey, task_key_eq, key_eq_iff, is_tracked, try_enqueue, try_begin_external, begin_queued,
  finish, clear,
}
use funasr_api.TaskQueue.Policy.{queue_priority_for}
use funasr_api.TaskQueue.PriorityQueue.{Entry}
use funasr_api.TaskQueue.Workers.{
  Worker, waiting, busy, ended, Runtime, stop_kind, stop_entry, start, enqueue, put_stops,
  begin_stop, end_stop, receive, worker_get, worker_finish, worker_cancel, settle, is_waiting,
}
use funasr_api.TaskQueue.Workers.Counts.{
  asks_for, queued_count, works_on, busy_count, queued_count-put, busy_count-set, busy_count-start,
  stop_asks,
}
use funasr_api.TaskQueue.Workers.Ended.{
  all_ended-append, busy_count_ended, ended_gets, ended_finishes, ended_cancels,
}
use funasr_api.TaskQueue.Workers.Steps.{
  System, batch_begin, batch_finish, Step, Reach, here, next, starts, enqueues, gets, finishes,
  cancels, batch_begins, batch_finishes, begins_stop, ends_stop, stray_gets, stray_gets_left,
  stray_finishes, stray_cancels, all_ended, strays_on, IsQuietStep, IsQuiet,
}

module _ (key : TaskKey) where
  -- What the registry says of `key` is what the queue, the workers and the batch do with it.
  pub record IsConsistent (r : Runtime) (external : List TaskKey) : Type 0 where
    pub queue_tracked : queued_count key r.queue ≡ bit (contains key r.registry.queued)
    pub run_tracked :
        busy_count key r.workers + count key external ≡ bit (contains key r.registry.inflight)
    pub apart : (contains key r.registry.queued && contains key r.registry.inflight) ≡ false

  module _ (r : Runtime) (ext : List TaskKey) (h : IsConsistent r ext) where
    start-IsConsistent : (n : ℕ) → IsConsistent (start n r) ext
    unfolding start
    start-IsConsistent n = ground (arith, busy_count-start key (max 1 n) r.workers)

    enqueue-IsConsistent :
        (kind id : String) (vip : Bool)
        → kind ≢ stop_kind
        → IsConsistent (enqueue kind id vip r).1 ext
    unfolding enqueue try_enqueue asks_for
    enqueue-IsConsistent kind id vip user =
        let k : TaskKey = (kind, id) in
        let entry : Entry = record {
          priority = queue_priority_for vip;
          order = r.counter;
          kind = kind;
          task_id = id;
        } in
        ground (
          arith,
          contains-add k key r.registry.queued,
          key_eq_iff k key,
          queued_count-put key entry r.queue,
          string_eq.beq_iff kind stop_kind,
        )

    receive-IsConsistent :
        (i : ℕ) (q : List Entry) {r' : Runtime}
        → r.queue ≡ q
        → get_elem? r.workers i ≡ some waiting
        → receive i q r ≡ some r'
        → IsConsistent r' ext
    unfolding receive begin_queued queued_count asks_for
    receive-IsConsistent i [] e w g = cc
    receive-IsConsistent i (x ∷ q) e w g =
        let k : TaskKey = (x.kind, x.task_id) in
        ground (
          arith,
          ap (queued_count key) e,
          contains-add k key r.registry.inflight,
          contains-discard k key r.registry.queued,
          key_eq_iff k key,
          busy_count-set key i waiting (busy k) r.workers w,
          busy_count-set key i waiting ended r.workers w,
          string_eq.beq_iff x.kind stop_kind,
        )

    settle-IsConsistent :
        (i : ℕ) (w after : Worker) {r' : Runtime}
        → get_elem? r.workers i ≡ some w
        → ((k : TaskKey) → works_on k after ≡ false)
        → settle (some w) after i r ≡ some r'
        → IsConsistent r' ext
    unfolding settle finish
    settle-IsConsistent i (busy k) after e idle g = ground (
      arith,
      contains-discard k key r.registry.inflight,
      key_eq_iff k key,
      busy_count-set key i (busy k) after r.workers e,
      idle key,
    )
    settle-IsConsistent i waiting after e idle g = cc
    settle-IsConsistent i ended after e idle g = cc

    worker_get-IsConsistent :
        (i : ℕ) {r' : Runtime} → worker_get i r ≡ some r' → IsConsistent r' ext
    unfolding worker_get
    worker_get-IsConsistent i g = go (get_elem? r.workers i) refl g
      where
        go :
            (o : Option Worker)
            → get_elem? r.workers i ≡ o
            → {r' : Runtime} → (if is_waiting o then receive i r.queue r else none) ≡ some r'
            → IsConsistent r' ext
        go (some waiting) e g = receive-IsConsistent i r.queue refl e g
        go (some (busy k)) e g = cc
        go (some ended) e g = cc
        go none e g = cc

    worker_finish-IsConsistent :
        (i : ℕ) {r' : Runtime} → worker_finish i r ≡ some r' → IsConsistent r' ext
    unfolding worker_finish
    worker_finish-IsConsistent i g = elim (Option-cases (get_elem? r.workers i)) [
      | inl e ↦ cc (ap (λ o. settle o waiting i r) e)
      | inr (w, e) ↦
          settle-IsConsistent i w waiting e (λ k. refl) (ap (λ o. settle o waiting i r) (sym e) ∙ g)
    ]

    worker_cancel-IsConsistent :
        (i : ℕ) {r' : Runtime} → worker_cancel i r ≡ some r' → IsConsistent r' ext
    unfolding worker_cancel
    worker_cancel-IsConsistent i g = go (get_elem? r.workers i) refl g
      where
        go :
            (o : Option Worker)
            → get_elem? r.workers i ≡ o
            → {r' : Runtime}
            → (if is_waiting o
                then some (record r { workers = set r.workers i ended })
                else settle o ended i r)
              ≡ some r'
            → IsConsistent r' ext
        go (some waiting) e g = ground (arith, busy_count-set key i waiting ended r.workers e)
        go (some (busy k)) e g = settle-IsConsistent i (busy k) ended e (λ k'. refl) g
        go (some ended) e g = settle-IsConsistent i ended ended e (λ k'. refl) g
        go none e g = cc

    batch_begin-IsConsistent :
        (k : TaskKey) (strays : List Worker) {t : System}
        → batch_begin k (record { runtime = r; external = ext; strays = strays }) ≡ some t
        → IsConsistent t.runtime t.external
    unfolding batch_begin try_begin_external count
    batch_begin-IsConsistent k strays g =
        ground (arith, contains-add k key r.registry.inflight, key_eq_iff k key)

    batch_finish-IsConsistent :
        (k : TaskKey) (strays : List Worker) {t : System}
        → batch_finish k (record { runtime = r; external = ext; strays = strays }) ≡ some t
        → IsConsistent t.runtime t.external
    unfolding batch_finish finish
    batch_finish-IsConsistent k strays g = ground (
      arith,
      contains-discard k key r.registry.inflight,
      key_eq_iff k key,
      count-remove_one k key ext,
      count_pos k ext,
    )

  put_stops-IsConsistent :
      (n : ℕ) (r : Runtime) (ext : List TaskKey)
      → IsConsistent r ext
      → IsConsistent (put_stops n r) ext
  unfolding put_stops
  put_stops-IsConsistent zero r ext h = h
  put_stops-IsConsistent (suc n) r ext h =
      put_stops-IsConsistent n _ ext (
        ground
          (arith, queued_count-put key (stop_entry r.counter) r.queue, stop_asks key r.counter))

  begin_stop-IsConsistent :
      (r : Runtime) (ext : List TaskKey) {r' : Runtime}
      → IsConsistent r ext
      → begin_stop r ≡ some r'
      → IsConsistent r' ext
  unfolding begin_stop
  begin_stop-IsConsistent r ext h g = ground (
    arith,
    put_stops-IsConsistent (length r.workers) (record r { running = false }) ext
        (record { queue_tracked = h.queue_tracked; run_tracked = h.run_tracked; apart = h.apart }),
  )

  end_stop-IsConsistent :
      (r : Runtime) (ext : List TaskKey) → ext ≡ [] → IsConsistent (end_stop r) ext
  unfolding end_stop clear queued_count busy_count contains count
  end_stop-IsConsistent r ext e =
      rw e (record { queue_tracked = refl; run_tracked = refl; apart = refl })

  -- No stray worker runs, and the registry agrees with all else.
  pub record IsSound (s : System) : Type 0 where
    pub consistent : IsConsistent s.runtime s.external
    pub rest : all_ended s.strays ≡ true

  module _ (s : System) (h : IsSound s) where
    sound : {r : Runtime} → IsConsistent r s.external → IsSound (record s { runtime = r })
    sound k = record { consistent = k; rest = h.rest }

  -- A quiet step keeps both.
  Step-IsSound : {s t : System} (st : Step s t) → IsQuietStep st → IsSound s → IsSound t
  unfolding batch_begin batch_finish
  Step-IsSound {s} (starts n) quiet h =
      sound s h (start-IsConsistent s.runtime s.external h.consistent n)
  Step-IsSound {s} (enqueues kind id vip user) quiet h =
      sound s h (enqueue-IsConsistent s.runtime s.external h.consistent kind id vip user)
  Step-IsSound {s} (gets i g) quiet h =
      sound s h (worker_get-IsConsistent s.runtime s.external h.consistent i g)
  Step-IsSound {s} (finishes i g) quiet h =
      sound s h (worker_finish-IsConsistent s.runtime s.external h.consistent i g)
  Step-IsSound {s} (cancels i g) quiet h =
      sound s h (worker_cancel-IsConsistent s.runtime s.external h.consistent i g)
  Step-IsSound {s} (batch_begins k g) quiet h = record {
    consistent = batch_begin-IsConsistent s.runtime s.external h.consistent k s.strays g;
    rest = ground (arith, h.rest);
  }
  Step-IsSound {s} (batch_finishes k g) quiet h = record {
    consistent = batch_finish-IsConsistent s.runtime s.external h.consistent k s.strays g;
    rest = ground (arith, h.rest);
  }
  Step-IsSound {s} (begins_stop g) quiet h =
      sound s h (begin_stop-IsConsistent s.runtime s.external h.consistent g)
  Step-IsSound {s} ends_stop (done, e) h = record {
    consistent = end_stop-IsConsistent s.runtime s.external e;
    rest = all_ended-append s.strays s.runtime.workers h.rest done;
  }
  Step-IsSound {s} (stray_gets i g) quiet h =
      absurd (ended_gets i (strays_on s.runtime.queue s) h.rest g)
  Step-IsSound {s} (stray_gets_left i left g) quiet h =
      absurd (ended_gets i (strays_on left s) h.rest g)
  Step-IsSound {s} (stray_finishes i g) quiet h =
      absurd (ended_finishes i (strays_on s.runtime.queue s) h.rest g)
  Step-IsSound {s} (stray_cancels i g) quiet h =
      absurd (ended_cancels i (strays_on s.runtime.queue s) h.rest g)

  Reach-IsSound : {s : System} (r : Reach s) → IsQuiet r → IsSound s
  unfolding queued_count busy_count contains count
  Reach-IsSound here quiet = record {
    consistent = record { queue_tracked = refl; run_tracked = refl; apart = refl };
    rest = refl;
  }
  Reach-IsSound (next r st) quiet = Step-IsSound st quiet.1 (Reach-IsSound r quiet.0)

-- In every state that is reached by enqueuing, workers, cancellation, batches, starts and stops in
-- any order, when each `stop` of the run ends with no worker of the list and no batch running, a
-- task key stands at most once in all of the queue, the workers and the batches together, and the
-- registry tracks exactly the keys that stand there.
pub runs_at_most_once :
    {s : System} (key : TaskKey) (r : Reach s)
    → IsQuiet r
    → let uses =
        queued_count key s.runtime.queue
        + busy_count key s.runtime.workers
        + busy_count key s.strays
        + count key s.external in
      (uses ≤ 1) × (uses ≡ bit (is_tracked key s.runtime.registry))
unfolding is_tracked
runs_at_most_once {s} key r quiet =
    let sound = Reach-IsSound key r quiet in
    ground (arith, sound.consistent, busy_count_ended key s.strays sound.rest)
