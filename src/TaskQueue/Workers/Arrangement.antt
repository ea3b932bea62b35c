-- ===== src/TaskQueue/Workers/Arrangement.antt =====
-- How the queue stands in every reachable state, and what a worker takes from it
-- (src/task_queue/workers.py).
use funasr_api.Prelude.{
  ℕ, zero, suc, ◌+◌, ◌<◌, ◌≡◌, ◌≢◌, refl, String, Bool, true, false, ◌⊎◌, inl, inr, Option, some,
  List, [], ◌∷◌, arith, if◌then◌else◌, length, get_elem?, set, All, All-map, Bool-cases,
}
use funasr_api.Prelude.Int.{pos, ltb_ℤ}
use funasr_api.Prelude.Equality.{◌==◌, string_eq}
use funasr_api.TaskQueue.Registry.{Registry, try_enqueue}
use funasr_api.TaskQueue.Policy.{queue_priority_for}
use funasr_api.TaskQueue.PriorityQueue.{Entry, put}
use funasr_api.TaskQueue.PriorityQueue.Order.{IsSorted, IsBelow, All-put, put-IsSorted}
use funasr_api.TaskQueue.Workers.{
  Worker, busy, ended, Runtime, stop_kind, stop_entry, start, enqueue, put_stops, begin_stop,
  end_stop, receive, worker_get, worker_finish, worker_cancel, settle, is_waiting,
}
use funasr_api.TaskQueue.Workers.Steps.{
  System, batch_begin, batch_finish, Step, Reach, here, next, starts, enqueues, gets, finishes,
  cancels, batch_begins, batch_finishes, begins_stop, ends_stop, stray_gets, stray_gets_left,
  stray_finishes, stray_cancels, strays_on,
}

-- Exactly the sentinels have a negative priority.
abbrev pub IsShaped : Entry → Type 0
IsShaped e = ltb_ℤ e.priority (pos 0) ≡ (e.kind == stop_kind)

-- A sentinel, a VIP's task, and any other's, by the priorities that they are put with.
abbrev pub IsSentinel : Entry → Type 0
IsSentinel e = (e.kind == stop_kind ≡ true) × (e.priority ≡ (stop_entry e.order).priority)

abbrev pub IsVip : Entry → Type 0
IsVip e = (e.kind == stop_kind ≡ false) × (e.priority ≡ queue_priority_for true)

abbrev pub IsOther : Entry → Type 0
IsOther e = (e.kind == stop_kind ≡ false) × (e.priority ≡ queue_priority_for false)

abbrev pub IsRanked : Entry → Type 0
IsRanked e = IsSentinel e ⊎ IsVip e ⊎ IsOther e

pub record IsOrdered (r : Runtime) : Type 0 where
  pub sorted : IsSorted r.queue
  pub below : IsBelow r.counter r.queue
  pub shaped : All IsShaped r.queue
  pub ranked : All IsRanked r.queue

add-IsOrdered :
    (r : Runtime) (e : Entry) (registry : Registry)
    → IsOrdered r
    → e.order ≡ r.counter
    → IsShaped e
    → IsRanked e
    → IsOrdered (record r { queue = put e r.queue; registry = registry; counter = r.counter + 1 })
add-IsOrdered r e registry h o p k = record {
  sorted = put-IsSorted e r.queue (rw o h.below) h.sorted;
  below =
      All-put (λ x. x.order < r.counter + 1) e r.queue (omega arith)
        (All-map _ _ r.queue (λ x b. omega arith) h.below);
  shaped = All-put IsShaped e r.queue p h.shaped;
  ranked = All-put IsRanked e r.queue k h.ranked;
}

enqueue-IsOrdered :
    (r : Runtime) (kind id : String) (vip : Bool)
    → kind ≢ stop_kind
    → IsOrdered r
    → IsOrdered (enqueue kind id vip r).1
unfolding enqueue
enqueue-IsOrdered r kind id vip user h = elim (Bool-cases (try_enqueue (kind, id) r.registry).0) [
  | inl fresh ↦ rw fresh (
      add-IsOrdered r _ _ h refl
        (unfold queue_priority_for in ground (arith, string_eq.beq_iff kind stop_kind))
        (enqueued vip))
  | inr tracked ↦ rw tracked h
]
  where
    enqueued :
        (v : Bool)
        → IsRanked (record {
          priority = queue_priority_for v;
          order = r.counter;
          kind = kind;
          task_id = id;
        })
    enqueued true = inr (inl (ground (arith, string_eq.beq_iff kind stop_kind), refl))
    enqueued false = inr (inr (ground (arith, string_eq.beq_iff kind stop_kind), refl))

put_stops-IsOrdered : (n : ℕ) (r : Runtime) → IsOrdered r → IsOrdered (put_stops n r)
unfolding put_stops
put_stops-IsOrdered zero r h = h
put_stops-IsOrdered (suc n) r h =
    put_stops-IsOrdered n _
      (add-IsOrdered r (stop_entry r.counter) r.registry h refl refl (inl (refl, refl)))

begin_stop-IsOrdered :
    (r : Runtime) {r' : Runtime} → begin_stop r ≡ some r' → IsOrdered r → IsOrdered r'
unfolding begin_stop
begin_stop-IsOrdered r g h = ground (
  arith,
  put_stops-IsOrdered (length r.workers) (record r { running = false })
      (record { sorted = h.sorted; below = h.below; shaped = h.shaped; ranked = h.ranked }),
)

-- What a call of `get` has received: the head of the queue, and what the worker does with it.
pub record Receives (i : ℕ) (r r' : Runtime) (e : Entry) : Type 0 where
  pub head : r.queue ≡ e ∷ r'.queue
  pub counter : r'.counter ≡ r.counter
  pub worker :
      r'.workers ≡ set r.workers i (if e.kind == stop_kind then ended else busy (e.kind, e.task_id))
  pub stops : e.kind == stop_kind ≡ true → r'.registry ≡ r.registry

receive-Receives :
    (i : ℕ) (r : Runtime) (q : List Entry) {r' : Runtime}
    → r.queue ≡ q
    → receive i q r ≡ some r'
    → (e : Entry) × Receives i r r' e
unfolding receive
receive-Receives i r [] o g = cc
receive-Receives i r (e ∷ q) o g = elim (Bool-cases (e.kind == stop_kind)) [
  | inl stop ↦ (
    e,
    record {
      head = ground arith;
      counter = ground arith;
      worker = ground arith;
      stops = ground arith;
    },
  )
  | inr task ↦ (
    e,
    record {
      head = ground arith;
      counter = ground arith;
      worker = ground arith;
      stops = ground arith;
    },
  )
]

pub worker_get-Receives :
    (i : ℕ) (r : Runtime) {r' : Runtime}
    → worker_get i r ≡ some r'
    → (e : Entry) × Receives i r r' e
unfolding worker_get
worker_get-Receives i r g = elim (Bool-cases (is_waiting (get_elem? r.workers i))) [
  | inl w ↦ receive-Receives i r r.queue refl (rw w at g)
  | inr busy_or_ended ↦ cc (rw busy_or_ended at g)
]

receive-IsOrdered :
    (i : ℕ) (r r' : Runtime) (e : Entry) → Receives i r r' e → IsOrdered r → IsOrdered r'
receive-IsOrdered i r r' e g h =
    let sorted : IsSorted (e ∷ r'.queue) = rw g.head at h.sorted in
    let below : IsBelow r.counter (e ∷ r'.queue) = rw g.head at h.below in
    let shaped : All IsShaped (e ∷ r'.queue) = rw g.head at h.shaped in
    let ranked : All IsRanked (e ∷ r'.queue) = rw g.head at h.ranked in
    record { sorted = sorted.1; below = rw g.counter below.1; shaped = shaped.1; ranked = ranked.1 }

settle-IsOrdered :
    (o : Option Worker) (after : Worker) (i : ℕ) (r : Runtime) {r' : Runtime}
    → settle o after i r ≡ some r'
    → IsOrdered r
    → IsOrdered r'
unfolding settle
settle-IsOrdered o after i r g h = ground arith

finish_counter :
    (i : ℕ) (r : Runtime) {r' : Runtime} → worker_finish i r ≡ some r' → r'.counter ≡ r.counter
unfolding worker_finish settle
finish_counter i r g = ground arith

cancel_counter :
    (i : ℕ) (r : Runtime) {r' : Runtime} → worker_cancel i r ≡ some r' → r'.counter ≡ r.counter
unfolding worker_cancel settle
cancel_counter i r g = ground arith

-- Only the queue and the counter count.
same-IsOrdered :
    (r r' : Runtime) → r'.queue ≡ r.queue → r'.counter ≡ r.counter → IsOrdered r → IsOrdered r'
same-IsOrdered r r' e f h = ground arith

Step-IsOrdered : {s t : System} → Step s t → IsOrdered s.runtime → IsOrdered t.runtime
unfolding start worker_finish worker_cancel batch_begin batch_finish end_stop
Step-IsOrdered (starts n) h = ground arith
Step-IsOrdered {s} (enqueues kind id vip user) h = enqueue-IsOrdered s.runtime kind id vip user h
Step-IsOrdered {s} (gets i g) h =
    let (e, received) = worker_get-Receives i s.runtime g in receive-IsOrdered i _ _ e received h
Step-IsOrdered {s} (finishes i g) h = settle-IsOrdered _ _ i s.runtime g h
Step-IsOrdered {s} (cancels i g) h =
    ground (arith, settle-IsOrdered (get_elem? s.runtime.workers i) ended i s.runtime)
Step-IsOrdered (batch_begins k g) h = ground arith
Step-IsOrdered (batch_finishes k g) h = ground arith
Step-IsOrdered {s} (begins_stop g) h = begin_stop-IsOrdered s.runtime g h
Step-IsOrdered ends_stop h = record { sorted = tt; below = tt; shaped = tt; ranked = tt }
Step-IsOrdered {s} (stray_gets i {r} g) h =
    let (e, received) = worker_get-Receives i (strays_on s.runtime.queue s) g in
    same-IsOrdered r _ refl refl (
      receive-IsOrdered i (strays_on s.runtime.queue s) r e received
        (same-IsOrdered s.runtime _ refl refl h))
Step-IsOrdered {s} (stray_gets_left i left {r} g) h =
    let (e, received) = worker_get-Receives i (strays_on left s) g in
    same-IsOrdered s.runtime _ refl received.counter h
Step-IsOrdered {s} (stray_finishes i {r} g) h =
    same-IsOrdered s.runtime _ refl (finish_counter i (strays_on s.runtime.queue s) g) h
Step-IsOrdered {s} (stray_cancels i {r} g) h =
    same-IsOrdered s.runtime _ refl (cancel_counter i (strays_on s.runtime.queue s) g) h

pub Reach-IsOrdered : {s : System} → Reach s → IsOrdered s.runtime
Reach-IsOrdered here = record { sorted = tt; below = tt; shaped = tt; ranked = tt }
Reach-IsOrdered (next r st) = Step-IsOrdered st (Reach-IsOrdered r)
