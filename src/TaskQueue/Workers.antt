-- ===== src/TaskQueue/Workers.antt =====
-- src/task_queue/workers.py: the queue, its workers and the steps between two `await`s.
pub mod Counts
pub mod Steps
pub mod Ended
pub mod Consistency
pub mod Arrangement
pub mod Order
use funasr_api.Prelude.{
  ℕ, zero, suc, ◌+◌, String, Bool, true, false, ◌&&◌, not, Option, none, some, List, [], ◌∷◌, ◌++◌,
  if◌then◌else◌, length, replicate, get_elem?, set, max,
}
use funasr_api.Prelude.Int.{negsuc}
use funasr_api.Prelude.Equality.{◌==◌, string_eq}
use funasr_api.TaskQueue.Registry.{
  TaskKey, Registry, empty_registry, try_enqueue, begin_queued, finish, clear,
}
use funasr_api.TaskQueue.Policy.{queue_priority_for}
use funasr_api.TaskQueue.PriorityQueue.{Entry, put}

-- Where a worker's coroutine stands: at `queue.get()`, at `process_task` with its key, or ended.
pub data Worker : Type 0 where
  waiting : Worker
  busy : TaskKey → Worker
  ended : Worker

-- `QueueWorkerRuntime`
pub record Runtime : Type 0 where
  pub queue : List Entry
  pub registry : Registry
  pub workers : List Worker
  pub running : Bool
  pub counter : ℕ

abbrev pub new_runtime : Runtime
new_runtime = record {
  queue = [];
  registry = empty_registry;
  workers = [];
  running = false;
  counter = 0;
}

abbrev pub stop_kind : String
stop_kind = "__stop__"

-- `start`
unfoldable pub start : ℕ → Runtime → Runtime
start worker_count r =
    if r.running
    then r
    else record r { running = true; workers = r.workers ++ replicate (max 1 worker_count) waiting }

-- `enqueue`
unfoldable pub enqueue : String → String → Bool → Runtime → Bool × Runtime
enqueue kind task_id vip r =
    let (fresh, registry) = try_enqueue (kind, task_id) r.registry in
    let entry : Entry = record {
      priority = queue_priority_for vip;
      order = r.counter;
      kind = kind;
      task_id = task_id;
    } in
    if fresh
    then (
      true,
      record r { registry = registry; queue = put entry r.queue; counter = r.counter + 1 },
    )
    else (false, r)

abbrev pub stop_entry : ℕ → Entry
stop_entry order = record { priority = negsuc 0; order = order; kind = stop_kind; task_id = "" }

-- One sentinel for each worker.
unfoldable pub put_stops : ℕ → Runtime → Runtime
put_stops zero r = r
put_stops (suc n) r =
    put_stops n (record r { queue = put (stop_entry r.counter) r.queue; counter = r.counter + 1 })

abbrev is_empty {ℓ} : {A : Type ℓ} → List A → Bool
is_empty [] = true
is_empty (x ∷ xs) = false

-- `stop` up to its `await`; `none` is its early return.
unfoldable pub begin_stop : Runtime → Option Runtime
unfolding put_stops
begin_stop r =
    if not r.running && is_empty r.workers
    then none
    else some (put_stops (length r.workers) (record r { running = false }))

-- `stop` after its `await`.
unfoldable pub end_stop : Runtime → Runtime
end_stop r = record r { workers = []; queue = []; registry = clear r.registry }

-- `_worker_loop` from `queue.get()` to `process_task`, with the queue that `get` waits on. An
-- empty queue leaves the worker where it is.
receive : ℕ → List Entry → Runtime → Option Runtime
receive i [] r = none
receive i (e ∷ q) r =
    if e.kind == stop_kind
    then some (record r { queue = q; workers = set r.workers i ended })
    else some (record r {
      queue = q;
      registry = begin_queued (e.kind, e.task_id) r.registry;
      workers = set r.workers i (busy (e.kind, e.task_id));
    })

abbrev is_waiting : Option Worker → Bool
is_waiting (some waiting) = true
is_waiting _ = false

unfoldable pub worker_get : ℕ → Runtime → Option Runtime
unfolding receive
worker_get i r = if is_waiting (get_elem? r.workers i) then receive i r.queue r else none

-- The `finally` block of `_worker_loop`, then the worker stands at `after`.
settle : Option Worker → Worker → ℕ → Runtime → Option Runtime
settle (some (busy key)) after i r =
    some (record r { registry = finish key r.registry; workers = set r.workers i after })
settle _ after i r = none

-- `process_task` has returned or raised: the worker goes on in either case.
unfoldable pub worker_finish : ℕ → Runtime → Option Runtime
unfolding settle
worker_finish i r = settle (get_elem? r.workers i) waiting i r

-- `CancelledError` at either `await`: the `finally` block runs only around `process_task`.
unfoldable pub worker_cancel : ℕ → Runtime → Option Runtime
unfolding settle
worker_cancel i r =
    if is_waiting (get_elem? r.workers i)
    then some (record r { workers = set r.workers i ended })
    else settle (get_elem? r.workers i) ended i r
