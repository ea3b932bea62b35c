-- ===== src/TaskQueue/Workers/Steps.antt =====
-- The interleavings of src/task_queue: what can happen between two `await`s of the event loop.
use funasr_api.Prelude.{
  ℕ, String, ◌≡◌, ◌≢◌, Bool, ◌++◌, true, false, Option, none, some, List, [], ◌∷◌, if◌then◌else◌,
}
use funasr_api.Prelude.Equality.{contains, remove_one}
use funasr_api.TaskQueue.Registry.{TaskKey, task_key_eq, try_begin_external, finish}
use funasr_api.TaskQueue.PriorityQueue.{Entry}
use funasr_api.TaskQueue.Workers.{
  Worker, ended, Runtime, stop_kind, new_runtime, start, enqueue, begin_stop, end_stop, worker_get,
  worker_finish, worker_cancel,
}

-- The runtime, the keys that calls of `ImmediateBatchProcessor._process_one` process, and the
-- workers that a `stop` has left out of the list of the runtime, where they may still run.
pub record System : Type 0 where
  pub runtime : Runtime
  pub external : List TaskKey
  pub strays : List Worker

abbrev pub new_system : System
new_system = record { runtime = new_runtime; external = []; strays = [] }

-- The runtime as a stray worker sees it, on a queue.
abbrev pub strays_on : List Entry → System → Runtime
strays_on q s = record (s.runtime) { queue = q; workers = s.strays }

-- What a step of a stray worker leaves, with the queue.
abbrev pub with_strays : List Entry → Runtime → System → System
with_strays q r s = record s {
  runtime = record r { queue = q; workers = s.runtime.workers };
  strays = r.workers;
}

-- The registry step of `_process_one` (batch.py), and its `finally` block.
unfoldable pub batch_begin : TaskKey → System → Option System
batch_begin key s =
    let (fresh, registry) = try_begin_external key s.runtime.registry in
    if fresh
    then some (record s {
      runtime = record (s.runtime) { registry = registry };
      external = key ∷ s.external;
    })
    else none

unfoldable pub batch_finish : TaskKey → System → Option System
batch_finish key s =
    if contains key s.external
    then some (record s {
      runtime = record (s.runtime) { registry = finish key s.runtime.registry };
      external = remove_one key s.external;
    })
    else none

abbrev pub all_ended : List Worker → Bool
all_ended [] = true
all_ended (ended ∷ ws) = all_ended ws
all_ended (_ ∷ ws) = false

-- A `stop` waits for the workers that are in the list when it begins, cancels them after a time,
-- and then drops the list, the queue and the registry, whatever a batch or a worker started
-- meanwhile does. Here it may end at any time, which is more than the code allows. A worker that it
-- drops runs on, and one that waits on the queue it replaced may get what that has left, which is
-- any entries at all.
pub data Step (s : System) : System → Type 0 where
  starts : (n : ℕ) → Step s (record s { runtime = start n s.runtime })
  enqueues :
      (kind id : String) (vip : Bool)
      → kind ≢ stop_kind
      → Step s (record s { runtime = (enqueue kind id vip s.runtime).1 })
  gets : (i : ℕ) {r : Runtime} → worker_get i s.runtime ≡ some r → Step s (record s { runtime = r })
  finishes :
      (i : ℕ) {r : Runtime} → worker_finish i s.runtime ≡ some r → Step s (record s { runtime = r })
  cancels :
      (i : ℕ) {r : Runtime} → worker_cancel i s.runtime ≡ some r → Step s (record s { runtime = r })
  batch_begins : (key : TaskKey) {t : System} → batch_begin key s ≡ some t → Step s t
  batch_finishes : (key : TaskKey) {t : System} → batch_finish key s ≡ some t → Step s t
  begins_stop : {r : Runtime} → begin_stop s.runtime ≡ some r → Step s (record s { runtime = r })
  ends_stop :
      Step s (record s { runtime = end_stop s.runtime; strays = s.strays ++ s.runtime.workers })
  stray_gets :
      (i : ℕ) {r : Runtime}
      → worker_get i (strays_on s.runtime.queue s) ≡ some r
      → Step s (with_strays r.queue r s)
  stray_gets_left :
      (i : ℕ) (left : List Entry) {r : Runtime}
      → worker_get i (strays_on left s) ≡ some r
      → Step s (with_strays s.runtime.queue r s)
  stray_finishes :
      (i : ℕ) {r : Runtime}
      → worker_finish i (strays_on s.runtime.queue s) ≡ some r
      → Step s (with_strays s.runtime.queue r s)
  stray_cancels :
      (i : ℕ) {r : Runtime}
      → worker_cancel i (strays_on s.runtime.queue s) ≡ some r
      → Step s (with_strays s.runtime.queue r s)

-- A `stop` ends when no worker of the list runs and no batch does.
abbrev pub IsQuietStep : {s t : System} → Step s t → Type 0
IsQuietStep {s} ends_stop = (all_ended s.runtime.workers ≡ true) × (s.external ≡ [])
IsQuietStep (starts n) = Unit
IsQuietStep (enqueues kind id vip user) = Unit
IsQuietStep (gets i g) = Unit
IsQuietStep (finishes i g) = Unit
IsQuietStep (cancels i g) = Unit
IsQuietStep (batch_begins key g) = Unit
IsQuietStep (batch_finishes key g) = Unit
IsQuietStep (begins_stop g) = Unit
IsQuietStep (stray_gets i g) = Unit
IsQuietStep (stray_gets_left i left g) = Unit
IsQuietStep (stray_finishes i g) = Unit
IsQuietStep (stray_cancels i g) = Unit

pub data Reach : System → Type 0 where
  here : Reach new_system
  next : {s t : System} → Reach s → Step s t → Reach t

-- Every `stop` of the run ends when no worker of the list runs and no batch does.
abbrev pub IsQuiet : {s : System} → Reach s → Type 0
IsQuiet here = Unit
IsQuiet (next r st) = IsQuiet r × IsQuietStep st
