-- ===== src/Tests/Queue.antt =====
-- src/task_queue at concrete inputs: a scheduler, tasks, a worker and a batch.
use funasr_api.Prelude.{
  ◌≤◌, ◌≡◌, ◌≢◌, refl, Bool, true, false, Option, none, some, List, [], ◌∷◌, ◌++◌, All, set, length,
  ◌+◌,
}
use funasr_api.Prelude.Int.{pos}
use funasr_api.Prelude.Equality.{bit, count, string_eq, add, contains}
use funasr_api.TaskQueue.Registry.{
  TaskKey, task_key_eq, key_eq, empty_registry, is_tracked, try_enqueue, Registry,
}
use funasr_api.TaskQueue.Policy.{BatchResult, queue_priority_for}
use funasr_api.TaskQueue.PriorityQueue.{put}
use funasr_api.TaskQueue.Workers.{
  Runtime, busy, ended, new_runtime, start, enqueue, begin_stop, end_stop, put_stops, worker_get,
  stop_kind,
}
use funasr_api.TaskQueue.Workers.Counts.{queued_count, busy_count}
use funasr_api.TaskQueue.Workers.Steps.{
  System, starts, enqueues, gets, begins_stop, ends_stop, all_ended, Reach, here, next,
}
use funasr_api.TaskQueue.Workers.Consistency.{runs_at_most_once}
use funasr_api.TaskQueue.Workers.Order.{has_stop, stop_begins_no_task}
use funasr_api.TaskQueue.Scheduler.{Scheduler, Answers, start_scheduler}
use funasr_api.TaskQueue.Scheduler.Startup.{Tracked, start_takes_up_pending}
use funasr_api.TaskQueue.Scheduler.Batch.{
  Request, missing, found, process, AllHandled, how_many_true, how_many_false, process_lem,
}

-- A runtime with one worker and two tasks, the second one a VIP's.
abbrev started : Runtime
started = start 1 new_runtime

abbrev one_task : Runtime
one_task = (enqueue "offline" "a" false started).1

abbrev two_tasks : Runtime
two_tasks = (enqueue "offline" "b" true one_task).1

abbrev two_tasks_system : System
two_tasks_system = record { runtime = two_tasks; external = []; strays = [] }

offline_kind : "offline" ≢ stop_kind
offline_kind e = cc

abbrev two_tasks-Reach : Reach two_tasks_system
two_tasks-Reach =
    next (next (next here (starts 1)) (enqueues "offline" "a" false offline_kind))
      (enqueues "offline" "b" true offline_kind)

abbrev or_new : Option Runtime → Runtime
or_new none = new_runtime
or_new (some r) = r

-- A run that stops, ends the worker, and starts again.
abbrev closing : Runtime
closing = or_new (begin_stop started)

closes : begin_stop started ≡ some closing
unfolding begin_stop start
closes = refl

abbrev closed : Runtime
closed = or_new (worker_get 0 closing)

ends_worker : worker_get 0 closing ≡ some closed
unfolding worker_get begin_stop start put
ends_worker = refl

all_done : all_ended closed.workers ≡ true
unfolding worker_get begin_stop start put_stops put
all_done = refl

abbrev restarted : System
restarted = record {
  runtime = (enqueue "offline" "a" false (start 1 (end_stop closed))).1;
  external = [];
  strays = [] ++ closed.workers;
}

abbrev restarted-Reach : Reach restarted
restarted-Reach =
    next
      (next
        (next (next (next (next here (starts 1)) (begins_stop closes)) (gets 0 ends_worker))
          ends_stop)
        (starts 1))
      (enqueues "offline" "a" false offline_kind)

runs_at_most_once_example :
    (queued_count ("offline", "a") restarted.runtime.queue
        + busy_count ("offline", "a") restarted.runtime.workers
        + busy_count ("offline", "a") restarted.strays
        + count {A = TaskKey} ("offline", "a") []
      ≤ 1)
    × (queued_count ("offline", "a") restarted.runtime.queue
          + busy_count ("offline", "a") restarted.runtime.workers
          + busy_count ("offline", "a") restarted.strays
          + count {A = TaskKey} ("offline", "a") []
        ≡ bit (is_tracked ("offline", "a") restarted.runtime.registry))
runs_at_most_once_example =
    runs_at_most_once {s = restarted} ("offline", "a") restarted-Reach
      ((((((tt, tt), tt), tt), (all_done, refl)), tt), tt)

-- The worker takes the VIP's task, although it came later.
abbrev after_get : Runtime
after_get = or_new (worker_get 0 two_tasks)

vip_first : after_get.workers ≡ busy ("offline", "b") ∷ []
unfolding worker_get start enqueue try_enqueue is_tracked contains put key_eq add queue_priority_for
vip_first = refl

abbrev stopping : Runtime
stopping = or_new (begin_stop two_tasks)

begins : begin_stop two_tasks ≡ some stopping
unfolding begin_stop start enqueue try_enqueue is_tracked contains put add key_eq
begins = refl

abbrev stopping_system : System
stopping_system = record { runtime = stopping; external = []; strays = [] }

stopping-Reach : Reach stopping_system
stopping-Reach = next two_tasks-Reach (begins_stop begins)

abbrev after_stop : Runtime
after_stop = or_new (worker_get 0 stopping)

takes_sentinel : worker_get 0 stopping ≡ some after_stop
unfolding worker_get begin_stop start enqueue try_enqueue is_tracked contains put add key_eq
    queue_priority_for
takes_sentinel = refl

has_sentinel : has_stop stopping.queue ≡ true
unfolding begin_stop put_stops start enqueue try_enqueue is_tracked contains put queue_priority_for
    add key_eq
has_sentinel = refl

stop_begins_no_task_example :
    (after_stop.workers ≡ set stopping.workers 0 ended) × (after_stop.registry ≡ stopping.registry)
stop_begins_no_task_example =
    stop_begins_no_task {s = stopping_system} 0 {r = after_stop} stopping-Reach has_sentinel
      takes_sentinel

abbrev idle : Scheduler
idle = record {
  enabled = true;
  max_concurrent = 2;
  has_task_service = true;
  has_spk_task_service = true;
  runtime = new_runtime;
}

abbrev offline_answers : Answers
offline_answers = record {
  recovers = some 1;
  pending = λ recovered limit. some (("a", false) ∷ ("b", true) ∷ []);
}

abbrev spk_answers : Answers
spk_answers = record { recovers = none; pending = λ recovered limit. some (("c", false) ∷ []) }

start_takes_up_pending_example :
    All
      (λ t. Tracked "offline" t (start_scheduler (some offline_answers) (some spk_answers) idle))
      (("a", false) ∷ ("b", true) ∷ [])
    × All
        (λ t. Tracked "spk" t (start_scheduler (some offline_answers) (some spk_answers) idle))
        (("c", false) ∷ [])
start_takes_up_pending_example =
    start_takes_up_pending offline_answers spk_answers idle (("a", false) ∷ ("b", true) ∷ [])
      (("c", false) ∷ []) refl refl refl refl refl refl

-- While the first id is processed, another coroutine takes the second one.
abbrev requests : List Request
requests =
    record {
      task_id = "a";
      lookup = found;
      outcome = some true;
      looking = λ r. r;
      processing = λ r. record r { inflight = add ("offline", "b") r.inflight };
    }
    ∷ record {
      task_id = "b";
      lookup = found;
      outcome = some true;
      looking = λ r. r;
      processing = λ r. r;
    }
    ∷ record {
      task_id = "c";
      lookup = missing;
      outcome = none;
      looking = λ r. r;
      processing = λ r. r;
    }
    ∷ []

process_lem_example :
    (dones : List Bool) × (result : BatchResult) × (r' : Registry) × (process true requests
        empty_registry
      ≡ some (result, r'))
    × AllHandled requests empty_registry (dones, r')
    × (result.total ≡ length requests)
    × (result.completed ≡ how_many_true dones)
    × (result.failed ≡ pos (how_many_false dones))
process_lem_example = process_lem requests empty_registry
