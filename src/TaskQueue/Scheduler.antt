-- ===== src/TaskQueue/Scheduler.antt =====
-- src/task_queue/queue.py, recovery.py and batch.py: the facade over the workers.
pub mod Startup
pub mod Batch
use funasr_api.Prelude.{
  ℕ, zero, suc, String, Bool, true, false, ◌&&◌, ◌||◌, not, Option, none, some, List, [], ◌∷◌,
  if◌then◌else◌,
}
use funasr_api.Prelude.Equality.{◌==◌, string_eq}
use funasr_api.TaskQueue.Workers.{Runtime, start, enqueue, begin_stop}

-- `OfflineTaskQueue`. A service is there or not; what it does is not the scheduler's.
pub record Scheduler : Type 0 where
  pub enabled : Bool
  pub max_concurrent : ℕ
  pub has_task_service : Bool
  pub has_spk_task_service : Bool
  pub runtime : Runtime

unfoldable pub supports : String → Scheduler → Bool
supports kind q =
    if kind == "offline"
    then q.has_task_service
    else if kind == "spk"
    then q.has_spk_task_service
    else false

unfoldable pub can_accept : String → Scheduler → Bool
unfolding supports
can_accept kind q = q.enabled && (q.runtime.running && supports kind q)

-- `_enqueue`: `none` is `TaskSubmissionUnavailableError`.
unfoldable pub enqueue_task : Bool → String → String → Bool → Scheduler → Option Scheduler
unfolding can_accept
enqueue_task require_available kind task_id vip q =
    if require_available && not (can_accept kind q)
    then none
    else some (record q { runtime = (enqueue kind task_id vip q.runtime).1 })

-- `enqueue_offline` and `enqueue_spk`
unfoldable pub enqueue_offline : String → Bool → Scheduler → Option Scheduler
unfolding enqueue_task
enqueue_offline task_id vip q = enqueue_task true "offline" task_id vip q

unfoldable pub enqueue_spk : String → Bool → Scheduler → Option Scheduler
unfolding enqueue_task
enqueue_spk task_id vip q = enqueue_task true "spk" task_id vip q

-- A repository's answers in `recover_and_enqueue_tasks`: what `recover_stale_processing` returns,
-- and then, after that answer, `get_pending_tasks` for a limit. None of a call is its exception,
-- and no answers at all is a repository that is not configured. A task is its id and its VIP flag.
pub record Answers : Type 0 where
  pub recovers : Option ℕ
  pub pending : Option ℕ → ℕ → Option (List (String × Bool))

abbrev pub pending_limit : ℕ
pending_limit = 1000

enqueue_all : String → List (String × Bool) → Scheduler → Scheduler
enqueue_all kind [] q = q
enqueue_all kind ((id, vip) ∷ tasks) q =
    enqueue_all kind tasks (record q { runtime = (enqueue kind id vip q.runtime).1 })

-- `recover_and_enqueue_tasks`, with the queue's `enqueue` that never refuses. A failure of either
-- call is logged; the first one does not keep the second from being made.
unfoldable pub recover_and_enqueue_tasks : String → Option Answers → Scheduler → Scheduler
unfolding enqueue_all
recover_and_enqueue_tasks kind none q = q
recover_and_enqueue_tasks kind (some answers) q =
    elim (answers.pending answers.recovers pending_limit) [
      | none ↦ q
      | some tasks ↦ enqueue_all kind tasks q
    ]

unfoldable pub recover_pending_tasks : Option Answers → Option Answers → Scheduler → Scheduler
unfolding recover_and_enqueue_tasks supports
recover_pending_tasks offline spk q =
    let q' = if supports "offline" q then recover_and_enqueue_tasks "offline" offline q else q in
    if supports "spk" q then recover_and_enqueue_tasks "spk" spk q' else q'

-- `start`
unfoldable pub start_scheduler : Option Answers → Option Answers → Scheduler → Scheduler
unfolding recover_pending_tasks
start_scheduler offline spk q =
    if not q.enabled || q.runtime.running || not (supports "offline" q || supports "spk" q)
    then q
    else let q' = recover_pending_tasks offline spk q in
      record q' { runtime = start q'.max_concurrent q'.runtime }
