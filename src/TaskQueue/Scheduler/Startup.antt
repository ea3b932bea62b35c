-- ===== src/TaskQueue/Scheduler/Startup.antt =====
-- What `start` does to the queue: it takes up the pending tasks and then begins to run.
use funasr_api.Prelude.{
  ◌≡◌, ap, ◌∙◌, Option-cases, All-map, String, Bool, true, false, inl, inr, Option, none, some,
  List, [], ◌∷◌, arith, All,
}
use funasr_api.Prelude.Equality.{string_eq, contains-add}
use funasr_api.TaskQueue.Registry.{TaskKey, task_key_eq, key_eq_iff, is_tracked, try_enqueue}
use funasr_api.TaskQueue.Workers.{Runtime, start, enqueue}
use funasr_api.TaskQueue.Scheduler.{
  Scheduler, supports, Answers, pending_limit, enqueue_all, recover_and_enqueue_tasks,
  recover_pending_tasks, start_scheduler,
}

abbrev pub Tracked : String → String × Bool → Scheduler → Type 0
Tracked kind (id, vip) q = is_tracked (kind, id) q.runtime.registry ≡ true

pub enqueue_tracks :
    (kind id : String) (vip : Bool) (r : Runtime)
    → is_tracked (kind, id) (enqueue kind id vip r).1.registry ≡ true
unfolding enqueue try_enqueue
enqueue_tracks kind id vip r =
    ground (
      arith,
      contains-add (kind, id) (kind, id) r.registry.queued,
      key_eq_iff (kind, id) (kind, id),
    )

enqueue_keeps :
    (kind id : String) (vip : Bool) (r : Runtime) (key : TaskKey)
    → is_tracked key r.registry ≡ true
    → is_tracked key (enqueue kind id vip r).1.registry ≡ true
unfolding enqueue try_enqueue
enqueue_keeps kind id vip r key h = ground (arith, contains-add (kind, id) key r.registry.queued)

enqueue_all_keeps :
    (kind : String) (tasks : List (String × Bool)) (q : Scheduler) (key : TaskKey)
    → is_tracked key q.runtime.registry ≡ true
    → is_tracked key (enqueue_all kind tasks q).runtime.registry ≡ true
unfolding enqueue_all
enqueue_all_keeps kind [] q key h = h
enqueue_all_keeps kind ((id, vip) ∷ tasks) q key h =
    enqueue_all_keeps kind tasks _ key (enqueue_keeps kind id vip q.runtime key h)

enqueue_all_tracks :
    (kind : String) (tasks : List (String × Bool)) (q : Scheduler)
    → All (λ t. Tracked kind t (enqueue_all kind tasks q)) tasks
unfolding enqueue_all
enqueue_all_tracks kind [] q = tt
enqueue_all_tracks kind ((id, vip) ∷ tasks) q = (
  enqueue_all_keeps kind tasks _ (kind, id) (enqueue_tracks kind id vip q.runtime),
  enqueue_all_tracks kind tasks _,
)

recover_keeps :
    (kind : String) (answers : Option Answers) (q : Scheduler) (key : TaskKey)
    → is_tracked key q.runtime.registry ≡ true
    → is_tracked key (recover_and_enqueue_tasks kind answers q).runtime.registry ≡ true
unfolding recover_and_enqueue_tasks
recover_keeps kind none q key h = h
recover_keeps kind (some answers) q key h =
    elim (Option-cases (answers.pending answers.recovers pending_limit)) [
      | inl e ↦ rw (e, recover_and_enqueue_tasks) h
      | inr (tasks, e) ↦ rw (e, recover_and_enqueue_tasks) (enqueue_all_keeps kind tasks q key h)
    ]

recover_tracks :
    (kind : String) (answers : Answers) (q : Scheduler) (tasks : List (String × Bool))
    → answers.pending answers.recovers pending_limit ≡ some tasks
    → All (λ t. Tracked kind t (recover_and_enqueue_tasks kind (some answers) q)) tasks
unfolding recover_and_enqueue_tasks
recover_tracks kind answers q tasks e =
    rw (e, recover_and_enqueue_tasks) (enqueue_all_tracks kind tasks q)

-- When an enabled idle scheduler with both services starts, and its repositories answer the
-- request for at most 1000 pending tasks, every task of their answers is tracked afterwards, of
-- either kind: it waits in the queue or is already processed.
pub start_takes_up_pending :
    (offline spk : Answers) (q : Scheduler) (tasks spk_tasks : List (String × Bool))
    → q.enabled ≡ true
    → q.runtime.running ≡ false
    → q.has_task_service ≡ true
    → q.has_spk_task_service ≡ true
    → offline.pending offline.recovers pending_limit ≡ some tasks
    → spk.pending spk.recovers pending_limit ≡ some spk_tasks
    → let q' = start_scheduler (some offline) (some spk) q in
      All (λ t. Tracked "offline" t q') tasks × All (λ t. Tracked "spk" t q') spk_tasks
unfolding start_scheduler recover_pending_tasks start supports
start_takes_up_pending offline spk q tasks spk_tasks on idle has has_spk e e' =
    let p = recover_and_enqueue_tasks "offline" (some offline) q in
    let p' = recover_and_enqueue_tasks "spk" (some spk) p in
    let same : (start_scheduler (some offline) (some spk) q).runtime.registry
        ≡ p'.runtime.registry =
      ground arith in
    (
      All-map _ _ tasks
          (λ t k.
            ap (is_tracked ("offline", t.0)) same
            ∙ recover_keeps "spk" (some spk) p ("offline", t.0) k)
          (recover_tracks "offline" offline q tasks e),
      All-map _ _ spk_tasks (λ t k. ap (is_tracked ("spk", t.0)) same ∙ k)
          (recover_tracks "spk" spk p spk_tasks e'),
    )
