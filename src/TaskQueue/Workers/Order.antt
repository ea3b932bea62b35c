-- ===== src/TaskQueue/Workers/Order.antt =====
-- In which order the workers receive (src/task_queue/workers.py and policy.py).
use funasr_api.Prelude.{
  ℕ, ◌<◌, ◌≡◌, ap, ◌∙◌, Bool, true, false, ◌||◌, ◌⊎◌, some, List, [], ◌∷◌, arith, if◌then◌else◌,
  set, All, All-map,
}
use funasr_api.Prelude.Int.{pos, ltb_ℤ}
use funasr_api.Prelude.Equality.{◌==◌, string_eq}
use funasr_api.TaskQueue.PriorityQueue.{Entry, before}
use funasr_api.TaskQueue.PriorityQueue.Order.{IsSorted}
use funasr_api.TaskQueue.Workers.{busy, ended, Runtime, stop_kind, worker_get}
use funasr_api.TaskQueue.Workers.Steps.{System, Reach}
use funasr_api.TaskQueue.Workers.Arrangement.{
  IsShaped, IsSentinel, IsVip, IsOther, Receives, worker_get-Receives, Reach-IsOrdered,
}

-- `e` is to be processed before `x`: a smaller priority, or the same one and an older entry.
abbrev ComesFirst : Entry → Entry → Type 0
ComesFirst e x =
    (ltb_ℤ e.priority x.priority ≡ true) ⊎ ((e.priority ≡ x.priority) × (e.order < x.order))

before-ComesFirst : (e x : Entry) → before e x ≡ true → ComesFirst e x
before-ComesFirst e x h = ground arith

-- A sentinel goes before any task, a VIP's task before any other's, and of two alike the older one.
abbrev pub GoesFirst : Entry → Entry → Type 0
GoesFirst e x =
    (IsSentinel e × (IsVip x ⊎ IsOther x))
    ⊎ (IsVip e × IsOther x)
    ⊎ (((IsSentinel e × IsSentinel x) ⊎ (IsVip e × IsVip x) ⊎ (IsOther e × IsOther x))
        × (e.order < x.order))

received_first :
    {s : System} (i : ℕ) {r : Runtime}
    → Reach s
    → worker_get i s.runtime ≡ some r
    → (e : Entry) × Receives i s.runtime r e × All (ComesFirst e) r.queue
received_first {s} i {r} reached g =
    let (e, received) = worker_get-Receives i s.runtime g in
    let sorted : IsSorted (e ∷ r.queue) = rw (received.head) at (Reach-IsOrdered reached).sorted in
    (e, received, All-map _ _ r.queue (λ x. before-ComesFirst e x) sorted.0)

abbrev pub has_stop : List Entry → Bool
has_stop [] = false
has_stop (e ∷ q) = e.kind == stop_kind || has_stop q

stop_in_front :
    (e : Entry) (q : List Entry)
    → All (ComesFirst e) q
    → All IsShaped q
    → has_stop q ≡ true
    → ltb_ℤ e.priority (pos 0) ≡ true
stop_in_front e [] f p h = cc
stop_in_front e (x ∷ q) f p h = ground (arith, stop_in_front e q f.1 p.1)

-- Once `stop` has put its sentinels, tasks that still wait are not begun: in a reachable state
-- with a sentinel in the queue, a worker that receives ends, and the registry stays as it is.
pub stop_begins_no_task :
    {s : System} (i : ℕ) {r : Runtime}
    → Reach s
    → has_stop s.runtime.queue ≡ true
    → worker_get i s.runtime ≡ some r
    → (r.workers ≡ set s.runtime.workers i ended) × (r.registry ≡ s.runtime.registry)
stop_begins_no_task {s} i {r} reached stopping g =
    let (e, received, first) = received_first i reached g in
    let shaped : All IsShaped (e ∷ r.queue) =
      rw (received.head) at (Reach-IsOrdered reached).shaped in
    let stopping' : has_stop (e ∷ r.queue) ≡ true = rw (received.head) at stopping in
    let stop : (e.kind == stop_kind) ≡ true =
      ground (arith, stop_in_front e r.queue first shaped.1) in
    (
      received.worker
          ∙ ap (λ b. set s.runtime.workers i (if b then ended else busy (e.kind, e.task_id))) stop,
      received.stops stop,
    )
