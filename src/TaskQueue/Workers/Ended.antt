-- ===== src/TaskQueue/Workers/Ended.antt =====
-- Workers that have ended (src/task_queue/workers.py) take no step.
use funasr_api.Prelude.{
  ℕ, zero, suc, ◌≡◌, refl, true, ◌⊎◌, inl, inr, none, some, List, [], ◌∷◌, ◌++◌, arith, get_elem?,
}
use funasr_api.TaskQueue.Registry.{TaskKey}
use funasr_api.TaskQueue.Workers.{
  Worker, waiting, busy, ended, Runtime, worker_get, worker_finish, worker_cancel, settle,
}
use funasr_api.TaskQueue.Workers.Counts.{busy_count}
use funasr_api.TaskQueue.Workers.Steps.{all_ended}

pub all_ended-append :
    (ws vs : List Worker) → all_ended ws ≡ true → all_ended vs ≡ true → all_ended (ws ++ vs) ≡ true
all_ended-append [] vs h k = k
all_ended-append (ended ∷ ws) vs h k = all_ended-append ws vs h k
all_ended-append (waiting ∷ ws) vs h k = cc
all_ended-append (busy key ∷ ws) vs h k = cc

pub busy_count_ended :
    (key : TaskKey) (ws : List Worker) → all_ended ws ≡ true → busy_count key ws ≡ 0
unfolding busy_count
busy_count_ended key [] h = refl
busy_count_ended key (ended ∷ ws) h = omega (arith, busy_count_ended key ws h)
busy_count_ended key (waiting ∷ ws) h = cc
busy_count_ended key (busy k ∷ ws) h = cc

get_ended :
    (i : ℕ) (ws : List Worker)
    → all_ended ws ≡ true
    → (get_elem? ws i ≡ none) ⊎ (get_elem? ws i ≡ some ended)
get_ended i [] h = inl refl
get_ended zero (ended ∷ ws) h = inr refl
get_ended (suc i) (ended ∷ ws) h = get_ended i ws h
get_ended i (waiting ∷ ws) h = cc
get_ended i (busy key ∷ ws) h = cc

-- No step is one of a worker that has ended.
pub ended_gets :
    (i : ℕ) (r : Runtime) {r' : Runtime} → all_ended r.workers ≡ true → worker_get i r ≡ some r' → ⊥
unfolding worker_get
ended_gets i r h g = elim (get_ended i r.workers h) [
  | inl e ↦ cc (rw e at g)
  | inr e ↦ cc (rw e at g)
]

pub ended_finishes :
    (i : ℕ) (r : Runtime) {r' : Runtime}
    → all_ended r.workers ≡ true
    → worker_finish i r ≡ some r'
    → ⊥
unfolding worker_finish settle
ended_finishes i r h g = elim (get_ended i r.workers h) [
  | inl e ↦ cc (rw e at g)
  | inr e ↦ cc (rw e at g)
]

pub ended_cancels :
    (i : ℕ) (r : Runtime) {r' : Runtime}
    → all_ended r.workers ≡ true
    → worker_cancel i r ≡ some r'
    → ⊥
unfolding worker_cancel settle
ended_cancels i r h g = elim (get_ended i r.workers h) [
  | inl e ↦ cc (rw e at g)
  | inr e ↦ cc (rw e at g)
]
