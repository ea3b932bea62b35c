-- ===== src/TaskQueue/Policy.antt =====
-- src/task_queue/policy.py: the priority of a task, and the summary of a batch.
use funasr_api.Prelude.{ℕ, ◌+◌, Bool, List, [], ◌∷◌, if◌then◌else◌, length}
use funasr_api.Prelude.Int.{ℤ, pos, ◌-ℤ◌}
use funasr_api.Prelude.Equality.{bit}

unfoldable pub queue_priority_for : Bool → ℤ
queue_priority_for vip = if vip then pos 0 else pos 1

-- The counts of the summary; the wall time between the two clock readings is left out.
pub record BatchResult : Type 0 where
  pub total : ℕ
  pub completed : ℕ
  pub failed : ℤ

-- `sum(1 for result in task_results if result)`
unfoldable pub count_true : List Bool → ℕ
count_true [] = 0
count_true (b ∷ bs) = bit b + count_true bs

-- `len(task_ids)` and the results come apart; `failed` is a difference of Python ints.
unfoldable pub build_batch_result {ℓ} : {A : Type ℓ} → List A → List Bool → BatchResult
unfolding count_true
build_batch_result task_ids task_results =
    let done = count_true task_results in
    record { total = length task_ids; completed = done; failed = pos (length task_ids) -ℤ pos done }
