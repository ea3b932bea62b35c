-- ===== src/TaskQueue/PriorityQueue.antt =====
-- The entries of the scheduler's `asyncio.PriorityQueue` (src/task_queue/workers.py). The queue
-- is kept in the order in which `get` returns its entries.
pub mod Order
use funasr_api.Prelude.{ℕ, String, Bool, ◌&&◌, ◌||◌, not, List, [], ◌∷◌, ltb, if◌then◌else◌}
use funasr_api.Prelude.Int.{ℤ, ltb_ℤ}

-- `(priority, order, kind, task_id)`
pub record Entry : Type 0 where
  pub priority : ℤ
  pub order : ℕ
  pub kind : String
  pub task_id : String

-- `<` on the tuples, by priority and then by order. The orders of two entries differ, since
-- `itertools.count` hands each number out once: the comparison ends before the texts.
abbrev pub before : Entry → Entry → Bool
before a b =
    ltb_ℤ a.priority b.priority || (not (ltb_ℤ b.priority a.priority) && ltb a.order b.order)

-- `put_nowait`
unfoldable pub put : Entry → List Entry → List Entry
put e [] = e ∷ []
put e (x ∷ q) = if before e x then e ∷ x ∷ q else x ∷ put e q
