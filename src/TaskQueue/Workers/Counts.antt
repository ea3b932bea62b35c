-- ===== src/TaskQueue/Workers/Counts.antt =====
-- How often a key waits in the queue and is worked on, and what each step does to these counts.
use funasr_api.Prelude.{
  ℕ, zero, suc, ◌+◌, ◌≡◌, refl, Bool, false, ◌&&◌, not, some, List, [], ◌∷◌, ◌++◌, arith, replicate,
  get_elem?, set,
}
use funasr_api.Prelude.Equality.{◌==◌, string_eq, bit}
use funasr_api.TaskQueue.Registry.{TaskKey, task_key_eq}
use funasr_api.TaskQueue.PriorityQueue.{Entry, put}
use funasr_api.TaskQueue.Workers.{Worker, waiting, busy, stop_kind, stop_entry}

-- The entry asks for `key`, and is no sentinel.
unfoldable pub asks_for : TaskKey → Entry → Bool
asks_for key e = not (e.kind == stop_kind) && (e.kind, e.task_id) == key

-- How many entries ask for `key`.
unfoldable pub queued_count : TaskKey → List Entry → ℕ
queued_count key [] = 0
queued_count key (e ∷ q) = bit (asks_for key e) + queued_count key q

abbrev pub works_on : TaskKey → Worker → Bool
works_on key (busy key') = key' == key
works_on key _ = false

-- How many workers process `key`.
unfoldable pub busy_count : TaskKey → List Worker → ℕ
busy_count key [] = 0
busy_count key (w ∷ ws) = bit (works_on key w) + busy_count key ws

pub queued_count-put :
    (key : TaskKey) (e : Entry) (q : List Entry)
    → queued_count key (put e q) ≡ bit (asks_for key e) + queued_count key q
unfolding put queued_count
queued_count-put key e [] = refl
queued_count-put key e (x ∷ q) = ground (arith, queued_count-put key e q)

pub busy_count-set :
    (key : TaskKey) (i : ℕ) (v w : Worker) (ws : List Worker)
    → get_elem? ws i ≡ some v
    → busy_count key (set ws i w) + bit (works_on key v) ≡ busy_count key ws + bit (works_on key w)
unfolding busy_count
busy_count-set key i v w [] h = cc
busy_count-set key zero v w (x ∷ ws) h = ground arith
busy_count-set key (suc i) v w (x ∷ ws) h = omega (arith, busy_count-set key i v w ws h)

pub busy_count-start :
    (key : TaskKey) (n : ℕ) (ws : List Worker)
    → busy_count key (ws ++ replicate n waiting) ≡ busy_count key ws
unfolding busy_count
busy_count-start key zero [] = refl
busy_count-start key (suc n) [] = omega (arith, busy_count-start key n [])
busy_count-start key n (w ∷ ws) = omega (arith, busy_count-start key n ws)

pub stop_asks : (key : TaskKey) (order : ℕ) → asks_for key (stop_entry order) ≡ false
unfolding asks_for
stop_asks key order = refl
