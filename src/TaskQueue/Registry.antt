-- ===== src/TaskQueue/Registry.antt =====
-- src/task_queue/execution.py: which task keys are queued and which are in flight.
use funasr_api.Prelude.{
  String, ◌≡◌, ◌↔◌, Bool, true, false, ◌&&◌, ◌||◌, List, [], arith, if◌then◌else◌,
}
use funasr_api.Prelude.Equality.{Eq, ◌==◌, string_eq, contains, add, discard}

abbrev pub TaskKey : Type 0
TaskKey = String × String

-- Equality of tuples.
unfoldable pub key_eq : TaskKey → TaskKey → Bool
key_eq (kind, id) (kind', id') = kind == kind' && id == id'

pub key_eq_iff : (a b : TaskKey) → (key_eq a b ≡ true) ↔ (a ≡ b)
unfolding key_eq
key_eq_iff (kind, id) (kind', id') = (
  λ h. ground (arith, string_eq.beq_iff kind kind', string_eq.beq_iff id id'),
  λ h. ground (arith, string_eq.beq_iff kind kind', string_eq.beq_iff id id'),
)

instance abbrev pub task_key_eq : Eq TaskKey
task_key_eq = record { beq = key_eq; beq_iff = key_eq_iff }

-- `TaskExecutionRegistry`
pub record Registry : Type 0 where
  pub queued : List TaskKey
  pub inflight : List TaskKey

abbrev pub empty_registry : Registry
empty_registry = record { queued = []; inflight = [] }

unfoldable pub is_tracked : TaskKey → Registry → Bool
is_tracked key r = contains key r.queued || contains key r.inflight

-- A method that reports `True` or `False` returns it with the new state.
unfoldable pub try_enqueue : TaskKey → Registry → Bool × Registry
unfolding is_tracked
try_enqueue key r =
    if is_tracked key r then (false, r) else (true, record r { queued = add key r.queued })

unfoldable pub try_begin_external : TaskKey → Registry → Bool × Registry
unfolding is_tracked
try_begin_external key r =
    if is_tracked key r then (false, r) else (true, record r { inflight = add key r.inflight })

unfoldable pub begin_queued : TaskKey → Registry → Registry
begin_queued key r = record r { queued = discard key r.queued; inflight = add key r.inflight }

unfoldable pub finish : TaskKey → Registry → Registry
finish key r = record r { inflight = discard key r.inflight }

-- `clear` empties both sets.
unfoldable pub clear : Registry → Registry
clear r = empty_registry
