-- ===== src/Tasks/Effects.antt =====
-- What the processing of a task works on: the database, the files and the archive, with exceptions
-- as values, and src/task_queue/hook_execution.py, which runs a list of hooks.
pub mod Hooks
use funasr_api.Prelude.{ℕ, String, Bool, Option, none, some, List, [], ◌∷◌}

-- How a call ends: its value, or the text of the exception.
pub data Outcome {ℓ} (A : Type ℓ) : Type ℓ where
  returned : A → Outcome A
  raised : String → Outcome A

-- A computation that changes a state and may raise; what it has changed by then stays.
abbrev pub Action : Type 0 → Type 0 → Type 0
Action W A = W → Outcome A × W

abbrev pub continue_with : {W A B : Type 0} → Outcome A × W → (A → Action W B) → Outcome B × W
continue_with (returned a, w) f = f a w
continue_with (raised e, w) f = (raised e, w)

infixl 5 ◌>>=◌ ◌>>◌
abbrev pub ◌>>=◌ : {W A B : Type 0} → Action W A → (A → Action W B) → Action W B
◌>>=◌ m f w = continue_with (m w) f

abbrev pub ◌>>◌ : {W A B : Type 0} → Action W A → Action W B → Action W B
m >> k = m >>= λ _. k

abbrev pub pure : {W A : Type 0} → A → Action W A
pure a w = (returned a, w)

abbrev pub raise : {W A : Type 0} → String → Action W A
raise e w = (raised e, w)

abbrev pub modify : {W : Type 0} → (W → W) → Action W (Unit {0})
modify f w = (returned tt, f w)

abbrev pub gets : {W A : Type 0} → (W → A) → Action W A
gets f w = (returned (f w), w)

-- A call that raises the given exception, if any.
abbrev pub attempt : {W : Type 0} → Option String → Action W (Unit {0})
attempt none = pure tt
attempt (some e) = raise e

abbrev pub value_or : {W A : Type 0} → Outcome A × W → A → Outcome A × W
value_or (returned a, w) b = (returned a, w)
value_or (raised e, w) b = (returned b, w)

-- `except Exception` around a call, with the value that the handler yields.
abbrev pub otherwise : {W A : Type 0} → Action W A → A → Action W A
otherwise m b w = value_or (m w) b
