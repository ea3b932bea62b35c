-- ===== src/TaskQueue/Scheduler/Batch.antt =====
-- src/task_queue/batch.py: a batch of OFFLINE tasks processed at once, outside the queue. What
-- other coroutines do to the registry at each `await` is a function of the request.
use funasr_api.Prelude.{
  ℕ, ◌+◌, ◌≡◌, refl, ◌⊎◌, inl, inr, String, Bool, true, false, not, Option, none, some, List, [],
  ◌∷◌, arith, if◌then◌else◌, length, length-map, map, Bool-cases,
}
use funasr_api.Prelude.Int.{pos, ◌-ℤ◌}
use funasr_api.Prelude.Equality.{add, contains, contains-discard}
use funasr_api.TaskQueue.Registry.{
  TaskKey, task_key_eq, key_eq_iff, Registry, is_tracked, try_begin_external, finish,
}
use funasr_api.TaskQueue.Policy.{BatchResult, count_true, build_batch_result}

-- The answer of `get_task`.
pub data Lookup : Type 0 where
  raises missing found : Lookup

-- One requested id: the answer of the repository, and what `process_task` returns or, as `none`,
-- that it raises; and what other coroutines make of the registry while each of these calls runs.
pub record Request : Type 0 where
  pub task_id : String
  pub lookup : Lookup
  pub outcome : Option Bool
  pub looking : Registry → Registry
  pub processing : Registry → Registry

abbrev pub request_key : Request → TaskKey
request_key q = ("offline", q.task_id)

abbrev succeeded : Option Bool → Bool
succeeded none = false
succeeded (some b) = b

-- `_process_one` once the task has been found.
process_found : Request → Registry → Bool × Registry
process_found q r =
    let (fresh, r') = try_begin_external (request_key q) r in
    if fresh then (succeeded q.outcome, finish (request_key q) (q.processing r')) else (false, r)

-- `_process_one`
unfoldable pub process_one : Request → Registry → Bool × Registry
unfolding process_found
process_one q r = elim (q.lookup) [
  | raises ↦ (false, q.looking r)
  | missing ↦ (false, q.looking r)
  | found ↦ process_found q (q.looking r)
]

process_each : List Request → Registry → List Bool × Registry
process_each [] r = ([], r)
process_each (q ∷ qs) r =
    let (done, r') = process_one q r in let (dones, r'') = process_each qs r' in (done ∷ dones, r'')

-- `process`: `none` is the error of a processor that is disabled. The call of the result handler
-- has no effect: no batch hook is configured.
unfoldable pub process : Bool → List Request → Registry → Option (BatchResult × Registry)
unfolding process_each
process enabled requests r =
    let (dones, r') = process_each requests r in
    if not enabled
    then none
    else some (build_batch_result (map (λ (q : Request). q.task_id) requests) dones, r')

-- A request that is refused leaves the registry as the others have made it, for one of three
-- reasons. One that is taken has a key that was free; afterwards the key is not in flight, and it
-- is counted if `process_task` has returned true.
abbrev pub Refused : Request → Registry → Registry → Type 0
Refused q r r' =
    (r' ≡ q.looking r)
    × ((q.lookup ≡ raises)
        ⊎ (q.lookup ≡ missing)
        ⊎ (is_tracked (request_key q) (q.looking r) ≡ true))

abbrev pub Taken : Request → Registry → Registry → Type 0
Taken q r r' =
    (q.lookup ≡ found)
    × (is_tracked (request_key q) (q.looking r) ≡ false)
    × (contains (request_key q) r'.inflight ≡ false)

-- One request, with what `_process_one` returns.
abbrev pub Handled : Request → Registry → Bool × Registry → Type 0
Handled q r (done, r') =
    ((done ≡ false) × Refused q r r')
    ⊎ (Taken q r r'
        × (((done ≡ true) × (q.outcome ≡ some true))
            ⊎ ((done ≡ false) × ((q.outcome ≡ none) ⊎ (q.outcome ≡ some false)))))

-- The requests one after the other, with what each returns.
abbrev pub AllHandled : List Request → Registry → List Bool × Registry → Type 0
AllHandled [] r ([], r') = r' ≡ r
AllHandled (q ∷ qs) r (done ∷ dones, r'') =
    (r' : Registry) × Handled q r (done, r') × AllHandled qs r' (dones, r'')
AllHandled [] r (done ∷ dones, r') = ⊥
AllHandled (q ∷ qs) r ([], r') = ⊥

abbrev pub how_many_true : List Bool → ℕ
how_many_true [] = 0
how_many_true (true ∷ bs) = how_many_true bs + 1
how_many_true (false ∷ bs) = how_many_true bs

abbrev pub how_many_false : List Bool → ℕ
how_many_false [] = 0
how_many_false (true ∷ bs) = how_many_false bs
how_many_false (false ∷ bs) = how_many_false bs + 1

begun_ends :
    (q : Request) (r : Registry)
    → is_tracked (request_key q) r ≡ false
    → ((process_found q r).0 ≡ succeeded q.outcome)
      × (contains (request_key q) (process_found q r).1.inflight ≡ false)
unfolding process_found try_begin_external finish
begun_ends q r free =
    let r' = record r { inflight = add (request_key q) r.inflight } in
    (
      simp (process_found, free) refl,
      simp (process_found, free)
          (ground (
            arith,
            contains-discard (request_key q) (request_key q) (q.processing r').inflight,
            key_eq_iff (request_key q) (request_key q),
          )),
    )

tracked_ends :
    (q : Request) (r : Registry)
    → is_tracked (request_key q) r ≡ true
    → process_found q r ≡ (false, r)
unfolding process_found try_begin_external
tracked_ends q r e = simp (process_found, e) refl

outcome_cases :
    (o : Option Bool) (done : Bool)
    → done ≡ succeeded o
    → ((done ≡ true) × (o ≡ some true)) ⊎ ((done ≡ false) × ((o ≡ none) ⊎ (o ≡ some false)))
outcome_cases none done e = inr (e, inl refl)
outcome_cases (some true) done e = inl (e, refl)
outcome_cases (some false) done e = inr (e, inr refl)

lookup_cases : (l : Lookup) → ((l ≡ raises) ⊎ (l ≡ missing)) ⊎ (l ≡ found)
lookup_cases raises = inl (inl refl)
lookup_cases missing = inl (inr refl)
lookup_cases found = inr refl

process_one-Handled : (q : Request) (r : Registry) → Handled q r (process_one q r)
unfolding process_one
process_one-Handled q r = elim (lookup_cases q.lookup) [
  | inl (inl e) ↦ simp (process_one, e) (inl (refl, (refl, inl refl)))
  | inl (inr e) ↦ simp (process_one, e) (inl (refl, (refl, inr (inl refl))))
  | inr e ↦ elim (Bool-cases (is_tracked (request_key q) (q.looking r))) [
    | inl t ↦
        simp (process_one, e, tracked_ends q (q.looking r) t) (inl (refl, (refl, inr (inr t))))
    | inr t ↦
        let (done, released) = begun_ends q (q.looking r) t in
        simp (process_one, e) (inr ((refl, t, released), outcome_cases q.outcome _ done))
  ]
]

process_each-AllHandled : (qs : List Request) (r : Registry) → AllHandled qs r (process_each qs r)
unfolding process_each
process_each-AllHandled [] r = refl
process_each-AllHandled (q ∷ qs) r =
    ((process_one q r).1, process_one-Handled q r, process_each-AllHandled qs (process_one q r).1)

length-process_each : (qs : List Request) (r : Registry) → length (process_each qs r).0 ≡ length qs
unfolding process_each
length-process_each [] r = refl
length-process_each (q ∷ qs) r = omega (arith, length-process_each qs (process_one q r).1)

counts_all :
    (bs : List Bool)
    → (count_true bs ≡ how_many_true bs) × (how_many_true bs + how_many_false bs ≡ length bs)
unfolding count_true
counts_all [] = (refl, omega arith)
counts_all (true ∷ bs) = let h = counts_all bs in (omega (arith, h.0), omega (arith, h.1))
counts_all (false ∷ bs) = let h = counts_all bs in (omega (arith, h.0), omega (arith, h.1))

-- An enabled batch handles the requested ids one after the other, whatever other coroutines make
-- of the registry meanwhile. An id is refused, and changes nothing, when its lookup raises or finds
-- no task, or its key is tracked by then; any other is taken, its key is not in flight afterwards,
-- and it counts as completed exactly if `process_task` returns true. The summary has the number of
-- all ids, of those completed, and of all others as failed.
pub process_lem :
    (requests : List Request) (r : Registry)
    → (dones : List Bool) × (result : BatchResult) × (r' : Registry) × (process true requests r
        ≡ some (result, r'))
      × AllHandled requests r (dones, r')
      × (result.total ≡ length requests)
      × (result.completed ≡ how_many_true dones)
      × (result.failed ≡ pos (how_many_false dones))
unfolding process build_batch_result ◌-ℤ◌
process_lem requests r =
    let dones = (process_each requests r).0 in
    let total = length-map requests (λ (q : Request). q.task_id) in
    let (completed, all) = counts_all dones in
    (
      dones,
      _,
      (process_each requests r).1,
      refl,
      process_each-AllHandled requests r,
      total,
      completed,
      ground (arith, total, length-process_each requests r, completed, all),
    )
