-- ===== src/Tasks/Store/Lifecycle.antt =====
-- The states of a row under the operations of the DAO: the times that belong to a status, and the
-- recovery of rows that a stopped process has left behind.
use funasr_api.Prelude.{
  not, ◌||◌, ℕ, ◌+◌, ◌≤◌, ◌<◌, leb, ◌≡◌, ◌≢◌, refl, ◌⊎◌, String, Bool, true, false, inl, inr,
  Option, none, some, List, [], ◌∷◌, arith, All, All-append, Bool-cases, Option-cases,
}
use funasr_api.Prelude.Int.{ℤ, pos_part}
use funasr_api.Prelude.Equality.{◌==◌, string_eq, beq_exclusive}
use funasr_api.Tasks.Store.{
  OfflineTask, NewTask, is_status, new_row, get_by_id, create, is_stale, recover_stale_processing,
  change, with_status, update_status, update_result, update_file_info, update_error,
}

abbrev is_set : Option ℕ → Bool
is_set none = false
is_set (some n) = true

or_intro : (a b : Bool) → (a ≡ true → b ≡ true) → (not a || b) ≡ true
or_intro true b h = h refl
or_intro false b h = refl

-- A call of the DAO that may change rows, with the clock that it reads.
pub data Call (J : Type 0) : Type 0 where
  creates : ℕ → String → NewTask → Call J
  recovers : ℕ → ℤ → Call J
  sets_status : ℕ → String → String → Call J
  sets_result : ℕ → String → String → J → J → Option J → Call J
  sets_file : String → Option String → Option String → Call J
  sets_error : ℕ → String → String → Call J

module _ {J : Type 0} where
  -- A create that fails leaves the rows as they are.
  abbrev rows_after :
      List (OfflineTask J) → Option (OfflineTask J × List (OfflineTask J)) → List (OfflineTask J)
  rows_after rows none = rows
  rows_after rows (some (t, rows')) = rows'

  unfoldable pub run_call : Call J → List (OfflineTask J) → List (OfflineTask J)
  run_call (creates now id n) rows = rows_after rows (create now id n rows)
  run_call (recovers now timeout) rows = (recover_stale_processing now timeout rows).1
  run_call (sets_status now id status) rows = (update_status now id status rows).1
  run_call (sets_result now id text segments time stamps) rows =
      (update_result now id text segments time stamps rows).1
  run_call (sets_file id key hash) rows = (update_file_info id key hash rows).1
  run_call (sets_error now id message) rows = (update_error now id message rows).1

  unfoldable pub run_calls : List (Call J) → List (OfflineTask J) → List (OfflineTask J)
  run_calls [] rows = rows
  run_calls (c ∷ cs) rows = run_calls cs (run_call c rows)

  -- A processing row knows when it was started, and a completed one when it was completed.
  pub record IsTimed (t : OfflineTask J) : Type 0 where
    pub started : (not (is_status "processing" t) || is_set t.started_at) ≡ true
    pub completed : (not (is_status "completed" t) || is_set t.completed_at) ≡ true

  timed :
      {t : OfflineTask J}
      → (is_status "processing" t ≡ true → is_set t.started_at ≡ true)
      → (is_status "completed" t ≡ true → is_set t.completed_at ≡ true)
      → IsTimed t
  timed {t} h k = record {
    started = or_intro (is_status "processing" t) (is_set t.started_at) h;
    completed = or_intro (is_status "completed" t) (is_set t.completed_at) k;
  }

  All-change :
      (P : OfflineTask J → Type 0) (id : String) (f : OfflineTask J → OfflineTask J)
      (rows : List (OfflineTask J))
      → ((t : OfflineTask J) → P t → P (f t))
      → All P rows
      → All P (change id f rows).1
  unfolding change
  All-change P id f [] keep h = tt
  All-change P id f (t ∷ ts) keep h = elim (Bool-cases (t.id == id)) [
    | inl e ↦ rw e (keep t h.0, h.1)
    | inr e ↦ rw e (h.0, All-change P id f ts keep h.1)
  ]

  with_status-IsTimed :
      (now : ℕ) (status : String) (t : OfflineTask J)
      → IsTimed t
      → IsTimed (with_status now status t)
  with_status-IsTimed now status t h = elim (Bool-cases (status == "processing")) [
    | inl e ↦
        rw e (timed (λ q. refl) (λ q. cc (beq_exclusive status "processing" "completed" refl e)))
    | inr e ↦ rw e (elim (Bool-cases (status == "completed")) [
      | inl d ↦ rw d (timed (λ q. cc) (λ q. refl))
      | inr d ↦ rw d (timed (λ q. cc) (λ q. cc))
    ])
  ]

  recover-IsTimed :
      (now : ℕ) (timeout : ℤ) (rows : List (OfflineTask J))
      → All IsTimed rows
      → All IsTimed (recover_stale_processing now timeout rows).1
  unfolding recover_stale_processing
  recover-IsTimed now timeout [] h = tt
  recover-IsTimed now timeout (t ∷ ts) h = elim (Bool-cases (is_stale now timeout t)) [
    | inl e ↦ rw e (timed (λ q. cc) (λ q. cc), recover-IsTimed now timeout ts h.1)
    | inr e ↦ rw e (h.0, recover-IsTimed now timeout ts h.1)
  ]

  run_call-IsTimed :
      (c : Call J) (rows : List (OfflineTask J)) → All IsTimed rows → All IsTimed (run_call c rows)
  unfolding run_call create new_row update_status update_result update_file_info update_error
  run_call-IsTimed (creates now id n) rows h = elim (Option-cases (get_by_id id rows)) [
    | inl e ↦ rw (e, create) (All-append IsTimed rows _ h (timed (λ q. cc) (λ q. cc), tt))
    | inr (t, e) ↦ rw (e, create) h
  ]
  run_call-IsTimed (recovers now timeout) rows h = recover-IsTimed now timeout rows h
  run_call-IsTimed (sets_status now id status) rows h =
      All-change IsTimed id _ rows (with_status-IsTimed now status) h
  run_call-IsTimed (sets_result now id text segments time stamps) rows h =
      All-change IsTimed id _ rows (λ t k. timed (λ q. cc) (λ q. refl)) h
  run_call-IsTimed (sets_file id key hash) rows h =
      All-change IsTimed id _ rows (λ t k. record { started = k.started; completed = k.completed })
        h
  run_call-IsTimed (sets_error now id message) rows h =
      All-change IsTimed id _ rows (λ t k. timed (λ q. cc) (λ q. cc)) h

  -- Whatever the calls and the clock, every row that is processing has its start time, by which
  -- recovery finds it, and every row that is completed has its completion time, if this held
  -- at the start.
  pub run_calls-IsTimed :
      (cs : List (Call J)) (rows : List (OfflineTask J))
      → All IsTimed rows
      → All IsTimed (run_calls cs rows)
  unfolding run_calls
  run_calls-IsTimed [] rows h = h
  run_calls-IsTimed (c ∷ cs) rows h =
      run_calls-IsTimed cs (run_call c rows) (run_call-IsTimed c rows h)

  -- What recovery makes of one row: one that is processing and was started at least the timeout
  -- back is pending, and nothing else of it changes; any other row stays as it is, and is either
  -- not processing, or without a start time, or started later.
  abbrev pub Recovered : ℕ → ℤ → OfflineTask J → OfflineTask J → Type 0
  Recovered now timeout t u =
      ((t.status ≡ "processing")
        × (started : ℕ) × (t.started_at ≡ some started)
        × (started + pos_part timeout ≤ now)
        × (u ≡ record t { status = "pending" }))
      ⊎ ((u ≡ t)
          × ((t.status ≢ "processing")
              ⊎ (t.started_at ≡ none)
              ⊎ ((started : ℕ) × (t.started_at ≡ some started)
                  × (now < started + pos_part timeout))))

  abbrev pub All₂ :
      (OfflineTask J → OfflineTask J → Type 0)
      → List (OfflineTask J)
      → List (OfflineTask J)
      → Type 0
  All₂ R [] [] = Unit
  All₂ R (t ∷ ts) (u ∷ us) = R t u × All₂ R ts us
  All₂ R [] (u ∷ us) = ⊥
  All₂ R (t ∷ ts) [] = ⊥

  stale_cases :
      (now : ℕ) (timeout : ℤ) (t : OfflineTask J)
      → ((is_stale now timeout t ≡ true)
          × Recovered now timeout t (record t { status = "pending" }))
        ⊎ ((is_stale now timeout t ≡ false) × Recovered now timeout t t)
  stale_cases now timeout t = elim (Bool-cases (is_status "processing" t)) [
    | inr e ↦
        inr (
          ground arith,
          inr (refl, inl (λ h. cc (e, (string_eq.beq_iff t.status "processing").1 h))),
        )
    | inl e ↦ elim (Option-cases t.started_at) [
      | inl o ↦ inr (rw o (ground arith), inr (refl, inr (inl o)))
      | inr (s, o) ↦ elim (Bool-cases (leb (s + pos_part timeout) now)) [
        | inl b ↦ inl (
          rw o (ground arith),
          inl ((string_eq.beq_iff t.status "processing").0 e, s, o, ground arith, refl),
        )
        | inr b ↦ inr (rw o (ground arith), inr (refl, inr (inr (s, o, ground arith))))
      ]
    ]
  ]

  -- Recovery makes exactly the rows pending that are processing and were started at least the
  -- timeout back; it changes nothing else of them and nothing of any other row, in the
  -- order of the table.
  pub recover_stale_processing-Recovered :
      (now : ℕ) (timeout : ℤ) (rows : List (OfflineTask J))
      → All₂ (Recovered now timeout) rows (recover_stale_processing now timeout rows).1
  unfolding recover_stale_processing
  recover_stale_processing-Recovered now timeout [] = tt
  recover_stale_processing-Recovered now timeout (t ∷ ts) = elim (stale_cases now timeout t) [
    | inl (e, r) ↦ rw e (r, recover_stale_processing-Recovered now timeout ts)
    | inr (e, r) ↦ rw e (r, recover_stale_processing-Recovered now timeout ts)
  ]
