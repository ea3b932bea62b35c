-- ===== src/Tasks/Submission/Compensation.antt =====
-- The row of a new task and what the compensation makes of it.
use funasr_api.Prelude.{
  ℕ, ◌≡◌, refl, ap, subst, String, true, false, ◌⊎◌, inl, inr, Option, none, some, List, [], ◌∷◌,
  ◌++◌, arith, Bool-cases,
}
use funasr_api.Prelude.Equality.{◌==◌, string_eq, beq_refl, contains, discard, contains-discard}
use funasr_api.TaskQueue.Scheduler.{Scheduler, enqueue_task}
use funasr_api.Tasks.Store.{
  OfflineTask, NewTask, new_row, get_by_id, create, change, with_error, update_error,
}
use funasr_api.Tasks.Submission.{
  Error, Result, ok, err, World, Surroundings, submission_error, compensate_failed_submission,
  create_row, finish_create, finish_enqueue, create_and_enqueue,
}

no_file-discard : (id : String) (files : List String) → contains id (discard id files) ≡ false
no_file-discard id files = ground (arith, contains-discard id id files, beq_refl id)

module _ {J : Type 0} where
  create_fresh :
      (now : ℕ) (id : String) (n : NewTask) (rows : List (OfflineTask J))
      → get_by_id id rows ≡ none
      → create now id n rows ≡ some (new_row now id n, rows ++ new_row now id n ∷ [])
  unfolding create
  create_fresh now id n rows fresh = rw (fresh, create)

  change-append :
      (id : String) (f : OfflineTask J → OfflineTask J) (rows : List (OfflineTask J))
      (t : OfflineTask J)
      → get_by_id id rows ≡ none
      → (t.id == id) ≡ true
      → change id f (rows ++ t ∷ []) ≡ (some (f t), rows ++ f t ∷ [])
  unfolding change get_by_id
  change-append id f [] t fresh here = rw here
  change-append id f (u ∷ us) t fresh here = elim (Bool-cases (u.id == id)) [
    | inl e ↦ cc (rw e at fresh)
    | inr e ↦ rw (e, change-append id f us t (rw e at fresh) here)
  ]

  abbrev pub failed_row : ℕ → String → NewTask → OfflineTask J
  failed_row now id n = with_error now submission_error (new_row now id n)

  -- What a failed submission leaves: no temporary file, no place in the queue, and of the row
  -- either nothing or one that has failed.
  pub record LeavesNothing (id : String) (n : NewTask) (w w' : World J) : Type 0 where
    pub no_file : contains id w'.files ≡ false
    pub scheduler : w'.scheduler ≡ w.scheduler
    pub rows : (w'.rows ≡ w.rows) ⊎ (w'.rows ≡ w.rows ++ failed_row w.now id n ∷ [])

  pub cleanup-LeavesNothing :
      (env : Surroundings) (id : String) (n : NewTask) (w : World J)
      → env.removing ≡ true
      → LeavesNothing id n w (compensate_failed_submission env id false w)
  unfolding compensate_failed_submission
  cleanup-LeavesNothing env id n w removes =
      simp removes
        (record { no_file = no_file-discard id w.files; scheduler = refl; rows = inl refl })

  compensated-LeavesNothing :
      (env : Surroundings) (id : String) (n : NewTask) (w : World J)
      → get_by_id id w.rows ≡ none
      → env.record_error_raises ≡ false
      → env.removing ≡ true
      → LeavesNothing id n w (
          compensate_failed_submission env id true
            (record w { rows = w.rows ++ new_row w.now id n ∷ [] }))
  unfolding compensate_failed_submission update_error
  compensated-LeavesNothing env id n w fresh sound removes =
      let changed =
        change-append id (with_error w.now submission_error) w.rows (new_row w.now id n) fresh
          (unfold new_row in beq_refl id) in
      simp (sound, changed, removes)
        (record { no_file = no_file-discard id w.files; scheduler = refl; rows = inr refl })

  -- The insertion raises, or the new row is the last one.
  create_row_cases :
      (env : Surroundings) (id : String) (n : NewTask) (w : World J)
      → get_by_id id w.rows ≡ none
      → (create_row env id n w ≡ none)
        ⊎ (create_row env id n w ≡ some (new_row w.now id n, w.rows ++ new_row w.now id n ∷ []))
  create_row_cases env id n w fresh = elim (Bool-cases env.create_raises) [
    | inl down ↦ inl (rw down)
    | inr up ↦ inr (rw up (create_fresh w.now id n w.rows fresh))
  ]

  module _ (env : Surroundings) (kind id : String) (size : ℕ) (n : NewTask) (w w' : World J)
      (fresh : get_by_id id w.rows ≡ none) where
    with_row : World J
    with_row = record w { rows = w.rows ++ new_row w.now id n ∷ [] }

    finish_enqueue-LeavesNothing :
        (o : Option Scheduler) (e : Error)
        → env.record_error_raises ≡ false
        → env.removing ≡ true
        → finish_enqueue env id size with_row o ≡ (err e, w')
        → LeavesNothing id n w w'
    unfolding finish_enqueue with_row
    finish_enqueue-LeavesNothing none e sound removes h =
        subst (LeavesNothing id n w) (ap (λ (p : Result × World J). p.1) h)
          (compensated-LeavesNothing env id n w fresh sound removes)
    finish_enqueue-LeavesNothing (some q) e sound removes h = cc

    -- Whichever step of it raises, the second half of a submission leaves nothing behind, if the
    -- error can be recorded and the files removed.
    pub create_and_enqueue-LeavesNothing :
        (e : Error)
        → env.record_error_raises ≡ false
        → env.removing ≡ true
        → create_and_enqueue env kind id size n w ≡ (err e, w')
        → LeavesNothing id n w w'
    unfolding create_and_enqueue finish_create with_row
    create_and_enqueue-LeavesNothing e sound removes h = elim (create_row_cases env id n w fresh) [
      | inl raised ↦
          subst (LeavesNothing id n w)
            (ap (λ (p : Result × World J). p.1) (rw (raised, finish_create) at h))
            (cleanup-LeavesNothing env id n w removes)
      | inr row ↦ finish_enqueue-LeavesNothing _ e sound removes (rw (row, finish_create) at h)
    ]

    finish_enqueue_ok :
        (o : Option Scheduler) (m : ℕ)
        → finish_enqueue env id size with_row o ≡ (ok m, w')
        → (m ≡ size)
          × (o ≡ some w'.scheduler)
          × (w'.rows ≡ w.rows ++ new_row w.now id n ∷ [])
          × (w'.files ≡ w.files)
    unfolding finish_enqueue with_row
    finish_enqueue_ok none m h = cc
    finish_enqueue_ok (some q) m h = ground arith

    pub create_and_enqueue_ok :
        (m : ℕ)
        → create_and_enqueue env kind id size n w ≡ (ok m, w')
        → (m ≡ size)
          × (enqueue_task true kind id n.vip w.scheduler ≡ some w'.scheduler)
          × (w'.rows ≡ w.rows ++ new_row w.now id n ∷ [])
          × (w'.files ≡ w.files)
    unfolding create_and_enqueue finish_create with_row
    create_and_enqueue_ok m h = elim (create_row_cases env id n w fresh) [
      | inl raised ↦ cc (rw (raised, finish_create) at h)
      | inr row ↦ finish_enqueue_ok _ m (rw (row, finish_create) at h)
    ]
