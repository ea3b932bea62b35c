-- ===== src/Tasks/Processing/Kept.antt =====
-- The processing of an offline task from its row and its upload to the end
-- (src/application/offline.py).
use funasr_api.Prelude.{
  ◌≡◌, refl, String, Bool, true, false, ◌⊎◌, inl, inr, Option, none, some, Bool-cases, Option-cases,
}
use funasr_api.Prelude.Equality.{◌==◌, string_eq}
use funasr_api.Tasks.Store.{
  OfflineTask, get_by_id, with_status, with_error, update_status, update_error,
}
use funasr_api.Tasks.Effects.{Outcome, returned, raised, pure, continue_with}
use funasr_api.Tasks.Effects.Hooks.{run}
use funasr_api.Tasks.Files.{AudioPath, World, upload_at}
use funasr_api.Tasks.Archive.Index.{IndexIsSound, KeysAreNew, HashIsInjective}
use funasr_api.Tasks.Flow.{raise_error, resolve}
use funasr_api.Tasks.Processing.{
  Recognition, Calls, handle_success, on_failure, handle_failure, new_context, start_task,
  finish_task, try_task, end_task, process_task,
}
use funasr_api.Tasks.Processing.Rows.{Has, change-Has}
use funasr_api.Tasks.Processing.Finished.{IsWaiting, IsKept, Final, handle_success-Final}

module _ {J : Type 0} (env : Calls J) (id : String) (path : AudioPath) (c : String) where
  raise_error_cases :
      (error : Option String) (w : World (OfflineTask J))
      → (raise_error error w ≡ (returned tt, w))
        ⊎ ((m : String) × (raise_error error w ≡ (raised m, w)))
  raise_error_cases none w = inl refl
  raise_error_cases (some e) w = elim (Bool-cases (e == "")) [
    | inl h ↦ inl (rw h refl)
    | inr h ↦ inr (e, rw h refl)
  ]

  module _ (task : OfflineTask J) (w : World (OfflineTask J))
      (sound : IndexIsSound env.platform.sha256 w.archive w.index)
      (new : KeysAreNew env.platform w.archive) (injective : HashIsInjective env.platform)
      (row : get_by_id id w.rows ≡ some task) (upload : upload_at path w.uploads ≡ some c) where
    -- How the `try` of `process_task` ends.
    abbrev Tried : Outcome (Unit {0}) × World (OfflineTask J) → Type 0
    Tried (returned u, v) =
        (result : Recognition J) × (env.recognizing ≡ returned result)
        × IsKept env id path c result v
    Tried (raised e, v) = IsWaiting env id path c v

    of_Final :
        (result : Recognition J) (r : Outcome (Unit {0}) × World (OfflineTask J))
        → env.recognizing ≡ returned result
        → Final env id path c result r
        → Tried r
    of_Final result (returned u, v) e f = (result, e, f)
    of_Final result (raised m, v) e f = f

    -- The world when recognition begins.
    abbrev started : World (OfflineTask J)
    started = record w {
      rows = (update_status w.now id "processing" w.rows).1;
      context = record (new_context id task.filename path) { email = task.email };
    }

    started_row : Has id (λ t. Unit) started.rows
    unfolding update_status
    started_row =
        let (found, there) =
          change-Has id (with_status w.now "processing") w.rows task row (λ u. refl) in
        (_, there, tt)

    recognized :
        (result : Recognition J)
        → env.recognizing ≡ returned result
        → Tried (continue_with (raise_error result.error started) λ u. handle_success env result)
    recognized result e = elim (raise_error_cases result.error started) [
      | inl r ↦ rw r (
          of_Final result _ e (
            handle_success-Final env id path c result started sound new injective
              (record { task = refl; file = refl; row = started_row; upload = upload })))
      | inr (m, r) ↦ rw r (upload, started_row)
    ]

    -- The start raises with all in place, or leads to recognition.
    start_cases :
        (start_task env id path w ≡ (returned tt, record w { rows = started.rows }))
        ⊎ ((m : String) × (v : World (OfflineTask J)) × (start_task env id path w ≡ (raised m, v))
            × IsWaiting env id path c v)
    unfolding upload_at
    start_cases = elim (Option-cases env.marking) [
      | inr (m, e) ↦ inr (m, w, simp e refl, (upload, (task, row, tt)))
      | inl e ↦ elim (Option-cases env.loading_hotwords) [
        | inr (m, h) ↦
            inr
              (m, record w { rows = started.rows }, simp (e, upload, h) refl, (upload, started_row))
        | inl h ↦ inl (simp (e, upload, h) refl)
      ]
    ]

    finished :
        (o : Outcome (Recognition J)) → env.recognizing ≡ o → Tried (finish_task env o started)
    finished (raised m) e = (upload, started_row)
    finished (returned result) e = recognized result e

    try_task-Tried : Tried (try_task env id task path w)
    unfolding try_task
    try_task-Tried = elim start_cases [
      | inl e ↦ rw (try_task, e) (finished env.recognizing refl)
      | inr (m, v, e, waiting) ↦ rw (try_task, e) waiting
    ]

  -- The row has failed, unless the repository has raised.
  abbrev pub IsFailed : World (OfflineTask J) → Type 0
  IsFailed w =
      Has id (λ t. t.status ≡ "failed") w.rows ⊎ ((m : String) × (env.saving_error ≡ some m))

  handle_failure-IsFailed :
      (e : String) (w : World (OfflineTask J))
      → w.context.task_id ≡ id
      → IsWaiting env id path c w
      → ((handle_failure env e w).0 ≡ returned tt)
        × (upload_at path (handle_failure env e w).1.uploads ≡ some c)
        × IsFailed (handle_failure env e w).1
  unfolding handle_failure run on_failure update_error
  handle_failure-IsFailed e w same (upload, (t, has, u)) = elim (Option-cases env.saving_error) [
    | inr (m, h) ↦ simp (handle_failure, run, on_failure, h) (refl, upload, inr (m, refl))
    | inl h ↦
        let (found, there) = change-Has id (with_error w.now e) w.rows t has (λ v. refl) in
        simp (handle_failure, run, on_failure, h, same) (refl, upload, inl (_, there, refl))
  ]

  -- How the processing of a task with its row and its upload ends.
  abbrev pub Processed : Outcome Bool × World (OfflineTask J) → Type 0
  Processed (returned true, w) =
      (result : Recognition J) × (env.recognizing ≡ returned result) × IsKept env id path c result w
  Processed (returned false, w) = (upload_at path w.uploads ≡ some c) × IsFailed w
  Processed (raised e, w) = (upload_at path w.uploads ≡ some c) × (env.looking_up ≡ some e)

  failed-Processed :
      (task : OfflineTask J) (r : Outcome (Unit {0}) × World (OfflineTask J))
      → ((r.0 ≡ returned tt) × (upload_at path r.1.uploads ≡ some c) × IsFailed r.1)
      → Processed (continue_with r λ u. pure false)
  failed-Processed task (returned u, w) (e, h, f) = (h, f)
  failed-Processed task (raised m, w) (e, h, f) = cc e

  end_task-Processed :
      (task : OfflineTask J) (w : World (OfflineTask J))
      (sound : IndexIsSound env.platform.sha256 w.archive w.index)
      (new : KeysAreNew env.platform w.archive) (injective : HashIsInjective env.platform)
      (row : get_by_id id w.rows ≡ some task) (upload : upload_at path w.uploads ≡ some c)
      (r : Outcome (Unit {0}) × World (OfflineTask J))
      → Tried task w sound new injective row upload r
      → Processed (end_task env id task path r)
  end_task-Processed task w sound new injective row upload (returned u, v) k = k
  end_task-Processed task w sound new injective row upload (raised e, v) k =
      failed-Processed task
        (handle_failure env e (record v { context = new_context id task.filename path }))
        (handle_failure-IsFailed e _ refl k)

-- With an index that tells the truth, new keys from the store and no collision of hashes, the
-- processing of a task that has its row and its upload raises only what the repository has raised
-- when it looked the task up, and then the upload is where it was. If it returns true, the
-- upload lies in the archive under the key of the row, the row is completed, and the row and
-- the text file have the text that recognition has returned; if it returns false, the
-- upload is where it was, and the row has failed or the repository has raised on the error.
pub process_task-Processed :
    {J : Type 0} (env : Calls J) (id c : String) (task : OfflineTask J) (w : World (OfflineTask J))
    → IndexIsSound env.platform.sha256 w.archive w.index
    → KeysAreNew env.platform w.archive
    → HashIsInjective env.platform
    → get_by_id id w.rows ≡ some task
    → upload_at (resolve env.platform id task.filename) w.uploads ≡ some c
    → Processed env id (resolve env.platform id task.filename) c (process_task env id w)
unfolding process_task
process_task-Processed env id c task w sound new injective row upload =
    let path = resolve env.platform id task.filename in
    elim (Option-cases env.looking_up) [
      | inr (m, e) ↦ simp (process_task, e) (upload, refl)
      | inl e ↦
          simp (process_task, e, row)
            (end_task-Processed env id path c task w sound new injective row upload _
              (try_task-Tried env id path c task w sound new injective row upload))
    ]
