-- ===== src/Tasks/Submission/Upload.antt =====
-- What an upload leaves behind, accepted or not.
use funasr_api.Prelude.{
  ℕ, zero, suc, ◌+◌, ◌≤◌, ◌≡◌, refl, ap, sym, ◌∙◌, subst, String, Bool, true, false, ◌⊎◌, inl, inr,
  Option, none, some, List, [], ◌∷◌, ◌++◌, arith,
}
use funasr_api.Prelude.Equality.{string_eq, beq_refl, contains, contains-add}
use funasr_api.TaskQueue.Registry.{task_key_eq, is_tracked}
use funasr_api.TaskQueue.Scheduler.{Scheduler, enqueue_task}
use funasr_api.TaskQueue.Scheduler.Startup.{enqueue_tracks}
use funasr_api.Tasks.Store.{OfflineTask, NewTask, new_row, get_by_id}
use funasr_api.Tasks.Submission.{
  Error, Result, ok, err, World, Surroundings, Saved, saved, oversize, broken, read_chunks,
  files_after, save_upload, finish_upload, submit_upload_task,
}
use funasr_api.Tasks.Submission.Compensation.{
  LeavesNothing, failed_row, cleanup-LeavesNothing, create_and_enqueue-LeavesNothing,
  create_and_enqueue_ok,
}

-- The bytes that come before the end of an upload, the first empty chunk.
unfoldable pub bytes_before_end : List (Option ℕ) → ℕ
bytes_before_end [] = 0
bytes_before_end (none ∷ chunks) = 0
bytes_before_end (some zero ∷ chunks) = 0
bytes_before_end (some (suc n) ∷ chunks) = suc n + bytes_before_end chunks

read_chunks_total :
    (max_size size : ℕ) (chunks : List (Option ℕ)) (n : ℕ)
    → read_chunks max_size size chunks ≡ saved n
    → n ≡ size + bytes_before_end chunks
unfolding read_chunks bytes_before_end
read_chunks_total max_size size [] n e = ground arith
read_chunks_total max_size size (none ∷ chunks) n e = cc
read_chunks_total max_size size (some zero ∷ chunks) n e = ground arith
read_chunks_total max_size size (some (suc k) ∷ chunks) n e =
    ground (arith, read_chunks_total max_size (size + suc k) chunks n)

read_chunks_le :
    (max_size size : ℕ) (chunks : List (Option ℕ)) (n : ℕ)
    → size ≤ max_size
    → read_chunks max_size size chunks ≡ saved n
    → n ≤ max_size
unfolding read_chunks
read_chunks_le max_size size [] n h e = ground arith
read_chunks_le max_size size (none ∷ chunks) n h e = cc
read_chunks_le max_size size (some zero ∷ chunks) n h e = ground arith
read_chunks_le max_size size (some (suc k) ∷ chunks) n h e =
    ground (arith, read_chunks_le max_size (size + suc k) chunks n)

-- A row of a task that has not begun, as it was submitted.
pub record IsSubmitted {J : Type 0} (id : String) (n : NewTask) (m : ℕ) (t : OfflineTask J)
    : Type 0 where
  pub row_id : t.id ≡ id
  pub status : t.status ≡ "pending"
  pub size : t.file_size ≡ some m
  pub filename : t.filename ≡ n.filename
  pub email : t.email ≡ n.email
  pub vip : t.vip ≡ n.vip
  pub hotwords : (t.hotwords ≡ n.hotwords) × (t.hotword_id ≡ n.hotword_id)
  pub present : t.is_deleted ≡ false
  pub not_begun : (t.started_at ≡ none) × (t.completed_at ≡ none) × (t.error_message ≡ none)

accepted_tracks :
    (kind id : String) (vip : Bool) (q q' : Scheduler)
    → enqueue_task true kind id vip q ≡ some q'
    → is_tracked (kind, id) q'.runtime.registry ≡ true
unfolding enqueue_task
accepted_tracks kind id vip q q' h = ground (arith, enqueue_tracks kind id vip q.runtime)

module _ {J : Type 0} (env : Surroundings) (kind id : String) (max_size : ℕ)
    (chunks : List (Option ℕ)) (n : NewTask) (w w' : World J)
    (fresh : get_by_id id w.rows ≡ none) where
  -- The world once the upload has been read, and the scheduler has gone on meanwhile.
  abbrev pub after_upload : World J
  after_upload = record w {
    files = (save_upload env.removing id max_size chunks w.files).1;
    scheduler = env.meanwhile w.scheduler;
  }

  failed_with :
      (end : Saved) (e : Error)
      → env.record_error_raises ≡ false
      → env.removing ≡ true
      → finish_upload env kind id n after_upload end ≡ (err e, w')
      → (size : ℕ) × LeavesNothing id (record n { file_size = some size }) after_upload w'
  unfolding finish_upload
  failed_with (saved size) e sound removes h = (
    size,
    create_and_enqueue-LeavesNothing env kind id size _ after_upload w' fresh e sound removes h,
  )
  failed_with oversize e sound removes h = (
    0,
    subst (LeavesNothing id _ after_upload) (ap (λ (p : Result × World J). p.1) h)
        (cleanup-LeavesNothing env id _ after_upload removes),
  )
  failed_with broken e sound removes h = (
    0,
    subst (LeavesNothing id _ after_upload) (ap (λ (p : Result × World J). p.1) h)
        (cleanup-LeavesNothing env id _ after_upload removes),
  )

  -- A submission that raises, for a new id, with the error recorded and the files removed as
  -- asked, leaves no temporary file of the id, adds nothing to the scheduler, and adds to the table at most one row, with the
  -- status `failed`: no start-up takes the task up again.
  pub failed_submission :
      (e : Error)
      → env.record_error_raises ≡ false
      → env.removing ≡ true
      → submit_upload_task env kind id max_size chunks n w ≡ (err e, w')
      → (contains id w'.files ≡ false)
        × (w'.scheduler ≡ env.meanwhile w.scheduler)
        × ((w'.rows ≡ w.rows)
            ⊎ ((t : OfflineTask J) × (w'.rows ≡ w.rows ++ t ∷ [])
                × (t.id ≡ id)
                × (t.status ≡ "failed")))
  unfolding submit_upload_task new_row
  failed_submission e sound removes h =
      let (size, left) =
        failed_with (read_chunks max_size 0 chunks) e sound removes (unfold save_upload in h) in
      (left.no_file, left.scheduler, rows_left size left.rows)
    where
      rows_left :
          (size : ℕ)
          → (w'.rows ≡ w.rows)
            ⊎ (w'.rows ≡ w.rows ++ failed_row w.now id (record n { file_size = some size }) ∷ [])
          → (w'.rows ≡ w.rows)
            ⊎ ((t : OfflineTask J) × (w'.rows ≡ w.rows ++ t ∷ [])
                × (t.id ≡ id)
                × (t.status ≡ "failed"))
      rows_left size (inl same) = inl same
      rows_left size (inr one) = inr (_, one, refl, refl)

  finished_with :
      (end : Saved) (m : ℕ)
      → finish_upload env kind id n after_upload end ≡ (ok m, w')
      → (end ≡ saved m)
        × (enqueue_task true kind id n.vip (env.meanwhile w.scheduler) ≡ some w'.scheduler)
        × (w'.rows ≡ w.rows ++ new_row w.now id (record n { file_size = some m }) ∷ [])
        × (w'.files ≡ after_upload.files)
  unfolding finish_upload
  finished_with (saved size) m h =
      let (same, queued, rows, files) =
        create_and_enqueue_ok env kind id size (record n { file_size = some size }) after_upload w'
          fresh m h in
      (
        ap saved (sym same),
        queued,
        rows
            ∙ ap (λ k. w.rows ++ new_row w.now id (record n { file_size = some k }) ∷ [])
                (sym same),
        files,
      )
  finished_with oversize m h = cc
  finished_with broken m h = cc

  -- A submission that is accepted, for a new id, returns the number of bytes before the end of
  -- the upload, which is within the limit; the file is kept under the id; one row is new, of this
  -- id, pending and not begun, with that size and the file name, address, VIP flag and hotwords
  -- submitted; and the scheduler tracks the task.
  pub accepted_submission :
      (m : ℕ)
      → submit_upload_task env kind id max_size chunks n w ≡ (ok m, w')
      → (m ≡ bytes_before_end chunks)
        × (m ≤ max_size)
        × (contains id w'.files ≡ true)
        × ((t : OfflineTask J) × (w'.rows ≡ w.rows ++ t ∷ []) × IsSubmitted id n m t)
        × (is_tracked (kind, id) w'.scheduler.runtime.registry ≡ true)
  unfolding submit_upload_task save_upload new_row
  accepted_submission m h =
      let (end, queued, rows, files) = finished_with (read_chunks max_size 0 chunks) m h in
      (
        omega (arith, read_chunks_total max_size 0 chunks m end),
        read_chunks_le max_size 0 chunks m (omega arith) end,
        ap (contains id) (files ∙ ap (λ s. files_after env.removing s id w.files) end)
            ∙ ground (arith, contains-add id id w.files, beq_refl id),
        (
          _,
          rows,
          record {
            row_id = refl;
            status = refl;
            size = refl;
            filename = refl;
            email = refl;
            vip = refl;
            hotwords = (refl, refl);
            present = refl;
            not_begun = (refl, refl, refl);
          },
        ),
        accepted_tracks kind id n.vip (env.meanwhile w.scheduler) w'.scheduler queued,
      )
