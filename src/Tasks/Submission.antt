-- ===== src/Tasks/Submission.antt =====
-- src/application/tasks.py, with the temporary files of
-- src/core/infrastructure_adapters/temp_files.py: an upload or an archived file becomes a task.
-- A request that is cancelled while it waits skips the compensation, and is not modelled.
pub mod Compensation
pub mod Upload
use funasr_api.Prelude.{
  ℕ, zero, suc, ◌+◌, String, Bool, true, false, ◌&&◌, ◌||◌, not, Option, none, some, List, [], ◌∷◌,
  ltb, if◌then◌else◌,
}
use funasr_api.Prelude.Equality.{◌==◌, string_eq, add, discard}
use funasr_api.TaskQueue.Scheduler.{Scheduler, can_accept, enqueue_task}
use funasr_api.Tasks.Store.{OfflineTask, NewTask, get_by_id, create, update_error}

pub data Error : Type 0 where
  unavailable too_large storage database invalid_hotwords not_found conflict ambiguous restore :
      Error

-- The size of the file of an accepted task, or the exception.
pub data Result : Type 0 where
  ok : ℕ → Result
  err : Error → Result

-- The database rows of one kind of task, the ids that have a directory of temporary files, the
-- scheduler and the clock.
pub record World (J : Type 0) : Type 0 where
  pub rows : List (OfflineTask J)
  pub files : List String
  pub scheduler : Scheduler
  pub now : ℕ

-- What the surroundings do during a request: which calls of the repository raise, whether
-- temporary files can be removed (no error of it is reported), and what other coroutines make of the scheduler while the request waits for its file.
pub record Surroundings : Type 0 where
  pub create_raises : Bool
  pub record_error_raises : Bool
  pub removing : Bool
  pub meanwhile : Scheduler → Scheduler

-- How the reading of an upload ends.
pub data Saved : Type 0 where
  saved : ℕ → Saved
  oversize : Saved
  broken : Saved

-- The loop of `save_upload` over the sizes of the chunks; an empty chunk ends the upload, and
-- `none` is a read or a write that raises.
unfoldable pub read_chunks : ℕ → ℕ → List (Option ℕ) → Saved
read_chunks max_size file_size [] = saved file_size
read_chunks max_size file_size (none ∷ chunks) = broken
read_chunks max_size file_size (some zero ∷ chunks) = saved file_size
read_chunks max_size file_size (some (suc n) ∷ chunks) =
    let rest = read_chunks max_size (file_size + suc n) chunks in
    if ltb max_size (file_size + suc n) then oversize else rest

-- The directory that is left: none after an oversized upload that could be removed.
abbrev files_after : Bool → Saved → String → List String → List String
files_after true oversize task_id files = discard task_id files
files_after _ _ task_id files = add task_id files

unfoldable pub save_upload : Bool → String → ℕ → List (Option ℕ) → List String → Saved × List String
unfolding read_chunks
save_upload removing task_id max_size chunks files =
    let end = read_chunks max_size 0 chunks in (end, files_after removing end task_id files)

abbrev submission_error : String
submission_error = "Task submission failed before queue scheduling"

module _ {J : Type 0} where
  -- `temp_file_store.cleanup`, which ignores errors: the files may stay.
  unfoldable pub cleanup : Surroundings → String → World J → World J
  cleanup env task_id w = if env.removing then record w { files = discard task_id w.files } else w

  -- The end of `_compensate_failed_submission`, by what `record_error` has returned.
  settle_error :
      Surroundings → String → Option (OfflineTask J) × List (OfflineTask J) → World J → World J
  settle_error env task_id (none, rows) w = w
  settle_error env task_id (some t, rows) w = cleanup env task_id (record w { rows = rows })

  -- `_compensate_failed_submission`
  unfoldable pub compensate_failed_submission : Surroundings → String → Bool → World J → World J
  unfolding settle_error cleanup
  compensate_failed_submission env task_id task_created w =
      if not task_created
      then cleanup env task_id w
      else if env.record_error_raises
      then w
      else settle_error env task_id (update_error w.now task_id submission_error w.rows) w

  abbrev create_row :
      Surroundings → String → NewTask → World J → Option (OfflineTask J × List (OfflineTask J))
  create_row env task_id n w = if env.create_raises then none else create w.now task_id n w.rows

  -- `enqueue`, and the compensation where it raises.
  finish_enqueue : Surroundings → String → ℕ → World J → Option Scheduler → Result × World J
  finish_enqueue env task_id file_size w none =
      (err unavailable, compensate_failed_submission env task_id true w)
  finish_enqueue env task_id file_size w (some q) = (ok file_size, record w { scheduler = q })

  -- The second half of either submission: the row, and then the queue.
  finish_create :
      Surroundings
      → String
      → String
      → ℕ
      → Bool
      → World J
      → Option (OfflineTask J × List (OfflineTask J))
      → Result × World J
  unfolding finish_enqueue
  finish_create env kind task_id file_size vip w none =
      (err database, compensate_failed_submission env task_id false w)
  finish_create env kind task_id file_size vip w (some (t, rows)) =
      finish_enqueue env task_id file_size (record w { rows = rows })
        (enqueue_task true kind task_id vip w.scheduler)

  unfoldable pub create_and_enqueue :
      Surroundings → String → String → ℕ → NewTask → World J → Result × World J
  unfolding finish_create compensate_failed_submission
  create_and_enqueue env kind task_id file_size n w =
      finish_create env kind task_id file_size n.vip w (create_row env task_id n w)

  -- `_submit_upload_task` once the upload has been read.
  finish_upload : Surroundings → String → String → NewTask → World J → Saved → Result × World J
  finish_upload env kind task_id n w (saved file_size) =
      create_and_enqueue env kind task_id file_size (record n { file_size = some file_size }) w
  finish_upload env kind task_id n w oversize =
      (err too_large, compensate_failed_submission env task_id false w)
  finish_upload env kind task_id n w broken =
      (err storage, compensate_failed_submission env task_id false w)

  -- `_submit_upload_task`
  unfoldable pub submit_upload_task :
      Surroundings → String → String → ℕ → List (Option ℕ) → NewTask → World J → Result × World J
  unfolding finish_upload create_and_enqueue
  submit_upload_task env kind task_id max_file_size chunks n w =
      let (end, files) = save_upload env.removing task_id max_file_size chunks w.files in
      finish_upload env kind task_id n
        (record w { files = files; scheduler = env.meanwhile w.scheduler }) end
