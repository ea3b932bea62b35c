-- ===== src/Tests/Submissions.antt =====
-- The table and the submission service at concrete inputs.
use funasr_api.Prelude.{
  ℕ, ◌≤◌, ◌≡◌, refl, ◌⊎◌, String, true, false, none, some, List, [], ◌∷◌, ◌++◌, All, min, length,
}
use mathlib.Core.List.{Perm}
use funasr_api.Prelude.Int.{pos}
use funasr_api.Prelude.Equality.{◌==◌, string_eq, contains}
use funasr_api.TaskQueue.Registry.{is_tracked}
use funasr_api.TaskQueue.Workers.{new_runtime, start}
use funasr_api.TaskQueue.Scheduler.{Scheduler, can_accept}
use funasr_api.Tasks.Store.{
  OfflineTask, NewTask, is_status, new_row, get_by_id, get_pending_tasks, recover_stale_processing,
}
use funasr_api.Tasks.Store.Pending.{only_pending, IsInOrder, get_pending_tasks_lem}
use funasr_api.Tasks.Store.Lifecycle.{
  creates, sets_status, recovers, run_calls, IsTimed, run_calls-IsTimed, Recovered, All₂,
  recover_stale_processing-Recovered,
}
use funasr_api.Tasks.Submission.{
  Error, Result, ok, err, unavailable, World, Surroundings, submit_upload_task,
}
use funasr_api.Tasks.Submission.Upload.{
  IsSubmitted, bytes_before_end, failed_submission, accepted_submission,
}
use funasr_api.Tasks.Requests.{Archive, restored, Overrides, rerecognize_offline}
use funasr_api.Tasks.Requests.Rerecognition.{IsAccepted, rerecognize_offline-IsAccepted}

abbrev upload : NewTask
upload = record {
  filename = "talk.wav";
  file_size = none;
  email = none;
  hotwords = none;
  hotword_id = none;
  vip = false;
  source_task_id = none;
  s3_key = none;
  file_hash = none;
}

abbrev row : OfflineTask ℕ
row = new_row 10 "a" upload

abbrev processing : OfflineTask ℕ
processing = record row { status = "processing"; started_at = some 20 }

abbrev archived : OfflineTask ℕ
archived = record row {
  status = "completed";
  completed_at = some 30;
  s3_key = some "k";
  file_hash = some "h";
}

get_pending_tasks_lem_example :
    (left : List (OfflineTask ℕ)) × Perm
      (get_pending_tasks 1 (row ∷ processing ∷ []) ++ left)
      (only_pending (row ∷ processing ∷ []))
    × IsInOrder (get_pending_tasks 1 (row ∷ processing ∷ []) ++ left)
    × (length (get_pending_tasks 1 (row ∷ processing ∷ []))
        ≡ min 1 (length (only_pending (row ∷ processing ∷ []))))
get_pending_tasks_lem_example = get_pending_tasks_lem 1 (row ∷ processing ∷ [])

run_calls-IsTimed_example : All IsTimed (
    run_calls {J = ℕ}
      (creates 10 "a" upload ∷ sets_status 20 "a" "processing" ∷ recovers 5000 (pos 3600) ∷ [])
      [])
run_calls-IsTimed_example =
    run_calls-IsTimed {J = ℕ}
      (creates 10 "a" upload ∷ sets_status 20 "a" "processing" ∷ recovers 5000 (pos 3600) ∷ []) []
      tt

recover_stale_processing-Recovered_example :
    All₂
      (Recovered 5000 (pos 3600))
      (processing ∷ record processing { started_at = some 4000 } ∷ row ∷ [])
      (recover_stale_processing 5000
        (pos 3600)
        (processing ∷ record processing { started_at = some 4000 } ∷ row ∷ [])).1
recover_stale_processing-Recovered_example =
    recover_stale_processing-Recovered 5000 (pos 3600)
      (processing ∷ record processing { started_at = some 4000 } ∷ row ∷ [])

abbrev open_queue : Scheduler
open_queue = record {
  enabled = true;
  max_concurrent = 1;
  has_task_service = true;
  has_spk_task_service = false;
  runtime = start 1 new_runtime;
}

-- The queue is stopped while the upload is read.
abbrev closing : Surroundings
closing = record {
  create_raises = false;
  record_error_raises = false;
  removing = true;
  meanwhile = λ q. record q { runtime = record (q.runtime) { running = false } };
}

abbrev calm : Surroundings
calm = record {
  create_raises = false;
  record_error_raises = false;
  removing = true;
  meanwhile = λ q. q;
}

abbrev world : World ℕ
world = record { rows = archived ∷ []; files = []; scheduler = open_queue; now = 40 }

abbrev refused : Result × World ℕ
refused = submit_upload_task closing "offline" "b" 100 (some 60 ∷ some 30 ∷ []) upload world

is_refused : refused ≡ (err unavailable, refused.1)
unfolding submit_upload_task funasr_api.Tasks.Submission.save_upload funasr_api.Tasks.Store.create
    funasr_api.TaskQueue.Scheduler.enqueue_task
is_refused = refl

is_new : get_by_id "b" world.rows ≡ none
unfolding get_by_id new_row
is_new = refl

failed_submission_example :
    (contains "b" refused.1.files ≡ false)
    × (refused.1.scheduler ≡ closing.meanwhile world.scheduler)
    × ((refused.1.rows ≡ world.rows)
        ⊎ ((t : OfflineTask ℕ) × (refused.1.rows ≡ world.rows ++ t ∷ [])
            × (t.id ≡ "b")
            × (t.status ≡ "failed")))
failed_submission_example =
    failed_submission closing "offline" "b" 100 (some 60 ∷ some 30 ∷ []) upload world refused.1
      is_new unavailable refl refl is_refused

abbrev accepted : Result × World ℕ
accepted = submit_upload_task calm "offline" "b" 100 (some 60 ∷ some 30 ∷ []) upload world

is_accepted : accepted ≡ (ok 90, accepted.1)
unfolding submit_upload_task funasr_api.Tasks.Submission.save_upload funasr_api.Tasks.Store.create
    funasr_api.TaskQueue.Scheduler.enqueue_task start
is_accepted = refl

accepted_submission_example :
    (90 ≡ bytes_before_end (some 60 ∷ some 30 ∷ []))
    × (90 ≤ 100)
    × (contains "b" accepted.1.files ≡ true)
    × ((t : OfflineTask ℕ) × (accepted.1.rows ≡ world.rows ++ t ∷ []) × IsSubmitted "b" upload 90 t)
    × (is_tracked ("offline", "b") accepted.1.scheduler.runtime.registry ≡ true)
accepted_submission_example =
    accepted_submission calm "offline" "b" 100 (some 60 ∷ some 30 ∷ []) upload world accepted.1
      is_new 90 is_accepted

abbrev archive : Archive
archive = record { can_restore = true; answer = restored 70 "h" }

abbrev overrides : Overrides
overrides = record { email = none; vip = some true; hotwords = none; hotword_id = some 3 }

abbrev again : Result × World ℕ
again = rerecognize_offline (λ t. true) (λ s t. s == t) calm archive "c" 100 "a" overrides world

is_again : again ≡ (ok 70, again.1)
unfolding rerecognize_offline can_accept start get_by_id new_row funasr_api.Tasks.Store.create
    funasr_api.TaskQueue.Scheduler.enqueue_task
is_again = refl

is_new_again : get_by_id "c" world.rows ≡ none
unfolding get_by_id new_row
is_new_again = refl

rerecognize_offline-IsAccepted_example :
    (t : OfflineTask ℕ) × (digest : String) × IsAccepted
      (λ t. true)
      (λ s t. s == t)
      calm
      archive
      "c"
      100
      overrides
      world
      again.1
      is_new_again
      "a"
      70
      t
      digest
rerecognize_offline-IsAccepted_example =
    rerecognize_offline-IsAccepted (λ t. true) (λ s t. s == t) calm archive "c" 100 overrides world
      again.1 is_new_again "a" 70 is_again
