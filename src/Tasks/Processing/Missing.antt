-- ===== src/Tasks/Processing/Missing.antt =====
-- A task whose upload is gone (src/application/offline.py).
use funasr_api.Prelude.{◌≡◌, refl, String, false, none, some}
use funasr_api.Prelude.Equality.{string_eq}
use funasr_api.Tasks.Store.{
  OfflineTask, get_by_id, with_status, with_error, update_status, update_error,
}
use funasr_api.Tasks.Effects.{returned, raised}
use funasr_api.Tasks.Effects.Hooks.{run}
use funasr_api.Tasks.Files.{World, upload_at}
use funasr_api.Tasks.Flow.{resolve, no_audio_error}
use funasr_api.Tasks.Processing.{Calls, on_failure, handle_failure, try_task, process_task}
use funasr_api.Tasks.Processing.Rows.{Has, change-Has}

module _ {J : Type 0} (env : Calls J) (id : String) (task : OfflineTask J)
    (w : World (OfflineTask J)) (looks : env.looking_up ≡ none) (marks : env.marking ≡ none)
    (saves : env.saving_error ≡ none) (row : get_by_id id w.rows ≡ some task)
    (missing : upload_at (resolve env.platform id task.filename) w.uploads ≡ none) where
  abbrev marked : World (OfflineTask J)
  marked = record w { rows = (update_status w.now id "processing" w.rows).1 }

  try_missing :
      try_task env id task (resolve env.platform id task.filename) w
      ≡ (raised no_audio_error, marked)
  unfolding try_task upload_at
  try_missing = simp (try_task, marks, missing) refl

  -- A task without its upload, when the repository does not raise, fails with that as its error,
  -- and nothing is recognized, stored or removed.
  pub process_task_no_upload :
      ((process_task env id w).0 ≡ returned false)
      × Has id
          (λ t. (t.status ≡ "failed") × (t.error_message ≡ some no_audio_error))
          (process_task env id w).1.rows
      × ((process_task env id w).1.archive ≡ w.archive)
      × ((process_task env id w).1.uploads ≡ w.uploads)
      × ((process_task env id w).1.texts ≡ w.texts)
  unfolding process_task handle_failure run on_failure update_error update_status
  process_task_no_upload =
      let (found, there) =
        change-Has id (with_status w.now "processing") w.rows task row (λ u. refl) in
      let (found', there') =
        change-Has id (with_error w.now no_audio_error) marked.rows _ there (λ v. refl) in
      simp (process_task, looks, row, try_missing, handle_failure, run, on_failure, saves)
        (refl, (_, there', (refl, refl)), refl, refl, refl)
