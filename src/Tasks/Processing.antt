-- ===== src/Tasks/Processing.antt =====
-- The processing of an offline task: `OfflineTaskService.process_task` of src/application/offline.py
-- with src/application/task_flow.py, and the hooks on its result, of
-- src/task_queue/result_hooks.py and src/task_queue/hook_handlers.py.
pub mod Rows
pub mod Outcomes
pub mod Finished
pub mod Kept
pub mod Missing
use funasr_api.Prelude.{
  ℕ, String, Bool, true, false, ◌&&◌, not, Option, none, some, List, [], ◌∷◌, ◌++◌, if◌then◌else◌,
}
use funasr_api.Prelude.Equality.{◌==◌, string_eq}
use funasr_api.Tasks.Store.{
  OfflineTask, get_by_id, update_status, update_result, update_file_info, update_error,
}
use funasr_api.Tasks.Effects.{
  Outcome, returned, raised, Action, ◌>>=◌, ◌>>◌, pure, raise, modify, attempt, otherwise,
}
use funasr_api.Tasks.Effects.Hooks.{run}
use funasr_api.Tasks.Flow.{no_audio_error, resolve, on_rows, require_audio_file, raise_error}
use funasr_api.Tasks.Files.{
  AudioPath, Upload, StoredFileResult, TaskContext, World, Platform, is_given, upload_at,
  remove_upload,
}
use funasr_api.Tasks.Archive.{or_empty, handle_complete}

-- A recognition result, with the values of `build_offline_persistence_payload`: the segments, their
-- word time stamps and the processing time are values that are only stored.
pub record Recognition (J : Type 0) : Type 0 where
  pub error : Option String
  pub full_text : Option String
  pub segments : J
  pub word_timestamps : J
  pub processing_time : J

-- How the calls of the processing end: the exceptions of the repository, of the hotwords and of
-- the result file, the answer of the recognition service, and whether the temporary store of the
-- cleanup hook is there and removes what it is asked to (it ignores errors).
pub record Calls (J : Type 0) : Type 0 where
  pub platform : Platform
  pub looking_up : Option String
  pub marking : Option String
  pub loading_hotwords : Option String
  pub recognizing : Outcome (Recognition J)
  pub writing_text : Option String
  pub saving_result : Option String
  pub saving_file_info : Option String
  pub saving_error : Option String
  pub has_temp_store : Bool
  pub removing : Bool

pub data Hook : Type 0 where
  audio_backup text_result_file result_persistence temp_cleanup : Hook

abbrev pub critical : Hook → Bool
critical temp_cleanup = false
critical h = true

-- `OfflineTaskResultHandler.from_services`
abbrev pub hooks : List Hook
hooks = audio_backup ∷ text_result_file ∷ result_persistence ∷ temp_cleanup ∷ []

abbrev pub missing_error : String
missing_error = "任务不存在，无法保存识别结果"

-- Every upload of a task: `LocalTempFileStore.cleanup` removes its directory.
unfoldable pub remove_uploads : String → List Upload → List Upload
remove_uploads task_id [] = []
remove_uploads task_id (u ∷ us) =
    let rest = remove_uploads task_id us in if u.path.task_id == task_id then rest else u ∷ rest

abbrev pub new_context : String → String → AudioPath → TaskContext
new_context task_id filename path = record {
  task_id = task_id;
  filename = filename;
  audio_path = path;
  email = none;
  backup_key = none;
  text_result_path = none;
}

module _ {J : Type 0} where
  abbrev pub change_context :
      (TaskContext → TaskContext) → Action (World (OfflineTask J)) (Unit {0})
  change_context f = modify λ w. record w { context = f w.context }

  -- `AudioBackupHook.on_success` once the file has been handled.
  abbrev pub record_backup :
      Calls J → String → Option StoredFileResult → Action (World (OfflineTask J)) (Unit {0})
  record_backup env task_id none = pure tt
  record_backup env task_id (some stored) = do
    change_context (λ c. record c { backup_key = some stored.s3_key })
    attempt env.saving_file_info
    on_rows (update_file_info task_id (some stored.s3_key) (some stored.file_sha256))
    pure tt

  -- `AudioBackupHook.on_success`
  unfoldable pub backup_audio : Calls J → Action (World (OfflineTask J)) (Unit {0})
  backup_audio env w =
      (do
        stored ←
            handle_complete env.platform w.context.audio_path w.context.task_id w.context.filename
              "offline" w.context.email false
        record_backup env w.context.task_id stored)
        w

  -- `TextResultFileHook.on_success`; the path stands for the name of the file.
  unfoldable pub write_text_file :
      Calls J → Recognition J → Action (World (OfflineTask J)) (Unit {0})
  write_text_file env result w =
      (do
        attempt env.writing_text
        modify (λ v. record v { texts = (w.context.task_id, or_empty result.full_text) ∷ v.texts })
        change_context (λ c. record c { text_result_path = some w.context.task_id }))
        w

  abbrev pub saved_or_raise : Option (OfflineTask J) → Action (World (OfflineTask J)) (Unit {0})
  saved_or_raise none = raise missing_error
  saved_or_raise (some t) = pure tt

  -- `ResultPersistenceHook.on_success`
  unfoldable pub save_result : Calls J → Recognition J → Action (World (OfflineTask J)) (Unit {0})
  save_result env result w =
      (do
        attempt env.saving_result
        saved ← on_rows (
            update_result w.now w.context.task_id (or_empty result.full_text) result.segments
              result.processing_time (some result.word_timestamps))
        saved_or_raise saved)
        w

  -- `TempCleanupHook.on_success`, with `_cleanup_path` where it has no store.
  unfoldable pub clean_temp : Calls J → Action (World (OfflineTask J)) (Unit {0})
  unfolding remove_uploads remove_upload
  clean_temp env w =
      if not (is_given w.context.backup_key)
      then (returned tt, w)
      else if not env.removing
      then (returned tt, w)
      else if env.has_temp_store
      then (returned tt, record w { uploads = remove_uploads w.context.task_id w.uploads })
      else (returned tt, record w { uploads = remove_upload w.context.audio_path w.uploads })

  -- `on_success` of a hook
  unfoldable pub on_success :
      Calls J → Recognition J → Hook → Action (World (OfflineTask J)) (Unit {0})
  unfolding backup_audio write_text_file save_result clean_temp
  on_success env result audio_backup = backup_audio env
  on_success env result text_result_file = write_text_file env result
  on_success env result result_persistence = save_result env result
  on_success env result temp_cleanup = clean_temp env

  -- `on_failure` of a hook: only the persistence hook has one.
  unfoldable pub on_failure : Calls J → String → Hook → Action (World (OfflineTask J)) (Unit {0})
  unfolding update_error
  on_failure env error_message result_persistence w =
      (do
        attempt env.saving_error
        on_rows (update_error w.now w.context.task_id error_message)
        pure tt)
        w
  on_failure env error_message h w = (returned tt, w)

  -- `handle_success`
  unfoldable pub handle_success :
      Calls J → Recognition J → Action (World (OfflineTask J)) (Unit {0})
  unfolding run on_success
  handle_success env result = run critical (on_success env result) true hooks

  -- `handle_failure`
  unfoldable pub handle_failure : Calls J → String → Action (World (OfflineTask J)) (Unit {0})
  unfolding run on_failure
  handle_failure env error_message = run critical (on_failure env error_message) false hooks

  -- The body of the `try` of `process_task` up to the hotwords,
  abbrev pub start_task : Calls J → String → AudioPath → Action (World (OfflineTask J)) (Unit {0})
  start_task env task_id path w =
      (do
        attempt env.marking
        on_rows (update_status w.now task_id "processing")
        require_audio_file path
        attempt env.loading_hotwords)
        w

  -- from the recognition on,
  abbrev pub finish_task :
      Calls J → Outcome (Recognition J) → Action (World (OfflineTask J)) (Unit {0})
  finish_task env (raised e) = raise e
  finish_task env (returned result) = do raise_error result.error; handle_success env result

  -- and as a whole.
  unfoldable pub try_task :
      Calls J → String → OfflineTask J → AudioPath → Action (World (OfflineTask J)) (Unit {0})
  unfolding handle_success
  try_task env task_id task path = do
    start_task env task_id path
    change_context (λ c. record (new_context task_id task.filename path) { email = task.email })
    finish_task env env.recognizing

  -- What `process_task` returns by the way its `try` has ended.
  abbrev pub end_task :
      Calls J
      → String
      → OfflineTask J
      → AudioPath
      → Outcome (Unit {0}) × World (OfflineTask J)
      → Outcome Bool × World (OfflineTask J)
  end_task env task_id task path (returned u, w) = (returned true, w)
  end_task env task_id task path (raised e, w) =
      (do
        change_context (λ c. new_context task_id task.filename path)
        handle_failure env e
        pure false)
        w

  -- `OfflineTaskService.process_task`
  unfoldable pub process_task : Calls J → String → Action (World (OfflineTask J)) Bool
  unfolding try_task handle_failure
  process_task env task_id w = elim (env.looking_up) [
    | some e ↦ (raised e, w)
    | none ↦ elim (get_by_id task_id w.rows) [
      | none ↦ (returned false, w)
      | some task ↦
          let path = resolve env.platform task_id task.filename in
          end_task env task_id task path (try_task env task_id task path w)
    ]
  ]
