-- ===== src/Tasks/Diarization.antt =====
-- `SpkTaskService.process_task` of src/application/speaker.py: the processing of a speaker task.
pub mod Finish
use funasr_api.Prelude.{String, Bool, true, false, Option, none, some, List, [], ◌∷◌, if◌then◌else◌}
use funasr_api.Prelude.Equality.{◌==◌, string_eq}
use funasr_api.Tasks.Effects.{Outcome, returned, raised, Action, ◌>>=◌, ◌>>◌, pure, raise, attempt}
use funasr_api.Tasks.Files.{AudioPath, StoredFileResult, World, Platform}
use funasr_api.Tasks.Archive.{handle_complete}
use funasr_api.Tasks.Flow.{resolve, on_rows, require_audio_file, raise_error}
use funasr_api.Tasks.Processing.{remove_uploads}
use funasr_api.Tasks.SpeakerStore.{
  SpkTask, Diarized, get_spk, update_spk_status, update_spk_result, update_spk_error,
}

-- What the speaker service answers: its error, its dictionary and the time that has passed.
pub record Answer (J : Type 0) : Type 0 where
  pub error : Option String
  pub diarized : Diarized J
  pub processing_time : J

-- How the calls of the processing end, as in `Calls` of an offline task.
pub record SpkCalls (J : Type 0) : Type 0 where
  pub platform : Platform
  pub looking_up : Option String
  pub marking : Option String
  pub diarizing : Outcome (Answer J)
  pub saving_result : Option String
  pub saving_error : Option String
  pub removing : Bool

module _ {J : Type 0} where
  -- `temp_file_store.cleanup`, which ignores errors.
  unfoldable pub clean_uploads : SpkCalls J → String → Action (World (SpkTask J)) (Unit {0})
  unfolding remove_uploads
  clean_uploads env task_id w =
      if env.removing
      then (returned tt, record w { uploads = remove_uploads task_id w.uploads })
      else (returned tt, w)

  -- The end of the `try`: the result is saved, and then the upload removed if it is archived.
  unfoldable pub save_diarization :
      SpkCalls J
      → String
      → Answer J
      → Option StoredFileResult
      → Action (World (SpkTask J)) (Unit {0})
  unfolding update_spk_result clean_uploads
  save_diarization env task_id a none w =
      (do
        attempt env.saving_result
        on_rows (update_spk_result w.now task_id a.diarized a.processing_time none none)
        pure tt)
        w
  save_diarization env task_id a (some stored) w =
      (do
        attempt env.saving_result
        on_rows (
            update_spk_result w.now task_id a.diarized a.processing_time (some stored.s3_key)
              (some stored.file_sha256))
        clean_uploads env task_id)
        w

  abbrev pub begin_diarization :
      SpkCalls J → String → AudioPath → Action (World (SpkTask J)) (Unit {0})
  begin_diarization env task_id path w =
      (do
        require_audio_file path
        attempt env.marking
        on_rows (update_spk_status w.now task_id "processing")
        pure tt)
        w

  abbrev pub finish_diarization :
      SpkCalls J
      → String
      → SpkTask J
      → AudioPath
      → Outcome (Answer J)
      → Action (World (SpkTask J)) (Unit {0})
  finish_diarization env task_id task path (raised e) = raise e
  finish_diarization env task_id task path (returned a) = do
    raise_error a.error
    stored ← handle_complete env.platform path task_id task.filename "spk" task.email false
    save_diarization env task_id a stored

  -- The body of the `try` of `process_task`.
  unfoldable pub try_diarization :
      SpkCalls J → String → SpkTask J → AudioPath → Action (World (SpkTask J)) (Unit {0})
  unfolding update_spk_status handle_complete save_diarization
  try_diarization env task_id task path = do
    begin_diarization env task_id path
    finish_diarization env task_id task path env.diarizing

  -- What `process_task` returns; recording the error may raise.
  abbrev pub end_diarization :
      SpkCalls J
      → String
      → Outcome (Unit {0}) × World (SpkTask J)
      → Outcome Bool × World (SpkTask J)
  end_diarization env task_id (returned u, w) = (returned true, w)
  end_diarization env task_id (raised e, w) =
      (do attempt env.saving_error; on_rows (update_spk_error w.now task_id e); pure false) w

  -- `SpkTaskService.process_task`
  unfoldable pub process_spk_task : SpkCalls J → String → Action (World (SpkTask J)) Bool
  unfolding get_spk try_diarization update_spk_error
  process_spk_task env task_id w = elim (env.looking_up) [
    | some e ↦ (raised e, w)
    | none ↦ elim (get_spk task_id w.rows) [
      | none ↦ (returned false, w)
      | some task ↦
          let path = resolve env.platform task_id task.filename in
          end_diarization env task_id (try_diarization env task_id task path w)
    ]
  ]
