-- ===== src/Tasks/Requests.antt =====
-- The entry points of `TaskSubmissionService` (src/application/tasks.py): submission, and
-- rerecognition of a task whose audio has been archived. `hotwords_ok` tells whether
-- `parse_hotwords` accepts a text (Core/Hotwords.antt), and `same_digest` is the comparison of two
-- hexadecimal digests in lower case. A `get_task` that raises ends a request before it changes
-- anything, and is left out.
pub mod Rerecognition
use funasr_api.Prelude.{
  ℕ, String, Bool, true, false, ◌&&◌, ◌||◌, not, Option, none, some, List, [], ◌∷◌, ltb,
  if◌then◌else◌,
}
use funasr_api.Prelude.Equality.{◌==◌, string_eq, add}
use funasr_api.TaskQueue.Scheduler.{can_accept}
use funasr_api.Tasks.Store.{OfflineTask, NewTask, get_by_id}
use funasr_api.Tasks.Submission.{
  Error, Result, ok, err, unavailable, too_large, invalid_hotwords, not_found, conflict, ambiguous,
  restore, World, Surroundings, cleanup, create_and_enqueue, submit_upload_task,
}

abbrev is_given {ℓ} : {A : Type ℓ} → Option A → Bool
is_given none = false
is_given (some a) = true

-- `not text`, for an optional text.
abbrev pub is_blank : Option String → Bool
is_blank none = true
is_blank (some s) = s == ""

-- What the archive's `restore_original` does: it writes a file of a size and a digest, it raises
-- `ArchiveRestoreError`, or it raises another exception.
pub data Restored : Type 0 where
  restored : ℕ → String → Restored
  archive_error : Restored
  raised : Restored

pub record Archive : Type 0 where
  pub can_restore : Bool
  pub answer : Restored

pub record Overrides : Type 0 where
  pub email : Option String
  pub vip : Option Bool
  pub hotwords : Option String
  pub hotword_id : Option ℕ

abbrev or_source {ℓ} : {A : Type ℓ} → Option A → Option A → Option A
or_source none source = source
or_source (some a) source = some a

-- The hotwords of the new task: an override of one of the two replaces both.
unfoldable pub effective_hotwords : Overrides → Option String → Option ℕ → Option String × Option ℕ
effective_hotwords o source_hotwords source_id =
    if is_given o.hotwords
    then (o.hotwords, none)
    else if is_given o.hotword_id
    then (none, o.hotword_id)
    else (source_hotwords, source_id)

abbrev effective_vip : Option Bool → Bool → Bool
effective_vip none source = source
effective_vip (some vip) source = vip

abbrev pub hotwords_refused : (String → Bool) → Option String → Bool
hotwords_refused hotwords_ok none = false
hotwords_refused hotwords_ok (some text) = not (hotwords_ok text)

-- The digest of the source is there and is another one.
abbrev digest_differs : (String → String → Bool) → Option String → String → Bool
digest_differs same_digest none digest = false
digest_differs same_digest (some expected) digest =
    not (expected == "") && not (same_digest expected digest)

-- `_restore_and_verify_audio`, by what the archive answers; every exception cleans up.
unfoldable pub verify_restored :
    (String → String → Bool) → ℕ → Option String → Restored → Result × Option String
verify_restored same_digest max_size expected (restored size digest) =
    if ltb max_size size
    then (err too_large, none)
    else if digest_differs same_digest expected digest
    then (err restore, none)
    else (ok size, some digest)
verify_restored same_digest max_size expected archive_error = (err restore, none)
verify_restored same_digest max_size expected raised = (err restore, none)

module _ {J : Type 0} where
  -- `_validate_rerecognition_source`
  unfoldable pub validate_source : Option (OfflineTask J) → Option Error
  validate_source none = some not_found
  validate_source (some t) =
      if t.is_deleted
      then some not_found
      else if not (t.status == "completed" || t.status == "failed")
      then some conflict
      else if is_blank t.s3_key
      then some conflict
      else none

  -- `submit_speaker`; an SPK row has no hotwords.
  unfoldable pub submit_speaker :
      Surroundings → String → ℕ → List (Option ℕ) → NewTask → World J → Result × World J
  unfolding submit_upload_task
  submit_speaker env task_id max_size chunks n w =
      if can_accept "spk" w.scheduler
      then submit_upload_task env "spk" task_id max_size chunks n w
      else (err unavailable, w)

  -- `submit_offline`
  unfoldable pub submit_offline :
      (String → Bool)
      → Surroundings
      → String
      → ℕ
      → List (Option ℕ)
      → NewTask
      → World J
      → Result × World J
  unfolding submit_upload_task
  submit_offline hotwords_ok env task_id max_size chunks n w =
      if not (can_accept "offline" w.scheduler)
      then (err unavailable, w)
      else if hotwords_refused hotwords_ok n.hotwords
      then (err invalid_hotwords, w)
      else submit_upload_task env "offline" task_id max_size chunks n w

  -- `_submit_restored_task` after the file has been verified.
  finish_restore :
      Surroundings → String → String → NewTask → World J → Result × Option String → Result × World J
  finish_restore env kind task_id n w (err e, digest) = (err e, cleanup env task_id w)
  finish_restore env kind task_id n w (ok size, digest) =
      create_and_enqueue env kind task_id size
        (record n { file_size = some size; file_hash = digest }) w

  -- `_submit_restored_task`
  unfoldable pub submit_restored_task :
      (String → String → Bool)
      → Surroundings
      → Archive
      → String
      → String
      → ℕ
      → OfflineTask J
      → NewTask
      → World J
      → Result × World J
  unfolding finish_restore verify_restored cleanup create_and_enqueue
  submit_restored_task same_digest env archive kind task_id max_size source n w =
      if not archive.can_restore
      then (err restore, w)
      else finish_restore env kind task_id n
          (record w { files = add task_id w.files; scheduler = env.meanwhile w.scheduler })
          (verify_restored same_digest max_size source.file_hash archive.answer)

  -- The new task of a rerecognition.
  unfoldable pub rerecognition_task : Overrides → OfflineTask J → NewTask
  unfolding effective_hotwords
  rerecognition_task o source =
      let (hotwords, hotword_id) = effective_hotwords o source.hotwords source.hotword_id in
      record {
        filename = source.filename;
        file_size = none;
        email = or_source o.email source.email;
        hotwords = hotwords;
        hotword_id = hotword_id;
        vip = effective_vip o.vip source.vip;
        source_task_id = some source.id;
        s3_key = source.s3_key;
        file_hash = none;
      }

  -- `rerecognize_offline` for the source that `get_task` has found, and what `validate_source`
  -- says of it.
  rerecognize_source :
      (String → Bool)
      → (String → String → Bool)
      → Surroundings
      → Archive
      → String
      → ℕ
      → Overrides
      → World J
      → Option (OfflineTask J)
      → Option Error
      → Result × World J
  unfolding submit_restored_task rerecognition_task
  rerecognize_source hotwords_ok same_digest env archive task_id max_size o w source (some e) =
      (err e, w)
  rerecognize_source hotwords_ok same_digest env archive task_id max_size o w none none =
      (err not_found, w)
  rerecognize_source hotwords_ok same_digest env archive task_id max_size o w (some source) none =
      if is_given o.hotwords && is_given o.hotword_id
      then (err ambiguous, w)
      else if hotwords_refused hotwords_ok o.hotwords
      then (err invalid_hotwords, w)
      else submit_restored_task same_digest env archive "offline" task_id max_size source
          (rerecognition_task o source) w

  -- `rerecognize_offline`
  unfoldable pub rerecognize_offline :
      (String → Bool)
      → (String → String → Bool)
      → Surroundings
      → Archive
      → String
      → ℕ
      → String
      → Overrides
      → World J
      → Result × World J
  unfolding rerecognize_source validate_source
  rerecognize_offline hotwords_ok same_digest env archive task_id max_size source_id o w =
      if not (can_accept "offline" w.scheduler)
      then (err unavailable, w)
      else let source = get_by_id source_id w.rows in
        rerecognize_source hotwords_ok same_digest env archive task_id max_size o w source
          (validate_source source)

  -- The new task of a speaker rerecognition.
  unfoldable pub speaker_task : Option String → Option Bool → OfflineTask J → NewTask
  speaker_task email vip source = record {
    filename = source.filename;
    file_size = none;
    email = or_source email source.email;
    hotwords = none;
    hotword_id = none;
    vip = effective_vip vip source.vip;
    source_task_id = some source.id;
    s3_key = source.s3_key;
    file_hash = none;
  }

  speaker_source :
      (String → String → Bool)
      → Surroundings
      → Archive
      → String
      → ℕ
      → Option String
      → Option Bool
      → World J
      → Option (OfflineTask J)
      → Option Error
      → Result × World J
  unfolding submit_restored_task speaker_task
  speaker_source same_digest env archive task_id max_size email vip w source (some e) = (err e, w)
  speaker_source same_digest env archive task_id max_size email vip w none none = (err not_found, w)
  speaker_source same_digest env archive task_id max_size email vip w (some source) none =
      submit_restored_task same_digest env archive "spk" task_id max_size source
        (speaker_task email vip source) w

  -- `rerecognize_speaker`; an SPK row has no hotwords.
  unfoldable pub rerecognize_speaker :
      (String → String → Bool)
      → Surroundings
      → Archive
      → String
      → ℕ
      → String
      → Option String
      → Option Bool
      → World J
      → Result × World J
  unfolding speaker_source validate_source
  rerecognize_speaker same_digest env archive task_id max_size source_id email vip w =
      if not (can_accept "spk" w.scheduler)
      then (err unavailable, w)
      else let source = get_by_id source_id w.rows in
        speaker_source same_digest env archive task_id max_size email vip w source
          (validate_source source)
