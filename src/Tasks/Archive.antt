-- ===== src/Tasks/Archive.antt =====
-- The end of an upload: src/application/postprocess.py and src/application/file_processing.py over
-- the index of src/database/daos/file_index.py. A file is deduplicated by its hash, archived,
-- announced and removed.
pub mod Cases
pub mod Index
pub mod Soundness
use funasr_api.Prelude.{
  ℕ, String, Bool, true, false, ◌&&◌, ◌||◌, not, Option, none, some, List, [], ◌∷◌, ◌++◌,
  if◌then◌else◌,
}
use funasr_api.Prelude.Equality.{◌==◌, string_eq}
use funasr_api.Tasks.Files.{
  AudioPath, Upload, S3File, StoredFileResult, Notice, TaskContext, World, Publisher, BackupStore,
  Platform, is_given, same_path, upload_at, remove_upload, content_at,
}
use funasr_api.Tasks.Effects.{
  Outcome, returned, raised, Action, ◌>>=◌, ◌>>◌, pure, raise, modify, gets, attempt, otherwise,
}

-- `S3FileDAO.get_by_hash`
unfoldable pub get_by_hash : String → List S3File → Option S3File
get_by_hash file_sha256 [] = none
get_by_hash file_sha256 (f ∷ fs) =
    if f.file_sha256 == file_sha256 then some f else get_by_hash file_sha256 fs

-- What the driver raises where the hash is there already (it is unique).
abbrev pub integrity_error : String
integrity_error = "IntegrityError"

abbrev pub unavailable_error : String
unavailable_error = "Configured archive storage is unavailable"

abbrev pub no_key_error : String
no_key_error = "Configured archive storage returned no key"

abbrev pub index_row : String → String → String → StoredFileResult → S3File
index_row task_key source filename stored = record {
  task_key = task_key;
  task_type = source;
  storage_backend = stored.storage_backend;
  bucket_name = stored.bucket_name;
  s3_key = stored.s3_key;
  original_filename = some filename;
  stored_filename = stored.stored_filename;
  file_sha256 = stored.file_sha256;
  file_size = stored.file_size;
  local_path = stored.local_path;
  upload_status = stored.upload_status;
  is_reused = stored.is_reused;
}

-- `configuration_issue`
abbrev pub has_issue : Publisher → Bool
has_issue p = p.enabled && not (is_given p.namesrv && is_given p.topic && is_given p.group)

abbrev pub reused_file : String → ℕ → S3File → StoredFileResult
reused_file file_sha256 file_size existing = record {
  s3_key = existing.s3_key;
  storage_backend = existing.storage_backend;
  bucket_name = existing.bucket_name;
  stored_filename = existing.stored_filename;
  file_sha256 = file_sha256;
  file_size = file_size;
  local_path = existing.local_path;
  upload_status = "reused";
  is_reused = true;
}

abbrev pub or_empty : Option String → String
or_empty none = ""
or_empty (some s) = s

abbrev pub stored_file :
    Platform → BackupStore → String → String → ℕ → Option String → StoredFileResult
stored_file env s stored_key file_sha256 file_size local_path = record {
  s3_key = stored_key;
  storage_backend = s.name;
  bucket_name = s.bucket;
  stored_filename = env.path_name stored_key;
  file_sha256 = file_sha256;
  file_size = file_size;
  local_path = local_path;
  upload_status = "uploaded";
  is_reused = false;
}

abbrev pub notice_of : String → String → Option String → StoredFileResult → Notice
notice_of task_key source email stored = record {
  task_key = task_key;
  email = or_empty email;
  s3_key = stored.s3_key;
  source = source;
}

module _ {R : Type 0} where
  -- `S3FileDAO.create`
  unfoldable pub create_file : S3File → Action (World R) (Unit {0})
  unfolding get_by_hash
  create_file f w = elim (get_by_hash f.file_sha256 w.index) [
    | none ↦ (returned tt, record w { index = w.index ++ f ∷ [] })
    | some g ↦ (raised integrity_error, w)
  ]

  -- `FileIndex.find`
  unfoldable pub find : Platform → String → Action (World R) (Option S3File)
  unfolding get_by_hash
  find env file_sha256 =
      if not env.has_index
      then pure none
      else otherwise (do attempt env.finding; gets (λ w. get_by_hash file_sha256 w.index)) none

  -- `FileIndex.record`
  unfoldable pub record_file :
      Platform → String → String → String → StoredFileResult → Action (World R) Bool
  unfolding create_file
  record_file env task_key source filename stored =
      if not env.has_index
      then pure false
      else otherwise
          (do
            attempt env.recording
            create_file (index_row task_key source filename stored)
            pure true)
          false

  -- `publish_completion`
  unfoldable pub publish_completion : Platform → Notice → Action (World R) Bool
  publish_completion env n =
      if not env.publisher.enabled
      then pure false
      else if n.email == ""
      then pure false
      else if has_issue env.publisher
      then pure false
      else otherwise
          (do
            attempt env.publisher.sending
            modify (λ w. record w { notices = w.notices ++ n ∷ [] })
            pure true)
          false

  -- What a store does with the content of a file: under the key it returns lies a copy.
  unfoldable pub backup_original : BackupStore → String → Action (World R) String
  backup_original s content w = elim s.backing_up [
    | returned key ↦ (returned key, record w { archive = (key, content) ∷ w.archive })
    | raised e ↦ (raised e, w)
  ]

  abbrev outcome_of : {A : Type 0} → Outcome A → Action (World R) A
  outcome_of o w = (o, w)

  -- `ArchiveStorage.store`
  unfoldable pub store_file : Platform → String → String → ℕ → Action (World R) StoredFileResult
  unfolding backup_original
  store_file env content file_sha256 file_size = elim env.store [
    | none ↦ raise unavailable_error
    | some s ↦ if not s.enabled then raise unavailable_error else do
      stored_key ← backup_original s content
      if stored_key == "" then raise no_key_error else pure tt
      local_path ← outcome_of (s.get_local_path stored_key)
      pure (stored_file env s stored_key file_sha256 file_size local_path)
  ]

  -- `TempFileCleaner.cleanup`, whose exceptions are only logged.
  unfoldable pub cleanup_path : Platform → AudioPath → Action (World R) (Unit {0})
  unfolding remove_upload
  cleanup_path env path =
      if env.unlinking
      then modify (λ w. record w { uploads = remove_upload path w.uploads })
      else pure tt

  -- The file is taken from the archive, or stored there and recorded.
  unfoldable pub archive_file :
      Platform
      → String
      → String
      → String
      → String
      → Option S3File
      → Action (World R) StoredFileResult
  unfolding store_file record_file
  archive_file env content task_key filename source (some existing) =
      pure (reused_file (env.sha256 content) (env.size content) existing)
  archive_file env content task_key filename source none = do
    stored ← store_file env content (env.sha256 content) (env.size content)
    record_file env task_key source filename stored
    pure stored

  -- `handle_complete` of a file that is there.
  unfoldable pub complete_file :
      Platform
      → AudioPath
      → String
      → String
      → String
      → String
      → Option String
      → Bool
      → Action (World R) (Option StoredFileResult)
  unfolding find archive_file publish_completion cleanup_path
  complete_file env path content task_key filename source email delete_local_on_success = do
    attempt env.hashing
    attempt env.measuring
    existing ← find env (env.sha256 content)
    stored ← archive_file env content task_key filename source existing
    publish_completion env (notice_of task_key source email stored)
    if delete_local_on_success then cleanup_path env path else pure tt
    pure (some stored)

  -- `FilePostProcessor.handle_complete`
  unfoldable pub handle_complete :
      Platform
      → AudioPath
      → String
      → String
      → String
      → Option String
      → Bool
      → Action (World R) (Option StoredFileResult)
  unfolding complete_file
  handle_complete env path task_key filename source email delete_local_on_success w =
      elim (upload_at path w.uploads) [
        | none ↦ (returned none, w)
        | some content ↦
            complete_file env path content task_key filename source email delete_local_on_success w
      ]
