-- ===== src/Tasks/Files.antt =====
-- What the end of an upload works on: files, the archive, its index and the messages (src/application/
-- postprocess.py, src/application/task_results.py, the tables of src/database/models.py), and what
-- stands for the calls that leave the repository.
use funasr_api.Prelude.{
  ℕ, String, Bool, false, ◌&&◌, not, Option, none, some, List, [], ◌∷◌, if◌then◌else◌,
}
use funasr_api.Prelude.Equality.{◌==◌, string_eq}
use funasr_api.Tasks.Effects.{Outcome}

-- The path of an upload: the directory of its task and the name of the file.
pub record AudioPath : Type 0 where
  pub task_id : String
  pub name : String

-- An upload that the temporary store holds.
pub record Upload : Type 0 where
  pub path : AudioPath
  pub content : String

-- A row of `s3_files`, less its id, its time, `hash_algorithm` and `is_deleted`, which keep their
-- defaults.
pub record S3File : Type 0 where
  pub task_key : String
  pub task_type : String
  pub storage_backend : String
  pub bucket_name : Option String
  pub s3_key : String
  pub original_filename : Option String
  pub stored_filename : String
  pub file_sha256 : String
  pub file_size : ℕ
  pub local_path : Option String
  pub upload_status : String
  pub is_reused : Bool

pub record StoredFileResult : Type 0 where
  pub s3_key : String
  pub storage_backend : String
  pub bucket_name : Option String
  pub stored_filename : String
  pub file_sha256 : String
  pub file_size : ℕ
  pub local_path : Option String
  pub upload_status : String
  pub is_reused : Bool

-- A message to the recipient of a finished task.
pub record Notice : Type 0 where
  pub task_key : String
  pub email : String
  pub s3_key : String
  pub source : String

-- `OfflineTaskContext`, with the entries of `metadata` that the hooks use.
pub record TaskContext : Type 0 where
  pub task_id : String
  pub filename : String
  pub audio_path : AudioPath
  pub email : Option String
  pub backup_key : Option String
  pub text_result_path : Option String

-- The rows of one table of tasks, the files, the archive and its index, and the context that the
-- hooks of a task share. An archive and the result files map a key to a content.
pub record World (R : Type 0) : Type 0 where
  pub rows : List R
  pub uploads : List Upload
  pub archive : List (String × String)
  pub index : List S3File
  pub texts : List (String × String)
  pub notices : List Notice
  pub context : TaskContext
  pub now : ℕ

-- `RocketMQCompletionPublisher`; `sending` is what `_publish_sync` raises.
pub record Publisher : Type 0 where
  pub enabled : Bool
  pub namesrv : Option String
  pub topic : Option String
  pub group : Option String
  pub sending : Option String

-- An audio backup store: what `backup_original` ends with, and the local path of a key.
pub record BackupStore : Type 0 where
  pub enabled : Bool
  pub name : String
  pub bucket : Option String
  pub backing_up : Outcome String
  pub get_local_path : String → Outcome (Option String)

-- What the code outside the repository computes, and how its calls end during this run: the name of
-- a path, the hash and the size of a content, and the exceptions, if any.
pub record Platform : Type 0 where
  pub path_name : String → String
  pub sha256 : String → String
  pub size : String → ℕ
  pub hashing : Option String
  pub measuring : Option String
  pub has_index : Bool
  pub finding : Option String
  pub recording : Option String
  pub store : Option BackupStore
  pub publisher : Publisher
  pub unlinking : Bool

-- A Python string that counts as true.
abbrev pub is_given : Option String → Bool
is_given none = false
is_given (some s) = not (s == "")

abbrev pub same_path : AudioPath → AudioPath → Bool
same_path p q = p.task_id == q.task_id && p.name == q.name

-- What stands at a path.
unfoldable pub upload_at : AudioPath → List Upload → Option String
upload_at p [] = none
upload_at p (u ∷ us) = if same_path u.path p then some u.content else upload_at p us

unfoldable pub remove_upload : AudioPath → List Upload → List Upload
remove_upload p [] = []
remove_upload p (u ∷ us) =
    let rest = remove_upload p us in if same_path u.path p then rest else u ∷ rest

-- The content under a key.
unfoldable pub content_at : String → List (String × String) → Option String
content_at key [] = none
content_at key ((k, c) ∷ files) = if k == key then some c else content_at key files
