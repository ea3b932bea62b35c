-- ===== src/Tasks/Flow.antt =====
-- src/application/task_flow.py: what the processing of any kind of task does with its rows and its
-- upload.
use funasr_api.Prelude.{String, Option, none, some, List, if◌then◌else◌}
use funasr_api.Prelude.Equality.{◌==◌, string_eq}
use funasr_api.Tasks.Effects.{returned, raised, Action, pure, raise}
use funasr_api.Tasks.Files.{AudioPath, World, Platform, upload_at}

abbrev pub no_audio_error : String
no_audio_error = "音频文件不存在"

-- `LocalTempFileStore.resolve`
abbrev pub resolve : Platform → String → String → AudioPath
resolve env task_id filename = record { task_id = task_id; name = env.path_name filename }

module _ {R : Type 0} where
  -- A method of the repository on the rows: the new rows and the row that it has found.
  abbrev pub on_rows : (List R → Option R × List R) → Action (World R) (Option R)
  on_rows f w = let (found, rows) = f w.rows in (returned found, record w { rows = rows })

  -- `require_audio_file`
  abbrev pub require_audio_file : AudioPath → Action (World R) (Unit {0})
  require_audio_file path w = elim (upload_at path w.uploads) [
    | none ↦ (raised no_audio_error, w)
    | some content ↦ (returned tt, w)
  ]

  -- `if result.error: raise RuntimeError(result.error)`
  abbrev pub raise_error : Option String → Action (World R) (Unit {0})
  raise_error none = pure tt
  raise_error (some e) = if e == "" then pure tt else raise e
