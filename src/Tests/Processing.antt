-- ===== src/Tests/Processing.antt =====
-- The processing of a task, its hooks and the archive at concrete inputs.
use funasr_api.Prelude.{ℕ, ◌≡◌, refl, true, false, none, some, [], ◌∷◌}
use funasr_api.Tasks.SpeakerStore.{SpkTask, new_spk_row}
use funasr_api.Tasks.Diarization.{Answer, SpkCalls, process_spk_task}
use funasr_api.Tasks.Diarization.Finish.{Finishes, process_spk_task-Finishes}
use funasr_api.Tasks.Store.{OfflineTask, NewTask, new_row, get_by_id}
use funasr_api.Tasks.Effects.{returned}
use funasr_api.Tasks.Effects.Hooks.{RunEnds, run-RunEnds}
use funasr_api.Tasks.Files.{
  AudioPath, World, Publisher, BackupStore, Platform, upload_at, content_at,
}
use funasr_api.Tasks.Archive.{handle_complete}
use funasr_api.Tasks.Archive.Soundness.{Archives, HoldsUpload, handle_complete-HoldsUpload}
use funasr_api.Tasks.Flow.{no_audio_error}
use funasr_api.Tasks.Processing.{
  Recognition, Calls, audio_backup, text_result_file, critical, on_success, process_task,
}
use funasr_api.Tasks.Processing.Rows.{Has}
use funasr_api.Tasks.Processing.Kept.{Processed, process_task-Processed}
use funasr_api.Tasks.Processing.Missing.{process_task_no_upload}

abbrev publisher : Publisher
publisher = record {
  enabled = true;
  namesrv = some "mq:9876";
  topic = some "t";
  group = some "g";
  sending = none;
}

abbrev backup : BackupStore
backup = record {
  enabled = true;
  name = "local";
  bucket = none;
  backing_up = returned "audio/a.wav";
  get_local_path = λ key. returned (some key);
}

abbrev platform : Platform
platform = record {
  path_name = λ s. s;
  sha256 = λ s. s;
  size = λ s. 3;
  hashing = none;
  measuring = none;
  has_index = true;
  finding = none;
  recording = none;
  store = some backup;
  publisher = publisher;
  unlinking = true;
}

abbrev talk : Recognition ℕ
talk = record {
  error = none;
  full_text = some "hello";
  segments = 1;
  word_timestamps = 2;
  processing_time = 3;
}

abbrev calls : Calls ℕ
calls = record {
  platform = platform;
  looking_up = none;
  marking = none;
  loading_hotwords = none;
  recognizing = returned talk;
  writing_text = none;
  saving_result = none;
  saving_file_info = none;
  saving_error = none;
  has_temp_store = true;
  removing = true;
}

abbrev task : OfflineTask ℕ
task = new_row 10 "a" (record {
  filename = "a.wav";
  file_size = none;
  email = some "x@y";
  hotwords = none;
  hotword_id = none;
  vip = false;
  source_task_id = none;
  s3_key = none;
  file_hash = none;
})

abbrev path : AudioPath
path = record { task_id = "a"; name = "a.wav" }

abbrev world : World (OfflineTask ℕ)
world = record {
  rows = task ∷ [];
  uploads = record { path = path; content = "pcm" } ∷ [];
  archive = [];
  index = [];
  texts = [];
  notices = [];
  context = record {
    task_id = "";
    filename = "";
    audio_path = path;
    email = none;
    backup_key = none;
    text_result_path = none;
  };
  now = 20;
}

runs : (process_task calls "a" world).0 ≡ returned true
unfolding process_task get_by_id new_row upload_at handle_complete
    funasr_api.Tasks.Store.update_result funasr_api.Tasks.Store.update_file_info
    funasr_api.Tasks.Store.update_status
runs = refl

cleaned : (process_task calls "a" world).1.uploads ≡ []
unfolding process_task get_by_id new_row upload_at handle_complete
    funasr_api.Tasks.Store.update_result funasr_api.Tasks.Store.update_file_info
    funasr_api.Tasks.Store.update_status
cleaned = refl

fails :
    (process_task (record calls { writing_text = some "disk full" }) "a" world).0 ≡ returned false
unfolding process_task get_by_id new_row upload_at handle_complete
fails = refl

process_task-Processed_example : Processed calls "a" path "pcm" (process_task calls "a" world)
unfolding content_at get_by_id new_row upload_at
process_task-Processed_example =
    process_task-Processed calls "a" "pcm" task world tt (λ s e key b. refl) (λ c d e. e) refl refl

process_task_no_upload_example :
    ((process_task calls "a" (record world { uploads = [] })).0 ≡ returned false)
    × Has "a"
        (λ t. (t.status ≡ "failed") × (t.error_message ≡ some no_audio_error))
        (process_task calls "a" (record world { uploads = [] })).1.rows
    × ((process_task calls "a" (record world { uploads = [] })).1.archive ≡ [])
    × ((process_task calls "a" (record world { uploads = [] })).1.uploads ≡ [])
    × ((process_task calls "a" (record world { uploads = [] })).1.texts ≡ [])
unfolding get_by_id new_row upload_at
process_task_no_upload_example =
    process_task_no_upload calls "a" task (record world { uploads = [] }) refl refl refl refl refl

handle_complete-HoldsUpload_example :
    Archives platform world
      (handle_complete platform path "a" "a.wav" "offline" (some "x@y") false world).1
    × HoldsUpload path world
        (handle_complete platform path "a" "a.wav" "offline" (some "x@y") false world)
unfolding content_at
handle_complete-HoldsUpload_example =
    handle_complete-HoldsUpload platform world tt (λ s e key b. refl) (λ c d e. e) path "a" "a.wav"
      "offline" (some "x@y")

run-RunEnds_example :
    RunEnds critical (on_success calls talk) true (audio_backup ∷ text_result_file ∷ []) world
run-RunEnds_example =
    run-RunEnds critical (on_success calls talk) true (audio_backup ∷ text_result_file ∷ []) world

abbrev answer : Answer ℕ
answer = record {
  error = none;
  diarized = record { result = 1; segments = none; speaker_ids = none; speaker_count = 2 };
  processing_time = 3;
}

abbrev spk_calls : SpkCalls ℕ
spk_calls = record {
  platform = platform;
  looking_up = none;
  marking = none;
  diarizing = returned answer;
  saving_result = none;
  saving_error = none;
  removing = true;
}

abbrev spk_task : SpkTask ℕ
spk_task = new_spk_row 10 "a" (record {
  filename = "a.wav";
  file_size = none;
  email = none;
  vip = false;
  source_task_id = none;
  s3_key = none;
  file_hash = none;
})

abbrev spk_world : World (SpkTask ℕ)
spk_world = record {
  rows = spk_task ∷ [];
  uploads = world.uploads;
  archive = [];
  index = [];
  texts = [];
  notices = [];
  context = world.context;
  now = 20;
}

diarizes : (process_spk_task spk_calls "a" spk_world).0 ≡ returned true
unfolding process_spk_task upload_at
diarizes = refl

process_spk_task-Finishes_example :
    Finishes spk_calls "a" path "pcm" spk_task (process_spk_task spk_calls "a" spk_world)
unfolding content_at funasr_api.Tasks.SpeakerStore.get_spk upload_at
process_spk_task-Finishes_example =
    process_spk_task-Finishes spk_calls "a" "pcm" spk_task spk_world tt (λ s e key b. refl)
      (λ c d e. e) refl refl
