-- ===== src/Tasks/SpeakerStore.antt =====
-- src/database/daos/speaker_tasks.py over the table `spk_tasks` of src/database/models.py, on the
-- rows of a session.
use funasr_api.Prelude.{
  ℕ, ◌+◌, String, Bool, ◌&&◌, ◌||◌, not, Option, none, some, List, [], ◌∷◌, ◌++◌, suc, ltb, take,
  if◌then◌else◌,
}
use funasr_api.Prelude.Int.{ℤ}
use funasr_api.Prelude.Equality.{◌==◌, string_eq}
use funasr_api.Tasks.Store.{started_by}
use funasr_api.Tasks.Files.{is_given}
use funasr_api.Tasks.Table.{find_row, change_row}

-- A row of `spk_tasks`, with the columns that a method writes. `J` holds what is only stored.
pub record SpkTask (J : Type 0) : Type 0 where
  pub id : String
  pub filename : String
  pub source_task_id : Option String
  pub file_size : Option ℕ
  pub email : Option String
  pub vip : Bool
  pub s3_key : Option String
  pub file_hash : Option String
  pub status : String
  pub result : Option J
  pub segments : Option J
  pub speaker_ids : Option J
  pub speaker_count : ℕ
  pub processing_time : Option J
  pub error_message : Option String
  pub retry_count : ℕ
  pub created_at : ℕ
  pub started_at : Option ℕ
  pub completed_at : Option ℕ

-- What `create` is given beside the id and the clock.
pub record NewSpkTask : Type 0 where
  pub filename : String
  pub file_size : Option ℕ
  pub email : Option String
  pub vip : Bool
  pub source_task_id : Option String
  pub s3_key : Option String
  pub file_hash : Option String

-- A diarization as a dictionary, with the three keys that the row repeats.
pub record Diarized (J : Type 0) : Type 0 where
  pub result : J
  pub segments : Option J
  pub speaker_ids : Option J
  pub speaker_count : ℕ

-- `new or old`
abbrev pub given_or : Option String → Option String → Option String
given_or new old = if is_given new then new else old

module _ {J : Type 0} where
  abbrev pub spk_id : SpkTask J → String
  spk_id t = t.id

  abbrev pub new_spk_row : ℕ → String → NewSpkTask → SpkTask J
  new_spk_row now task_id n = record {
    id = task_id;
    filename = n.filename;
    source_task_id = n.source_task_id;
    file_size = n.file_size;
    email = n.email;
    vip = n.vip;
    s3_key = n.s3_key;
    file_hash = n.file_hash;
    status = "pending";
    result = none;
    segments = none;
    speaker_ids = none;
    speaker_count = 0;
    processing_time = none;
    error_message = none;
    retry_count = 0;
    created_at = now;
    started_at = none;
    completed_at = none;
  }

  -- `get_by_id`
  unfoldable pub get_spk : String → List (SpkTask J) → Option (SpkTask J)
  unfolding find_row
  get_spk = find_row spk_id

  -- `create`: `none` where the id is there already (it is the primary key).
  unfoldable pub create_spk :
      ℕ → String → NewSpkTask → List (SpkTask J) → Option (SpkTask J × List (SpkTask J))
  unfolding get_spk
  create_spk now task_id n rows = elim (get_spk task_id rows) [
    | none ↦ some (new_spk_row now task_id n, rows ++ new_spk_row now task_id n ∷ [])
    | some t ↦ none
  ]

  -- `order_by(vip.desc(), created_at.asc())`
  abbrev pub spk_before : SpkTask J → SpkTask J → Bool
  spk_before a b =
      (a.vip && not b.vip) || (not (b.vip && not a.vip) && ltb a.created_at b.created_at)

  unfoldable pub insert_spk : SpkTask J → List (SpkTask J) → List (SpkTask J)
  insert_spk t [] = t ∷ []
  insert_spk t (u ∷ us) = if spk_before u t then u ∷ insert_spk t us else t ∷ u ∷ us

  unfoldable pub pending_spk : List (SpkTask J) → List (SpkTask J)
  unfolding insert_spk
  pending_spk [] = []
  pending_spk (t ∷ ts) =
      let rest = pending_spk ts in if t.status == "pending" then insert_spk t rest else rest

  -- `get_pending_tasks`
  unfoldable pub get_pending_spk : ℕ → List (SpkTask J) → List (SpkTask J)
  unfolding pending_spk
  get_pending_spk limit rows = take limit (pending_spk rows)

  -- `recover_stale_processing`
  unfoldable pub recover_stale_spk : ℕ → ℤ → List (SpkTask J) → ℕ × List (SpkTask J)
  recover_stale_spk now timeout_seconds [] = (0, [])
  recover_stale_spk now timeout_seconds (t ∷ ts) =
      let (n, us) = recover_stale_spk now timeout_seconds ts in
      if t.status == "processing" && started_by now timeout_seconds t.started_at
      then (suc n, record t { status = "pending" } ∷ us)
      else (n, t ∷ us)

  abbrev pub spk_with_status : ℕ → String → SpkTask J → SpkTask J
  spk_with_status now status t =
      if status == "processing"
      then record t { status = status; started_at = some now }
      else if status == "completed"
      then record t { status = status; completed_at = some now }
      else record t { status = status }

  -- `update_status`
  unfoldable pub update_spk_status :
      ℕ → String → String → List (SpkTask J) → Option (SpkTask J) × List (SpkTask J)
  unfolding change_row
  update_spk_status now task_id status = change_row spk_id task_id (spk_with_status now status)

  abbrev pub spk_with_result :
      ℕ → Diarized J → J → Option String → Option String → SpkTask J → SpkTask J
  spk_with_result now d processing_time s3_key file_hash t = record t {
    result = some d.result;
    segments = d.segments;
    speaker_ids = d.speaker_ids;
    speaker_count = d.speaker_count;
    processing_time = some processing_time;
    s3_key = given_or s3_key t.s3_key;
    file_hash = given_or file_hash t.file_hash;
    status = "completed";
    completed_at = some now;
  }

  -- `update_result`
  unfoldable pub update_spk_result :
      ℕ
      → String
      → Diarized J
      → J
      → Option String
      → Option String
      → List (SpkTask J)
      → Option (SpkTask J) × List (SpkTask J)
  unfolding change_row
  update_spk_result now task_id d processing_time s3_key file_hash =
      change_row spk_id task_id (spk_with_result now d processing_time s3_key file_hash)

  abbrev pub spk_with_error : ℕ → String → SpkTask J → SpkTask J
  spk_with_error now error_message t = record t {
    error_message = some error_message;
    retry_count = t.retry_count + 1;
    status = "failed";
    completed_at = some now;
  }

  -- `update_error`
  unfoldable pub update_spk_error :
      ℕ → String → String → List (SpkTask J) → Option (SpkTask J) × List (SpkTask J)
  unfolding change_row
  update_spk_error now task_id error_message =
      change_row spk_id task_id (spk_with_error now error_message)
