-- ===== src/Tasks/Store.antt =====
-- src/database/daos/offline_tasks.py over the table of src/database/models.py. A method works on
-- the rows of the session and returns the new rows; `none` is a `None` result.
pub mod Pending
pub mod Lifecycle
use funasr_api.Prelude.{
  ℕ, zero, suc, ◌+◌, String, Bool, true, false, ◌&&◌, ◌||◌, not, Option, none, some, List, [], ◌∷◌,
  ◌++◌, ltb, leb, if◌then◌else◌, take, length,
}
use funasr_api.Prelude.Int.{ℤ, pos_part}
use funasr_api.Prelude.Equality.{◌==◌, string_eq}

-- A row of `offline_tasks`. `J` holds the values that are only stored: JSON and floats. A time is
-- a number of seconds.
pub record OfflineTask (J : Type 0) : Type 0 where
  pub id : String
  pub filename : String
  pub source_task_id : Option String
  pub file_size : Option ℕ
  pub s3_key : Option String
  pub file_hash : Option String
  pub vip : Bool
  pub status : String
  pub is_deleted : Bool
  pub full_text : Option String
  pub segments : Option J
  pub word_timestamps : Option J
  pub processing_time : Option J
  pub error_message : Option String
  pub retry_count : ℕ
  pub created_at : ℕ
  pub started_at : Option ℕ
  pub completed_at : Option ℕ
  pub email : Option String
  pub hotwords : Option String
  pub hotword_id : Option ℕ

abbrev pub is_status : {J : Type 0} → String → OfflineTask J → Bool
is_status s t = t.status == s

-- What `create` is given beside the id and the clock.
pub record NewTask : Type 0 where
  pub filename : String
  pub file_size : Option ℕ
  pub email : Option String
  pub hotwords : Option String
  pub hotword_id : Option ℕ
  pub vip : Bool
  pub source_task_id : Option String
  pub s3_key : Option String
  pub file_hash : Option String

-- `started_at` is there and not after the cutoff, `now` less the timeout.
abbrev pub started_by : ℕ → ℤ → Option ℕ → Bool
started_by now timeout_seconds none = false
started_by now timeout_seconds (some started) = leb (started + pos_part timeout_seconds) now

abbrev pub or_else {ℓ} : {A : Type ℓ} → Option A → Option A → Option A
or_else none d = d
or_else (some a) d = some a

module _ {J : Type 0} where
  unfoldable pub new_row : ℕ → String → NewTask → OfflineTask J
  new_row now task_id n = record {
    id = task_id;
    filename = n.filename;
    source_task_id = n.source_task_id;
    file_size = n.file_size;
    s3_key = n.s3_key;
    file_hash = n.file_hash;
    vip = n.vip;
    status = "pending";
    is_deleted = false;
    full_text = none;
    segments = none;
    word_timestamps = none;
    processing_time = none;
    error_message = none;
    retry_count = 0;
    created_at = now;
    started_at = none;
    completed_at = none;
    email = n.email;
    hotwords = n.hotwords;
    hotword_id = n.hotword_id;
  }

  -- `get_by_id`
  unfoldable pub get_by_id : String → List (OfflineTask J) → Option (OfflineTask J)
  get_by_id task_id [] = none
  get_by_id task_id (t ∷ ts) = if t.id == task_id then some t else get_by_id task_id ts

  -- `create`: `none` where the flush meets the id a second time (it is the primary key).
  unfoldable pub create :
      ℕ → String → NewTask → List (OfflineTask J) → Option (OfflineTask J × List (OfflineTask J))
  unfolding new_row get_by_id
  create now task_id n rows = elim (get_by_id task_id rows) [
    | none ↦ some (new_row now task_id n, rows ++ new_row now task_id n ∷ [])
    | some t ↦ none
  ]

  -- `order_by(vip.desc(), created_at.asc())`
  abbrev pub ordered_before : OfflineTask J → OfflineTask J → Bool
  ordered_before a b =
      (a.vip && not b.vip) || (not (b.vip && not a.vip) && ltb a.created_at b.created_at)

  unfoldable pub insert_ordered : OfflineTask J → List (OfflineTask J) → List (OfflineTask J)
  insert_ordered t [] = t ∷ []
  insert_ordered t (u ∷ us) = if ordered_before u t then u ∷ insert_ordered t us else t ∷ u ∷ us

  -- The pending rows in that order.
  unfoldable pub pending_ordered : List (OfflineTask J) → List (OfflineTask J)
  unfolding insert_ordered
  pending_ordered [] = []
  pending_ordered (t ∷ ts) =
      let rest = pending_ordered ts in if is_status "pending" t then insert_ordered t rest else rest

  unfoldable pub get_pending_tasks : ℕ → List (OfflineTask J) → List (OfflineTask J)
  get_pending_tasks limit rows = take limit (pending_ordered rows)

  abbrev pub is_stale : ℕ → ℤ → OfflineTask J → Bool
  is_stale now timeout_seconds t =
      is_status "processing" t && started_by now timeout_seconds t.started_at

  unfoldable pub recover_stale_processing : ℕ → ℤ → List (OfflineTask J) → ℕ × List (OfflineTask J)
  recover_stale_processing now timeout_seconds [] = (0, [])
  recover_stale_processing now timeout_seconds (t ∷ ts) =
      let (n, us) = recover_stale_processing now timeout_seconds ts in
      if is_stale now timeout_seconds t
      then (suc n, record t { status = "pending" } ∷ us)
      else (n, t ∷ us)

  -- The row that `get_by_id` finds is changed in place.
  unfoldable pub change :
      String
      → (OfflineTask J → OfflineTask J)
      → List (OfflineTask J)
      → Option (OfflineTask J) × List (OfflineTask J)
  change task_id f [] = (none, [])
  change task_id f (t ∷ ts) =
      let (found, us) = change task_id f ts in
      if t.id == task_id then (some (f t), f t ∷ ts) else (found, t ∷ us)

  abbrev pub with_status : ℕ → String → OfflineTask J → OfflineTask J
  with_status now status t =
      if status == "processing"
      then record t { status = status; started_at = some now }
      else if status == "completed"
      then record t { status = status; completed_at = some now }
      else record t { status = status }

  unfoldable pub update_status :
      ℕ → String → String → List (OfflineTask J) → Option (OfflineTask J) × List (OfflineTask J)
  unfolding change
  update_status now task_id status = change task_id (with_status now status)

  abbrev pub with_result : ℕ → String → J → J → Option J → OfflineTask J → OfflineTask J
  with_result now full_text segments processing_time word_timestamps t = record t {
    full_text = some full_text;
    segments = some segments;
    word_timestamps = word_timestamps;
    processing_time = some processing_time;
    status = "completed";
    completed_at = some now;
  }

  unfoldable pub update_result :
      ℕ
      → String
      → String
      → J
      → J
      → Option J
      → List (OfflineTask J)
      → Option (OfflineTask J) × List (OfflineTask J)
  unfolding change
  update_result now task_id full_text segments processing_time word_timestamps =
      change task_id (with_result now full_text segments processing_time word_timestamps)

  abbrev pub with_file_info : Option String → Option String → OfflineTask J → OfflineTask J
  with_file_info s3_key file_hash t = record t {
    s3_key = or_else s3_key t.s3_key;
    file_hash = or_else file_hash t.file_hash;
  }

  unfoldable pub update_file_info :
      String
      → Option String
      → Option String
      → List (OfflineTask J)
      → Option (OfflineTask J) × List (OfflineTask J)
  unfolding change
  update_file_info task_id s3_key file_hash = change task_id (with_file_info s3_key file_hash)

  abbrev pub with_error : ℕ → String → OfflineTask J → OfflineTask J
  with_error now error_message t = record t {
    error_message = some error_message;
    retry_count = t.retry_count + 1;
    status = "failed";
    completed_at = some now;
  }

  unfoldable pub update_error :
      ℕ → String → String → List (OfflineTask J) → Option (OfflineTask J) × List (OfflineTask J)
  unfolding change
  update_error now task_id error_message = change task_id (with_error now error_message)
