-- ===== src/Tasks/Diarization/Finish.antt =====
-- What the processing of a speaker task leaves behind (src/application/speaker.py).
use funasr_api.Prelude.{
  ◌≡◌, refl, ap, sym, ◌∙◌, subst, String, Bool, true, false, ◌⊎◌, inl, inr, Option, none, some,
  List, Bool-cases, Option-cases,
}
use funasr_api.Prelude.Equality.{◌==◌, string_eq}
use funasr_api.Tasks.Effects.{Outcome, returned, raised, continue_with}
use funasr_api.Tasks.Files.{AudioPath, StoredFileResult, World, upload_at, content_at}
use funasr_api.Tasks.Archive.Index.{IndexIsSound, KeysAreNew, HashIsInjective}
use funasr_api.Tasks.Archive.Soundness.{Archives, HoldsUpload, handle_complete-HoldsUpload}
use funasr_api.Tasks.Flow.{resolve, require_audio_file, raise_error}
use funasr_api.Tasks.Table.{find_row-change_row}
use funasr_api.Tasks.SpeakerStore.{
  SpkTask, given_or, spk_id, get_spk, spk_with_status, spk_with_result, spk_with_error,
  update_spk_status, update_spk_result, update_spk_error,
}
use funasr_api.Tasks.Diarization.{
  Answer, SpkCalls, clean_uploads, save_diarization, begin_diarization, finish_diarization,
  try_diarization, end_diarization, process_spk_task,
}

module _ {J : Type 0} (env : SpkCalls J) (id : String) (path : AudioPath) (c : String)
    (task : SpkTask J) where
  -- The row of the task, as required.
  abbrev pub HasSpk : (SpkTask J → Type 0) → List (SpkTask J) → Type 0
  HasSpk P rows = (t : SpkTask J) × (get_spk id rows ≡ some t) × P t

  -- The upload and the row are there, the row with the key that it began with.
  abbrev pub Waits : World (SpkTask J) → Type 0
  Waits w = (upload_at path w.uploads ≡ some c) × HasSpk (λ t. t.s3_key ≡ task.s3_key) w.rows

  -- The upload is archived under a key that the completed row takes over.
  abbrev pub IsDone : World (SpkTask J) → Type 0
  IsDone w =
      (key : String) × (content_at key w.archive ≡ some c)
      × HasSpk (λ t. (t.status ≡ "completed") × (t.s3_key ≡ given_or (some key) task.s3_key)) w.rows

  abbrev Ends : Outcome (Unit {0}) × World (SpkTask J) → Type 0
  Ends (returned u, w) = IsDone w
  Ends (raised e, w) = Waits w

  clean_uploads-IsDone : (w : World (SpkTask J)) → IsDone w → Ends (clean_uploads env id w)
  unfolding clean_uploads
  clean_uploads-IsDone w h = elim (Bool-cases env.removing) [
    | inl e ↦ simp (clean_uploads, e) h
    | inr e ↦ simp (clean_uploads, e) h
  ]

  save_diarization-Ends :
      (a : Answer J) (stored : StoredFileResult) (w : World (SpkTask J))
      → Waits w
      → content_at stored.s3_key w.archive ≡ some c
      → Ends (save_diarization env id a (some stored) w)
  unfolding save_diarization update_spk_result get_spk
  save_diarization-Ends a stored w (upload, (t, has, same)) held =
      elim (Option-cases env.saving_result) [
        | inr (m, e) ↦ simp (save_diarization, e) (upload, (t, has, same))
        | inl e ↦
            let f =
              spk_with_result w.now a.diarized a.processing_time (some stored.s3_key)
                (some stored.file_sha256) in
            let (found, there) = find_row-change_row spk_id id f w.rows t has (λ u. refl) in
            simp (save_diarization, e)
              (clean_uploads-IsDone _ (
                stored.s3_key,
                held,
                (f t, there, (refl, ap (given_or (some stored.s3_key)) same)),
              ))
      ]

  archived-Waits : (w w' : World (SpkTask J)) → Archives env.platform w w' → Waits w → Waits w'
  archived-Waits w w' a h = (
    ap (upload_at path) a.uploads ∙ h.0,
    subst (HasSpk λ t. t.s3_key ≡ task.s3_key) (sym a.rows) h.1,
  )

  archived-Ends :
      (a : Answer J) (w : World (SpkTask J))
      (r : Outcome (Option StoredFileResult) × World (SpkTask J))
      → Waits w
      → Archives env.platform w r.1
      → HoldsUpload path w r
      → Ends (continue_with r (save_diarization env id a))
  archived-Ends a w (raised e, w') h k held = archived-Waits w w' k h
  archived-Ends a w (returned none, w') h k held = cc (h.0)
  archived-Ends a w (returned (some stored), w') h k (d, there, held) =
      save_diarization-Ends a stored w' (archived-Waits w w' k h) (held ∙ sym there ∙ h.0)

  raise_cases :
      (error : Option String) (w : World (SpkTask J))
      → (raise_error error w ≡ (returned tt, w))
        ⊎ ((m : String) × (raise_error error w ≡ (raised m, w)))
  raise_cases none w = inl refl
  raise_cases (some e) w = elim (Bool-cases (e == "")) [
    | inl h ↦ inl (rw h refl)
    | inr h ↦ inr (e, rw h refl)
  ]

  finish_diarization-Ends :
      (o : Outcome (Answer J)) (w : World (SpkTask J))
      → IndexIsSound env.platform.sha256 w.archive w.index
      → KeysAreNew env.platform w.archive
      → HashIsInjective env.platform
      → Waits w
      → Ends (finish_diarization env id task path o w)
  finish_diarization-Ends (raised e) w sound new injective h = h
  finish_diarization-Ends (returned a) w sound new injective h = elim (raise_cases a.error w) [
    | inr (m, r) ↦ rw r h
    | inl r ↦
        let (k, held) =
          handle_complete-HoldsUpload env.platform w sound new injective path id task.filename "spk"
            task.email in
        rw r (archived-Ends a w _ h k held)
  ]

  module _ (w : World (SpkTask J)) (sound : IndexIsSound env.platform.sha256 w.archive w.index)
      (new : KeysAreNew env.platform w.archive) (injective : HashIsInjective env.platform)
      (row : get_spk id w.rows ≡ some task) (upload : upload_at path w.uploads ≡ some c) where
    abbrev marked : World (SpkTask J)
    marked = record w { rows = (update_spk_status w.now id "processing" w.rows).1 }

    marked-Waits : Waits marked
    unfolding update_spk_status get_spk
    marked-Waits =
        let f = spk_with_status w.now "processing" in
        let (found, there) = find_row-change_row spk_id id f w.rows task row (λ u. refl) in
        (upload, (f task, there, refl))

    audio_there : require_audio_file path w ≡ (returned tt, w)
    audio_there = rw (upload, require_audio_file) refl

    begin_cases :
        (begin_diarization env id path w ≡ (returned tt, marked))
        ⊎ ((m : String) × (begin_diarization env id path w ≡ (raised m, w)))
    begin_cases = elim (Option-cases env.marking) [
      | inr (m, e) ↦ inr (m, rw (audio_there, e) refl)
      | inl e ↦ inl (rw (audio_there, e) refl)
    ]

    try_diarization-Ends : Ends (try_diarization env id task path w)
    unfolding try_diarization
    try_diarization-Ends = elim begin_cases [
      | inl e ↦
          rw (try_diarization, e)
            (finish_diarization-Ends env.diarizing marked sound new injective marked-Waits)
      | inr (m, e) ↦ rw (try_diarization, e) (upload, (task, row, refl))
    ]

  -- How the processing ends.
  abbrev pub Finishes : Outcome Bool × World (SpkTask J) → Type 0
  Finishes (returned true, w) = IsDone w
  Finishes (returned false, w) =
      (upload_at path w.uploads ≡ some c) × HasSpk (λ t. t.status ≡ "failed") w.rows
  Finishes (raised e, w) =
      (upload_at path w.uploads ≡ some c)
      × ((env.saving_error ≡ some e) ⊎ (env.looking_up ≡ some e))

  end_diarization-Finishes :
      (r : Outcome (Unit {0}) × World (SpkTask J)) → Ends r → Finishes (end_diarization env id r)
  unfolding update_spk_error get_spk
  end_diarization-Finishes (returned u, w) h = h
  end_diarization-Finishes (raised e, w) (upload, (t, has, same)) =
      elim (Option-cases env.saving_error) [
        | inr (m, k) ↦ simp k (upload, inl refl)
        | inl k ↦
            let f = spk_with_error w.now e in
            let (found, there) = find_row-change_row spk_id id f w.rows t has (λ u. refl) in
            simp k (upload, (f t, there, refl))
      ]

-- With an index that tells the truth, new keys from the store and no collision of hashes, the
-- processing of a speaker task with its row and its upload ends in one of three ways: it returns
-- true, the upload lies in the archive and the completed row has its key, unless that is empty; it
-- returns false, the upload is where it was and the row has failed; or it raises what the
-- repository has raised on the error or when it looked the task up, and the upload is where it was.
pub process_spk_task-Finishes :
    {J : Type 0} (env : SpkCalls J) (id c : String) (task : SpkTask J) (w : World (SpkTask J))
    → IndexIsSound env.platform.sha256 w.archive w.index
    → KeysAreNew env.platform w.archive
    → HashIsInjective env.platform
    → get_spk id w.rows ≡ some task
    → upload_at (resolve env.platform id task.filename) w.uploads ≡ some c
    → Finishes env id (resolve env.platform id task.filename) c task (process_spk_task env id w)
unfolding process_spk_task
process_spk_task-Finishes env id c task w sound new injective row upload =
    let path = resolve env.platform id task.filename in
    elim (Option-cases env.looking_up) [
      | inr (m, e) ↦ simp (process_spk_task, e) (upload, inr refl)
      | inl e ↦
          simp (process_spk_task, e, row)
            (end_diarization-Finishes env id path c task _
              (try_diarization-Ends env id path c task w sound new injective row upload))
    ]
