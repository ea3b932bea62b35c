-- ===== src/Tasks/Processing/Outcomes.antt =====
-- What the processing of an offline task leaves behind (src/application/offline.py and the hooks of
-- src/task_queue/result_hooks.py).
use funasr_api.Prelude.{
  ◌≡◌, refl, ap, sym, ◌∙◌, subst, String, false, inl, inr, Option, none, some, Option-cases,
}
use funasr_api.Prelude.Equality.{string_eq, beq_refl}
use funasr_api.Tasks.Store.{
  OfflineTask, with_result, update_result, update_file_info, with_file_info,
}
use funasr_api.Tasks.Effects.{Outcome, returned, raised, continue_with}
use funasr_api.Tasks.Files.{AudioPath, StoredFileResult, TaskContext, World, upload_at, content_at}
use funasr_api.Tasks.Archive.{or_empty, handle_complete}
use funasr_api.Tasks.Archive.Index.{IndexIsSound, KeysAreNew, HashIsInjective}
use funasr_api.Tasks.Archive.Soundness.{Archives, HoldsUpload, handle_complete-HoldsUpload}
use funasr_api.Tasks.Processing.{
  Recognition, Calls, backup_audio, record_backup, write_text_file, save_result,
}
use funasr_api.Tasks.Processing.Rows.{Has, change-Has}

module _ {J : Type 0} (env : Calls J) (result : Recognition J) (id : String) (path : AudioPath)
    (c : String) where
  -- The task of the context has its row and its upload.
  pub record IsReady (w : World (OfflineTask J)) : Type 0 where
    pub task : w.context.task_id ≡ id
    pub file : w.context.audio_path ≡ path
    pub row : Has id (λ t. Unit) w.rows
    pub upload : upload_at path w.uploads ≡ some c

  -- The context has a key of the archive under which the upload lies, and so has the row.
  abbrev pub IsArchived : (OfflineTask J → Type 0) → World (OfflineTask J) → Type 0
  IsArchived P w =
      (key : String) × (w.context.backup_key ≡ some key)
      × (content_at key w.archive ≡ some c)
      × Has id (λ t. (t.s3_key ≡ some key) × P t) w.rows

  -- The row and the text file of a completed task.
  abbrev pub IsCompleted : OfflineTask J → Type 0
  IsCompleted t = (t.status ≡ "completed") × (t.full_text ≡ some (or_empty result.full_text))

  -- A hook has either raised and left the task ready, or has led to the next state.
  abbrev pub Leads :
      (World (OfflineTask J) → Type 0) → Outcome (Unit {0}) × World (OfflineTask J) → Type 0
  Leads P (returned u, w) = IsReady w × P w
  Leads P (raised e, w) = IsReady w

  archived-IsReady :
      (w w' : World (OfflineTask J)) → IsReady w → Archives env.platform w w' → IsReady w'
  archived-IsReady w w' h a = record {
    task = ap (λ (x : TaskContext). x.task_id) a.context ∙ h.task;
    file = ap (λ (x : TaskContext). x.audio_path) a.context ∙ h.file;
    row = subst (Has id λ t. Unit) (sym a.rows) h.row;
    upload = ap (upload_at path) a.uploads ∙ h.upload;
  }

  recorded :
      (stored : StoredFileResult) (w : World (OfflineTask J))
      → IsReady w
      → content_at stored.s3_key w.archive ≡ some c
      → Leads (IsArchived λ t. Unit) (record_backup env id (some stored) w)
  unfolding update_file_info
  recorded stored w h held = elim (Option-cases env.saving_file_info) [
    | inr (m, e) ↦ simp e (record { task = h.task; file = h.file; row = h.row; upload = h.upload })
    | inl e ↦
        let (t, has, done) = h.row in
        let (found, there) =
          change-Has id (with_file_info (some stored.s3_key) (some stored.file_sha256)) w.rows t has
            (λ u. refl) in
        simp e (
          record { task = h.task; file = h.file; row = (_, there, tt); upload = h.upload },
          (stored.s3_key, refl, held, (_, there, (refl, tt))),
        )
  ]

  backup_recorded :
      (w : World (OfflineTask J)) (r : Outcome (Option StoredFileResult) × World (OfflineTask J))
      → IsReady w
      → Archives env.platform w r.1
      → HoldsUpload path w r
      → Leads (IsArchived λ t. Unit) (continue_with r (record_backup env id))
  backup_recorded w (raised e, w') h a k = archived-IsReady w w' h a
  backup_recorded w (returned none, w') h a k = cc (h.upload)
  backup_recorded w (returned (some stored), w') h a (d, there, held) =
      recorded stored w' (archived-IsReady w w' h a) (held ∙ sym there ∙ h.upload)

  abbrev BackupLeads : World (OfflineTask J) → AudioPath → String → Type 0
  BackupLeads w p t = Leads (IsArchived λ u. Unit) (
      continue_with
        (handle_complete env.platform p t w.context.filename "offline" w.context.email false w)
        (record_backup env t))

  pub backup_audio-Leads :
      (w : World (OfflineTask J))
      → IndexIsSound env.platform.sha256 w.archive w.index
      → KeysAreNew env.platform w.archive
      → HashIsInjective env.platform
      → IsReady w
      → Leads (IsArchived λ t. Unit) (backup_audio env w)
  unfolding backup_audio
  backup_audio-Leads w sound new injective h =
      let (a, k) =
        handle_complete-HoldsUpload env.platform w sound new injective path id w.context.filename
          "offline" w.context.email in
      subst (λ p. BackupLeads w p w.context.task_id) (sym h.file)
        (subst (λ t. BackupLeads w path t) (sym h.task) (backup_recorded w _ h a k))

  -- The text file of the task has the text of the result.
  abbrev pub HasText : World (OfflineTask J) → Type 0
  HasText w = content_at id w.texts ≡ some (or_empty result.full_text)

  pub write_text_file-Leads :
      (w : World (OfflineTask J))
      → IsReady w
      → IsArchived (λ t. Unit) w
      → Leads (λ v. IsArchived (λ t. Unit) v × HasText v) (write_text_file env result w)
  unfolding write_text_file content_at
  write_text_file-Leads w h k = elim (Option-cases env.writing_text) [
    | inr (m, e) ↦ simp (write_text_file, e) h
    | inl e ↦
        simp (write_text_file, e)
          (
            record { task = h.task; file = h.file; row = h.row; upload = h.upload },
            (k, simp (h.task, beq_refl id) refl),
          )
  ]

  pub save_result-Leads :
      (w : World (OfflineTask J))
      → IsReady w
      → IsArchived (λ t. Unit) w × HasText w
      → Leads (λ v. IsArchived IsCompleted v × HasText v) (save_result env result w)
  unfolding save_result update_result
  save_result-Leads w h ((key, b, held, (t, has, (k, u))), text) =
      elim (Option-cases env.saving_result) [
        | inr (m, e) ↦ simp (save_result, e) h
        | inl e ↦
            let (found, there) =
              change-Has id
                (with_result w.now (or_empty result.full_text) result.segments
                  result.processing_time (some result.word_timestamps))
                w.rows t has (λ v. refl) in
            simp (save_result, e, h.task, update_result, found)
              (
                record { task = h.task; file = h.file; row = (_, there, tt); upload = h.upload },
                ((key, b, held, (_, there, (k, (refl, refl)))), text),
              )
      ]
