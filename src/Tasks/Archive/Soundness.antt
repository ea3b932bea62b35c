-- ===== src/Tasks/Archive/Soundness.antt =====
-- The archiving of an upload (src/application/postprocess.py, src/application/file_processing.py):
-- what it keeps, and where its end has put the content.
use funasr_api.Prelude.{
  ◌≡◌, refl, subst, ap, sym, ◌∙◌, String, false, ◌⊎◌, inl, inr, Option, none, some, List, [], ◌∷◌,
  All-append, Option-cases,
}
use funasr_api.Tasks.Effects.{Outcome, returned, raised, ◌>>◌, continue_with, pure}
use funasr_api.Tasks.Archive.Cases.{
  find_cases, publish_cases, record_cases, store_cases, with_archive, with_notice, with_row, Stored,
}
use funasr_api.Tasks.Archive.Index.{
  IndexIsSound, KeysAreNew, HashIsInjective, content_at_new, content_at_here, IndexIsSound-new,
  get_by_hash-IsBacked,
}
use funasr_api.Tasks.Files.{
  AudioPath, S3File, StoredFileResult, Notice, World, BackupStore, Platform, upload_at, content_at,
}
use funasr_api.Tasks.Archive.{
  notice_of, get_by_hash, publish_completion, index_row, store_file, archive_file, complete_file,
  handle_complete,
}

-- What archiving keeps and adds.
pub record Archives {R : Type 0} (env : Platform) (w w' : World R) : Type 0 where
  pub rows : w'.rows ≡ w.rows
  pub uploads : w'.uploads ≡ w.uploads
  pub texts : w'.texts ≡ w.texts
  pub context : w'.context ≡ w.context
  pub now : w'.now ≡ w.now
  pub sound : IndexIsSound env.sha256 w'.archive w'.index
  pub kept :
      (key c : String) → content_at key w.archive ≡ some c → content_at key w'.archive ≡ some c

-- The end of archiving: an exception, or a key under which the content lies.
abbrev pub HasKey : String → List (String × String) → Outcome StoredFileResult → Type 0
HasKey content archive (returned stored) = content_at stored.s3_key archive ≡ some content
HasKey content archive (raised e) = Unit

module _ {R : Type 0} (env : Platform) (content : String) (w : World R)
    (sound : IndexIsSound env.sha256 w.archive w.index) (new : KeysAreNew env w.archive)
    (injective : HashIsInjective env) where
  Archives-refl : Archives env w w
  Archives-refl = record {
    rows = refl;
    uploads = refl;
    texts = refl;
    context = refl;
    now = refl;
    sound = sound;
    kept = λ key c h. h;
  }

  Archives-new :
      (s : BackupStore) (key : String)
      → env.store ≡ some s
      → s.backing_up ≡ returned key
      → Archives env w (with_archive ((key, content) ∷ w.archive) w)
  Archives-new s key e b = record {
    rows = refl;
    uploads = refl;
    texts = refl;
    context = refl;
    now = refl;
    sound = IndexIsSound-new env.sha256 key content w.archive w.index (new s e key b) sound;
    kept = λ k c h. content_at_new key k content c w.archive (new s e key b) h;
  }

  -- The new row of the index is backed by the copy.
  Archives-row :
      (f : S3File) (w' : World R)
      → Archives env w w'
      → content_at f.s3_key w'.archive ≡ some content
      → env.sha256 content ≡ f.file_sha256
      → Archives env w (with_row f w')
  Archives-row f w' a there hash = record {
    rows = a.rows;
    uploads = a.uploads;
    texts = a.texts;
    context = a.context;
    now = a.now;
    sound = All-append _ w'.index (f ∷ []) a.sound ((content, there, hash), tt);
    kept = a.kept;
  }

  reused :
      (existing : S3File)
      → get_by_hash (env.sha256 content) w.index ≡ some existing
      → content_at existing.s3_key w.archive ≡ some content
  reused existing e =
      let ((c, there, hash), same) =
        get_by_hash-IsBacked env.sha256 w.archive (env.sha256 content) w.index existing sound e in
      there ∙ ap some (injective c content (hash ∙ same))

  abbrev Ends : Outcome StoredFileResult × World R → Type 0
  Ends r = Archives env w r.1 × HasKey content r.1.archive r.0

  archive_new-Ends :
      (task_key filename source : String)
      → Ends (archive_file env content task_key filename source none w)
  unfolding archive_file
  archive_new-Ends task_key filename source =
      finish (store_file env content (env.sha256 content) (env.size content) w) refl
        (store_cases env content (env.sha256 content) (env.size content) w)
    where
      recorded :
          (stored : StoredFileResult) (w' : World R)
          → store_file env content (env.sha256 content) (env.size content) w ≡ (returned stored, w')
          → Archives env w w'
          → content_at stored.s3_key w'.archive ≡ some content
          → stored.file_sha256 ≡ env.sha256 content
          → Ends (archive_file env content task_key filename source none w)
      recorded stored w' e a there hash =
          elim (record_cases env task_key source filename stored w') [
            | inl r ↦ rw (archive_file, e, r) (a, there)
            | inr r ↦
                rw (archive_file, e, r)
                  (
                    Archives-row (index_row task_key source filename stored) w' a there (sym hash),
                    there,
                  )
          ]

      finish :
          (r : Outcome StoredFileResult × World R)
          → store_file env content (env.sha256 content) (env.size content) w ≡ r
          → Stored env content (env.sha256 content) w r
          → Ends (archive_file env content task_key filename source none w)
      finish r e (inl (m, q)) = rw (archive_file, e, q) (Archives-refl, tt)
      finish (o, w') e (inr (s, key, has, b, state, inl (m, q))) =
          rw (archive_file, e, q, state) (Archives-new s key has b, tt)
      finish (o, w') e (inr (s, key, has, b, state, inr (stored, q, k, hash))) =
          recorded stored w' (rw q at e)
            (subst (Archives env w) (sym state) (Archives-new s key has b))
            (rw (k, state) (content_at_here key content w.archive)) hash

  archive_file-Ends :
      (task_key filename source : String) (existing : Option S3File)
      → (existing ≡ none) ⊎ (existing ≡ get_by_hash (env.sha256 content) w.index)
      → Ends (archive_file env content task_key filename source existing w)
  unfolding archive_file
  archive_file-Ends task_key filename source none h = archive_new-Ends task_key filename source
  archive_file-Ends task_key filename source (some f) (inl h) = cc
  archive_file-Ends task_key filename source (some f) (inr h) = (Archives-refl, reused f (sym h))

  abbrev KeepsKey : Outcome (Option StoredFileResult) → World R → Type 0
  KeepsKey (returned (some stored)) w' = content_at stored.s3_key w'.archive ≡ some content
  KeepsKey (returned none) w' = ⊥
  KeepsKey (raised e) w' = Unit

  abbrev pub Completes : Outcome (Option StoredFileResult) × World R → Type 0
  Completes r = Archives env w r.1 × KeepsKey r.0 r.1

  Archives-notice :
      (n : Notice) (w' : World R) → Archives env w w' → Archives env w (with_notice n w')
  Archives-notice n w' a = record {
    rows = a.rows;
    uploads = a.uploads;
    texts = a.texts;
    context = a.context;
    now = a.now;
    sound = a.sound;
    kept = a.kept;
  }

  -- What `complete_file` does once the archive has the file.
  abbrev announce :
      AudioPath
      → String
      → String
      → Option String
      → Outcome StoredFileResult × World R
      → Outcome (Option StoredFileResult) × World R
  announce path task_key source email r = continue_with r λ stored. do
    publish_completion env (notice_of task_key source email stored)
    pure (some stored)

  announce-Completes :
      (path : AudioPath) (task_key source : String) (email : Option String)
      (r : Outcome StoredFileResult × World R)
      → Ends r
      → Completes (announce path task_key source email r)
  announce-Completes path task_key source email (raised m, w') (a, k) = (a, tt)
  announce-Completes path task_key source email (returned stored, w') (a, k) =
      elim (publish_cases env (notice_of task_key source email stored) w') [
        | inl p ↦ rw p (a, k)
        | inr p ↦ rw p (Archives-notice _ w' a, k)
      ]

  -- Without the removal of the upload: the exceptions, or the key.
  pub complete_file-Completes :
      (path : AudioPath) (task_key filename source : String) (email : Option String)
      → Completes (complete_file env path content task_key filename source email false w)
  unfolding complete_file
  complete_file-Completes path task_key filename source email = elim (Option-cases env.hashing) [
    | inr (m, h) ↦ simp (complete_file, h) (Archives-refl, tt)
    | inl h ↦ elim (Option-cases env.measuring) [
      | inr (m, k) ↦ simp (complete_file, h, k) (Archives-refl, tt)
      | inl k ↦ elim (find_cases env (env.sha256 content) w) [
        | inl f ↦
            simp (complete_file, h, k, f)
              (announce-Completes path task_key source email _
                (archive_file-Ends task_key filename source none (inl refl)))
        | inr f ↦
            simp (complete_file, h, k, f)
              (announce-Completes path task_key source email _
                (archive_file-Ends task_key filename source _ (inr refl)))
      ]
    ]
  ]

-- What the archiving of the upload at a path may come to: no file, an exception, or a key.
abbrev pub HoldsUpload :
    {R : Type 0} → AudioPath → World R → Outcome (Option StoredFileResult) × World R → Type 0
HoldsUpload path w (returned (some stored), w') =
    (c : String) × (upload_at path w.uploads ≡ some c)
    × (content_at stored.s3_key w'.archive ≡ some c)
HoldsUpload path w (returned none, w') = upload_at path w.uploads ≡ none
HoldsUpload path w (raised e, w') = Unit

module _ {R : Type 0} (env : Platform) (w : World R)
    (sound : IndexIsSound env.sha256 w.archive w.index) (new : KeysAreNew env w.archive)
    (injective : HashIsInjective env) where
  held :
      (path : AudioPath) (c : String)
      → upload_at path w.uploads ≡ some c
      → (r : Outcome (Option StoredFileResult) × World R)
      → KeepsKey env c w sound new injective r.0 r.1
      → HoldsUpload path w r
  held path c e (returned (some stored), w') k = (c, e, k)
  held path c e (returned none, w') k = absurd k
  held path c e (raised m, w') k = tt

  -- With an index that tells the truth, new keys from the store and no collision of hashes, the
  -- archiving of an upload that is to be kept changes no row, upload, text or context, loses no
  -- archived content and leaves an index that tells the truth; and when it returns a key, for a
  -- file that it stored or for one that it has found by its hash, the content of the upload lies
  -- in the archive under that key. It returns no key only where there is no upload.
  pub handle_complete-HoldsUpload :
      (path : AudioPath) (task_key filename source : String) (email : Option String)
      → Archives env w (handle_complete env path task_key filename source email false w).1
        × HoldsUpload path w (handle_complete env path task_key filename source email false w)
  unfolding handle_complete
  handle_complete-HoldsUpload path task_key filename source email =
      elim (Option-cases (upload_at path w.uploads)) [
        | inl e ↦ rw (e, handle_complete) (Archives-refl env "" w sound new injective, e)
        | inr (c, e) ↦
            let (a, k) =
              complete_file-Completes env c w sound new injective path task_key filename source
                email in
            rw (e, handle_complete) (a, held path c e _ k)
      ]
