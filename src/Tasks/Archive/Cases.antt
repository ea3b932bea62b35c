-- ===== src/Tasks/Archive/Cases.antt =====
-- How each call of the archive may end (src/application/file_processing.py,
-- src/application/postprocess.py).
use funasr_api.Prelude.{
  ℕ, ◌≡◌, refl, String, true, false, ◌⊎◌, inl, inr, none, some, List, [], ◌∷◌, ◌++◌, Bool-cases,
  Option-cases,
}
use funasr_api.Prelude.Equality.{◌==◌, string_eq}
use funasr_api.Tasks.Effects.{Outcome, returned, raised}
use funasr_api.Tasks.Files.{S3File, StoredFileResult, Notice, World, BackupStore, Platform}
use funasr_api.Tasks.Archive.{
  has_issue, get_by_hash, create_file, find, record_file, publish_completion, index_row,
  backup_original, store_file, integrity_error, unavailable_error, no_key_error, stored_file,
}

pub Outcome-cases {ℓ} :
    {A : Type ℓ} (o : Outcome A) → ((a : A) × (o ≡ returned a)) ⊎ ((e : String) × (o ≡ raised e))
Outcome-cases (returned a) = inl (a, refl)
Outcome-cases (raised e) = inr (e, refl)

module _ {R : Type 0} where
  abbrev pub with_archive : List (String × String) → World R → World R
  with_archive archive w = record w { archive = archive }

  pub find_cases :
      (env : Platform) (h : String) (w : World R)
      → (find env h w ≡ (returned none, w)) ⊎ (find env h w ≡ (returned (get_by_hash h w.index), w))
  unfolding find
  find_cases env h w = elim (Bool-cases env.has_index) [
    | inl e ↦ elim (Option-cases env.finding) [
      | inl d ↦ inr (rw (e, d) refl)
      | inr (m, d) ↦ inl (rw (e, d) refl)
    ]
    | inr e ↦ inl (rw e refl)
  ]

  abbrev pub with_notice : Notice → World R → World R
  with_notice n w = record w { notices = w.notices ++ n ∷ [] }

  pub publish_cases :
      (env : Platform) (n : Notice) (w : World R)
      → (publish_completion env n w ≡ (returned false, w))
        ⊎ (publish_completion env n w ≡ (returned true, with_notice n w))
  unfolding publish_completion
  publish_cases env n w = elim (Bool-cases env.publisher.enabled) [
    | inr d ↦ inl (rw d refl)
    | inl d ↦ elim (Bool-cases (n.email == "")) [
      | inl e ↦ inl (rw (d, e) refl)
      | inr e ↦ elim (Bool-cases (has_issue env.publisher)) [
        | inl i ↦ inl (rw (d, e, rw d at i) refl)
        | inr i ↦ elim (Option-cases env.publisher.sending) [
          | inl m ↦ inr (rw (d, e, rw d at i, m) refl)
          | inr (x, m) ↦ inl (rw (d, e, rw d at i, m) refl)
        ]
      ]
    ]
  ]

  abbrev pub with_row : S3File → World R → World R
  with_row f w = record w { index = w.index ++ f ∷ [] }

  create_cases :
      (f : S3File) (w : World R)
      → (create_file f w ≡ (returned tt, with_row f w))
        ⊎ ((e : String) × (create_file f w ≡ (raised e, w)))
  unfolding create_file
  create_cases f w = elim (Option-cases (get_by_hash f.file_sha256 w.index)) [
    | inl g ↦ inl (rw (g, create_file) refl)
    | inr (h, g) ↦ inr (integrity_error, rw (g, create_file) refl)
  ]

  pub record_cases :
      (env : Platform) (key source filename : String) (stored : StoredFileResult) (w : World R)
      → (record_file env key source filename stored w ≡ (returned false, w))
        ⊎ (record_file env key source filename stored w
            ≡ (returned true, with_row (index_row key source filename stored) w))
  unfolding record_file
  record_cases env key source filename stored w = elim (Bool-cases env.has_index) [
    | inr e ↦ inl (rw e refl)
    | inl e ↦ elim (Option-cases env.recording) [
      | inr (m, d) ↦ inl (rw (e, d) refl)
      | inl d ↦ elim (create_cases (index_row key source filename stored) w) [
        | inl g ↦ inr (rw (e, d, g) refl)
        | inr (m, g) ↦ inl (rw (e, d, g) refl)
      ]
    ]
  ]

  -- What archiving a new file leads to: a failure before or after the copy, or the copy.
  abbrev pub Stored :
      Platform → String → String → World R → Outcome StoredFileResult × World R → Type 0
  Stored env content h w r =
      ((e : String) × (r ≡ (raised e, w)))
      ⊎ ((s : BackupStore) × (key : String) × (env.store ≡ some s)
          × (s.backing_up ≡ returned key)
          × (r.1 ≡ with_archive ((key, content) ∷ w.archive) w)
          × (((e : String) × (r.0 ≡ raised e))
              ⊎ ((stored : StoredFileResult) × (r.0 ≡ returned stored)
                  × (stored.s3_key ≡ key)
                  × (stored.file_sha256 ≡ h))))

  pub store_cases :
      (env : Platform) (content h : String) (size : ℕ) (w : World R)
      → Stored env content h w (store_file env content h size w)
  unfolding store_file backup_original
  store_cases env content h size w = elim (Option-cases env.store) [
    | inl e ↦ inl (unavailable_error, rw e refl)
    | inr (s, e) ↦ elim (Bool-cases s.enabled) [
      | inr d ↦ inl (unavailable_error, rw (e, d) refl)
      | inl d ↦ elim (Outcome-cases s.backing_up) [
        | inr (m, b) ↦ inl (m, rw (e, d, b) refl)
        | inl (key, b) ↦ elim (Bool-cases (key == "")) [
          | inl k ↦
              inr (s, key, e, b, rw (e, d, b, k) refl, inl (no_key_error, rw (e, d, b, k) refl))
          | inr k ↦ elim (Outcome-cases (s.get_local_path key)) [
            | inl (p, l) ↦ inr (
              s,
              key,
              e,
              b,
              rw (e, d, b, k, l) refl,
              inr (stored_file env s key h size p, rw (e, d, b, k, l) refl, refl, refl),
            )
            | inr (m, l) ↦
                inr (s, key, e, b, rw (e, d, b, k, l) refl, inl (m, rw (e, d, b, k, l) refl))
          ]
        ]
      ]
    ]
  ]
