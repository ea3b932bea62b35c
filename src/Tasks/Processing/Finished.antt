-- ===== src/Tasks/Processing/Finished.antt =====
-- The hooks of a recognized task (src/task_queue/result_hooks.py), from the archive to the cleanup.
use funasr_api.Prelude.{◌≡◌, refl, String, true, inl, inr, some, [], Bool-cases}
use funasr_api.Prelude.Equality.{string_eq}
use funasr_api.Tasks.Store.{OfflineTask}
use funasr_api.Tasks.Effects.{Outcome, returned, raised, Action}
use funasr_api.Tasks.Effects.Hooks.{run, after_hook}
use funasr_api.Tasks.Files.{AudioPath, World, is_given, upload_at, content_at}
use funasr_api.Tasks.Archive.Index.{IndexIsSound, KeysAreNew, HashIsInjective}
use funasr_api.Tasks.Processing.{
  Recognition, Calls, Hook, audio_backup, text_result_file, result_persistence, temp_cleanup,
  critical, clean_temp, on_success, handle_success,
}
use funasr_api.Tasks.Processing.Rows.{Has}
use funasr_api.Tasks.Processing.Outcomes.{
  IsReady, IsCompleted, HasText, Leads, backup_audio-Leads, write_text_file-Leads,
  save_result-Leads,
}

module _ {J : Type 0} (env : Calls J) (id : String) (path : AudioPath) (c : String) where
  -- The upload and the row are there.
  abbrev pub IsWaiting : World (OfflineTask J) → Type 0
  IsWaiting w = (upload_at path w.uploads ≡ some c) × Has id (λ t. Unit) w.rows

  -- The upload lies in the archive, under the key of the completed row, and the row and the text
  -- file have the text of the result.
  abbrev pub IsKept : Recognition J → World (OfflineTask J) → Type 0
  IsKept result w =
      (key : String) × (content_at key w.archive ≡ some c)
      × Has id (λ t. (t.s3_key ≡ some key) × IsCompleted env result id path c t) w.rows
      × HasText env result id path c w

  abbrev pub Final : Recognition J → Outcome (Unit {0}) × World (OfflineTask J) → Type 0
  Final result (returned u, w) = IsKept result w
  Final result (raised e, w) = IsWaiting w

  -- The hooks behind a critical one run only when it has led to the next state.
  stage :
      (result : Recognition J) (P : World (OfflineTask J) → Type 0) (h : Hook)
      (rest : Action (World (OfflineTask J)) (Unit {0}))
      (r : Outcome (Unit {0}) × World (OfflineTask J))
      → critical h ≡ true
      → Leads env result id path c P r
      → ((w : World (OfflineTask J)) → IsReady env result id path c w → P w → Final result (rest w))
      → Final result (after_hook critical (on_success env result) true h r rest)
  stage result P h rest (returned u, w) hard (ready, p) next = next w ready p
  stage result P h rest (raised e, w) hard ready next = rw hard (ready.upload, ready.row)

  -- The cleanup returns, whatever it has removed.
  abbrev Cleans : Recognition J → Outcome (Unit {0}) × World (OfflineTask J) → Type 0
  Cleans result r = (r.0 ≡ returned tt) × IsKept result r.1

  clean_temp-IsKept :
      (result : Recognition J) (w : World (OfflineTask J))
      → IsKept result w
      → Cleans result (clean_temp env w)
  unfolding clean_temp
  clean_temp-IsKept result w k = elim (Bool-cases (is_given w.context.backup_key)) [
    | inr e ↦ simp (clean_temp, e) (refl, k)
    | inl e ↦ elim (Bool-cases env.removing) [
      | inr d ↦ simp (clean_temp, e, d) (refl, k)
      | inl d ↦ elim (Bool-cases env.has_temp_store) [
        | inl b ↦ simp (clean_temp, e, d, b) (refl, k)
        | inr b ↦ simp (clean_temp, e, d, b) (refl, k)
      ]
    ]
  ]

  pub handle_success-Final :
      (result : Recognition J) (w : World (OfflineTask J))
      → IndexIsSound env.platform.sha256 w.archive w.index
      → KeysAreNew env.platform w.archive
      → HashIsInjective env.platform
      → IsReady env result id path c w
      → Final result (handle_success env result w)
  unfolding handle_success run on_success
  handle_success-Final result w sound new injective h =
      stage result _ audio_backup _ _ refl
        (backup_audio-Leads env result id path c w sound new injective h)
        λ v hv kv.
          stage result _ text_result_file _ _ refl
            (write_text_file-Leads env result id path c v hv kv)
            λ x hx kx.
              stage result _ result_persistence _ _ refl
                (save_result-Leads env result id path c x hx kx)
                λ y hy ((key, b, held, has), text).
                  last y (clean_temp env y) (clean_temp-IsKept result y (key, held, has, text))
    where
      last :
          (y : World (OfflineTask J)) (r : Outcome (Unit {0}) × World (OfflineTask J))
          → Cleans result r
          → Final result (
              after_hook critical
                (on_success env result)
                true
                temp_cleanup
                r
                (run critical (on_success env result) true []))
      last y (returned u, v) f = f.1
      last y (raised e, v) f = cc f.0
