-- ===== src/Tasks/Requests/Rerecognition.antt =====
-- Which tasks can be recognised again, and what the new task takes from its source.
use funasr_api.Prelude.{
  ℕ, ◌≤◌, ◌≡◌, ◌⊎◌, refl, ap, sym, ◌∙◌, String, Bool, true, false, ◌||◌, ◌&&◌, inl, inr, Option,
  none, some, [], ◌∷◌, ◌++◌, arith, Bool-cases, Option-cases,
}
use funasr_api.Prelude.Equality.{◌==◌, string_eq, add}
use funasr_api.TaskQueue.Scheduler.{Scheduler, can_accept}
use funasr_api.Tasks.Store.{OfflineTask, NewTask, new_row, get_by_id}
use funasr_api.Tasks.Submission.{Error, Result, ok, err, World, Surroundings}
use funasr_api.Tasks.Submission.Compensation.{create_and_enqueue_ok}
use funasr_api.Tasks.Requests.{
  is_given, is_blank, or_source, effective_vip, effective_hotwords, Restored, restored,
  archive_error, raised, Archive, Overrides, validate_source, digest_differs, verify_restored,
  finish_restore, submit_restored_task, rerecognition_task, rerecognize_source, rerecognize_offline,
}

-- What a source must be.
pub record IsUsable {J : Type 0} (t : OfflineTask J) : Type 0 where
  pub present : t.is_deleted ≡ false
  pub ended : (t.status == "completed" || t.status == "failed") ≡ true
  pub archived : is_blank t.s3_key ≡ false

module _ {J : Type 0} where
  validate_source_ok :
      (o : Option (OfflineTask J))
      → validate_source o ≡ none
      → (t : OfflineTask J) × (o ≡ some t) × IsUsable t
  unfolding validate_source
  validate_source_ok none h = cc
  validate_source_ok (some t) h = (t, refl, ground arith)

-- The archive has given back a file of this size and digest, within the limit, and the digest is
-- the one that the source was archived with, where that is known.
pub record IsVerified (same_digest : String → String → Bool) (max_size : ℕ)
    (expected : Option String) (a : Restored) (m : ℕ) (digest : String) : Type 0 where
  pub given : a ≡ restored m digest
  pub fits : m ≤ max_size
  pub intact : digest_differs same_digest expected digest ≡ false

verify_restored_ok :
    (same_digest : String → String → Bool) (max_size : ℕ) (expected : Option String) (a : Restored)
    (m : ℕ) (d : Option String)
    → verify_restored same_digest max_size expected a ≡ (ok m, d)
    → (digest : String) × IsVerified same_digest max_size expected a m digest × (d ≡ some digest)
unfolding verify_restored
verify_restored_ok same_digest max_size expected (restored size digest) m d h =
    (digest, ground arith, ground arith)
verify_restored_ok same_digest max_size expected archive_error m d h = cc
verify_restored_ok same_digest max_size expected raised m d h = cc

module _ {J : Type 0} (hotwords_ok : String → Bool) (same_digest : String → String → Bool)
    (env : Surroundings) (archive : Archive) (id : String) (max_size : ℕ) (o : Overrides)
    (w w' : World J) (fresh : get_by_id id w.rows ≡ none) where
  finish_restore_ok :
      (n : NewTask) (q : Scheduler) (r : Result × Option String) (m : ℕ)
      → finish_restore env "offline" id n (record w { files = add id w.files; scheduler = q }) r
        ≡ (ok m, w')
      → (r.0 ≡ ok m)
        × (w'.rows
            ≡ w.rows ++ new_row w.now id (record n { file_size = some m; file_hash = r.1 }) ∷ [])
  unfolding finish_restore
  finish_restore_ok n q (err e, d) m h = cc
  finish_restore_ok n q (ok size, d) m h =
      let (same, queued, rows, files) =
        create_and_enqueue_ok env "offline" id size
          (record n { file_size = some size; file_hash = d })
          (record w { files = add id w.files; scheduler = q }) w' fresh m h in
      (
        ap ok (sym same),
        rows
            ∙ ap
                (λ k.
                  w.rows ++ new_row w.now id (record n { file_size = some k; file_hash = d }) ∷ [])
                (sym same),
      )

  -- The new row: its hotwords are those of the one override, else the source's; its address and
  -- its VIP flag are overridden or the source's; its file is the archived one.
  pub record IsAgain (t : OfflineTask J) (m : ℕ) (digest : String) (u : OfflineTask J)
      : Type 0 where
    pub row_id : u.id ≡ id
    pub status : u.status ≡ "pending"
    pub size : u.file_size ≡ some m
    pub hash : u.file_hash ≡ some digest
    pub filename : u.filename ≡ t.filename
    pub key : u.s3_key ≡ t.s3_key
    pub source_id : u.source_task_id ≡ some t.id
    pub email :
        ((o.email ≡ none) × (u.email ≡ t.email))
        ⊎ ((e : String) × (o.email ≡ some e) × (u.email ≡ some e))
    pub vip : ((o.vip ≡ none) × (u.vip ≡ t.vip)) ⊎ (o.vip ≡ some u.vip)
    pub hotwords :
        ((o.hotwords ≡ none)
          × (o.hotword_id ≡ none)
          × (u.hotwords ≡ t.hotwords)
          × (u.hotword_id ≡ t.hotword_id))
        ⊎ ((text : String) × (o.hotwords ≡ some text)
            × (u.hotwords ≡ some text)
            × (u.hotword_id ≡ none))
        ⊎ ((n : ℕ) × (o.hotword_id ≡ some n) × (u.hotwords ≡ none) × (u.hotword_id ≡ some n))

  -- What a rerecognition that is accepted has found and made.
  pub record IsAccepted (source_id : String) (m : ℕ) (t : OfflineTask J) (digest : String)
      : Type 0 where
    pub source : get_by_id source_id w.rows ≡ some t
    pub usable : IsUsable t
    pub one_override : (is_given o.hotwords && is_given o.hotword_id) ≡ false
    pub verified : IsVerified same_digest max_size t.file_hash archive.answer m digest
    pub rows : (u : OfflineTask J) × (w'.rows ≡ w.rows ++ u ∷ []) × IsAgain t m digest u

  new_task-IsAgain :
      (t : OfflineTask J) (m : ℕ) (digest : String)
      → IsAgain t m digest (
          new_row w.now id
            (record (rerecognition_task o t) { file_size = some m; file_hash = some digest }))
  unfolding new_row rerecognition_task effective_hotwords
  new_task-IsAgain t m digest = record {
    row_id = refl;
    status = refl;
    size = refl;
    hash = refl;
    filename = refl;
    key = refl;
    source_id = refl;
    email = overridden o.email;
    vip = vip_of o.vip;
    hotwords = hotwords_of o;
  }
    where
      overridden :
          (e : Option String)
          → ((e ≡ none) × (or_source e t.email ≡ t.email))
            ⊎ ((s : String) × (e ≡ some s) × (or_source e t.email ≡ some s))
      overridden none = inl (refl, refl)
      overridden (some s) = inr (s, refl, refl)

      vip_of :
          (v : Option Bool)
          → ((v ≡ none) × (effective_vip v t.vip ≡ t.vip)) ⊎ (v ≡ some (effective_vip v t.vip))
      vip_of none = inl (refl, refl)
      vip_of (some v) = inr refl

      hotwords_of :
          (p : Overrides)
          → let (text, n) = effective_hotwords p t.hotwords t.hotword_id in
            ((p.hotwords ≡ none) × (p.hotword_id ≡ none) × (text ≡ t.hotwords) × (n ≡ t.hotword_id))
            ⊎ ((h : String) × (p.hotwords ≡ some h) × (text ≡ some h) × (n ≡ none))
            ⊎ ((k : ℕ) × (p.hotword_id ≡ some k) × (text ≡ none) × (n ≡ some k))
      hotwords_of p = elim (Option-cases p.hotwords) [
        | inr (h, e) ↦
            inr (inl (h, e, simp (e, effective_hotwords) refl, simp (e, effective_hotwords) refl))
        | inl e ↦ elim (Option-cases p.hotword_id) [
          | inr (k, f) ↦ inr (
              inr
                (k, f, simp (e, f, effective_hotwords) refl, simp (e, f, effective_hotwords) refl))
          | inl f ↦
              inl (e, f, simp (e, f, effective_hotwords) refl, simp (e, f, effective_hotwords) refl)
        ]
      ]

  source_ok :
      (t : OfflineTask J) (m : ℕ)
      → rerecognize_source hotwords_ok same_digest env archive id max_size o w (some t) none
        ≡ (ok m, w')
      → ((is_given o.hotwords && is_given o.hotword_id) ≡ false)
        × (submit_restored_task same_digest env archive "offline" id max_size t
              (rerecognition_task o t)
              w
            ≡ (ok m, w'))
  unfolding rerecognize_source
  source_ok t m h = ground arith

  restored_ok :
      (t : OfflineTask J) (m : ℕ)
      → submit_restored_task same_digest env archive "offline" id max_size t
          (rerecognition_task o t)
          w
        ≡ (ok m, w')
      → finish_restore env "offline" id
          (rerecognition_task o t)
          (record w { files = add id w.files; scheduler = env.meanwhile w.scheduler })
          (verify_restored same_digest max_size t.file_hash archive.answer)
        ≡ (ok m, w')
  unfolding submit_restored_task
  restored_ok t m h = ground arith

  rerecognize_source-IsAccepted :
      (source_id : String) (t : OfflineTask J) (m : ℕ)
      → get_by_id source_id w.rows ≡ some t
      → IsUsable t
      → rerecognize_source hotwords_ok same_digest env archive id max_size o w (some t) none
        ≡ (ok m, w')
      → (digest : String) × IsAccepted source_id m t digest
  rerecognize_source-IsAccepted source_id t m found usable h =
      let (one_override, h') = source_ok t m h in
      let (size_ok, rows) = finish_restore_ok _ _ _ m (restored_ok t m h') in
      let r = verify_restored same_digest max_size t.file_hash archive.answer in
      let (digest, verified, d) =
        verify_restored_ok same_digest max_size t.file_hash archive.answer m r.1
          (ap (λ (x : Result). (x, r.1)) size_ok) in
      (
        digest,
        record {
          source = found;
          usable = usable;
          one_override = one_override;
          verified = verified;
          rows = (
            _,
            rows
                ∙ ap
                    (λ k.
                      w.rows
                      ++ new_row w.now id
                          (record (rerecognition_task o t) { file_size = some m; file_hash = k })
                        ∷ [])
                    d,
            new_task-IsAgain t m digest,
          );
        },
      )

  -- A rerecognition that is accepted has a source that is not deleted, has completed or failed,
  -- and is archived; of the two hotword overrides at most one was given; the archive gave back a
  -- file within the limit whose digest does not differ from the source's; and one row is new,
  -- pending, with that size and digest and the source's file name and key. Its address and its VIP
  -- flag are the overrides where given, else the source's; an override of the hotwords or of their
  -- id replaces both, and without one both are the source's.
  pub rerecognize_offline-IsAccepted :
      (source_id : String) (m : ℕ)
      → rerecognize_offline hotwords_ok same_digest env archive id max_size source_id o w
        ≡ (ok m, w')
      → (t : OfflineTask J) × (digest : String) × IsAccepted source_id m t digest
  unfolding rerecognize_offline
  rerecognize_offline-IsAccepted source_id m h =
      elim (Bool-cases (can_accept "offline" w.scheduler)) [
        | inr closed ↦ cc (rw closed at h)
        | inl accepts ↦
            found (get_by_id source_id w.rows) refl (validate_source (get_by_id source_id w.rows))
              refl (rw accepts at h)
      ]
    where
      found :
          (s : Option (OfflineTask J))
          → get_by_id source_id w.rows ≡ s
          → (e : Option Error) → validate_source s ≡ e
          → rerecognize_source hotwords_ok same_digest env archive id max_size o w s e ≡ (ok m, w')
          → (t : OfflineTask J) × (digest : String) × IsAccepted source_id m t digest
      found s is_s (some e) v g = cc
      found s is_s none v g =
          let (t, is_t, usable) = validate_source_ok s v in
          let (digest, accepted) =
            rerecognize_source-IsAccepted source_id t m (is_s ∙ is_t) usable (rw is_t at g) in
          (t, digest, accepted)
