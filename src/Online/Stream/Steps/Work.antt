-- ===== src/Online/Stream/Steps/Work.antt =====
-- The steps of the recognition worker keep what holds of the runtime
-- (src/application/online_stream_runtime.py).
use funasr_api.Prelude.{
  ℕ, ◌≤◌, ◌≡◌, refl, ap, sym, ◌∙◌, subst, Bool, true, false, not, ◌⊎◌, inl, inr, Option, none, some,
  List, [], ◌∷◌, ◌++◌, arith, if◌then◌else◌, length, All, All-append, Bool-cases, append_assoc,
}
use funasr_api.Prelude.Equality.{◌==◌, nat_eq}
use funasr_api.Online.Stream.{
  result, failure, Receiver, idle, starting, announcing, joining, finishing, closed, waiting,
  holding, adding, decoding, sending, delivering, Stream, is_busy, send_event, take_of, take_chunk,
  begin_add, end_add, begin_decode, end_decode, begin_send,
}
use funasr_api.Online.Stream.Steps.Invariant.{
  current, held, IsOf, IsAccounted, IsServing, Phase, IsSound, send-IsSound, rest-IsSound,
  pass-IsSound, if-IsSound, not-true, not-false,
}

module _ {D : Type 0} (s : Stream D) (h : IsSound s) where
  fails :
      held s.generation s.worker ≡ []
      → is_busy s.worker ≡ true
      → IsSound (send_event failure (record s { worker = waiting }))
  unfolding current
  fails from busy =
      send-IsSound (record s { worker = waiting }) failure refl h.results
        (rest-IsSound s from busy h)

  passes_result :
      (has_result : Bool) (g : ℕ)
      → held s.generation s.worker ≡ []
      → is_busy s.worker ≡ true
      → g ≤ current s.sent
      → IsSound (record s { worker = if has_result then sending g else waiting })
  passes_result true g from busy le =
      pass-IsSound s (sending g) g from refl busy (inl refl) (λ k. k) le h
  passes_result false g from busy le = rest-IsSound s from busy h

  pub end_add-IsSound :
      (end : Option Bool) (g : ℕ) → s.worker ≡ adding g → IsSound (end_add end g s)
  unfolding end_add
  end_add-IsSound none g e = fails (rw e refl) (rw e refl)
  end_add-IsSound (some b) g e = elim (Bool-cases (g == s.generation)) [
    | inr d ↦ simp d (rest-IsSound s (rw e refl) (rw e refl) h)
    | inl d ↦ simp d (passes_result b g (rw e refl) (rw e refl) (rw e at h.works))
  ]

  pub end_decode-IsSound :
      (end : Option Bool) (g : ℕ) → s.worker ≡ decoding g → IsSound (end_decode end g s)
  unfolding end_decode
  end_decode-IsSound none g e = fails (rw e refl) (rw e refl)
  end_decode-IsSound (some b) g e = passes_result b g (rw e refl) (rw e refl) (rw e at h.works)

  pub begin_decode-IsSound : (g : ℕ) → s.worker ≡ adding g → IsSound (begin_decode g s)
  unfolding begin_decode
  begin_decode-IsSound g e = elim (Bool-cases (g == s.generation)) [
    | inr d ↦ simp d (rest-IsSound s (rw e refl) (rw e refl) h)
    | inl d ↦ simp d (
        pass-IsSound s (decoding g) g (rw e refl) refl (rw e refl)
          (inr ((nat_eq.beq_iff g s.generation).0 d)) (λ k. k) (rw e at h.works) h)
  ]

  pub begin_send-IsSound : (g : ℕ) → s.worker ≡ sending g → IsSound (begin_send g s)
  unfolding begin_send
  begin_send-IsSound g e = elim (Bool-cases (g == s.generation)) [
    | inr d ↦ simp d (rest-IsSound s (rw e refl) (rw e refl) h)
    | inl d ↦
        let now = (nat_eq.beq_iff g s.generation).0 d in
        let up = h.ahead in
        simp d (
          pass-IsSound s (delivering g) g (rw e refl) refl (rw e refl) (inr now) (λ k. omega arith)
            (rw e at h.works) h)
  ]

  pub deliver-IsSound :
      (g : ℕ)
      → s.worker ≡ delivering g
      → IsSound (send_event (result g) (record s { worker = waiting }))
  unfolding current
  deliver-IsSound g e =
      send-IsSound (record s { worker = waiting }) (result g) refl (rw e at h.works, h.results)
        (rest-IsSound s (rw e refl) (rw e refl) h)

  pub deliver_fails-IsSound :
      (g : ℕ)
      → s.worker ≡ delivering g
      → IsSound (send_event failure (record s { worker = waiting }))
  deliver_fails-IsSound g e = fails (rw e refl) (rw e refl)

  Serving-take :
      (g : ℕ) (d : D) (cs : List (ℕ × D))
      → s.queue ≡ (g, d) ∷ cs
      → held s.generation s.worker ≡ []
      → IsServing s
      → IsServing (record s { queue = cs; worker = holding g d })
  Serving-take g d cs q from (all, serves) =
      let of_now = subst (IsOf s.generation) q all in (of_now.1, accounted serves)
    where
      accounted :
          (s.is_active ≡ false) ⊎ ((current s.sent ≡ s.generation) × IsAccounted s)
          → (s.is_active ≡ false)
            ⊎ ((current s.sent ≡ s.generation)
                × IsAccounted (record s { queue = cs; worker = holding g d }))
      accounted (inl e) = inl e
      accounted (inr (now, e)) =
          let here = (nat_eq.beq_iff g s.generation).1 (subst (IsOf s.generation) q all).0 in
          inr (now, e ∙ rw (from, q, here) refl)

  Phase-take :
      (r : Receiver) (g : ℕ) (d : D) (cs : List (ℕ × D))
      → s.queue ≡ (g, d) ∷ cs
      → held s.generation s.worker ≡ []
      → Phase r s
      → Phase r (record s { queue = cs; worker = holding g d })
  Phase-take idle g d cs q from p = Serving-take g d cs q from p
  Phase-take joining g d cs q from p = Serving-take g d cs q from p
  Phase-take finishing g d cs q from (e, now, k, still) = cc
  Phase-take (starting n) g d cs q from (e, lt, k) = cc
  Phase-take (announcing n) g d cs q from (e, lt, k, a, c, f) = cc
  Phase-take closed g d cs q from p = p

  taken :
      (q : List (ℕ × D)) (t : Stream D)
      → s.queue ≡ q
      → held s.generation s.worker ≡ []
      → take_of q s ≡ some t
      → IsSound t
  taken [] t e from some_t = cc
  taken ((g, d) ∷ cs) t e from some_t =
      let same : record s { queue = cs; worker = holding g d } ≡ t = cc some_t in
      let waits = subst (All λ c. c.0 ≤ current s.sent) e h.waits in
      let size = h.bounded in
      subst IsSound same (record {
        phase = Phase-take s.receiver g d cs e from h.phase;
        works = waits.0;
        ahead = h.ahead;
        waits = waits.1;
        audio = h.audio;
        results = h.results;
        bounded = ground (arith, ap length e, size);
      })

  pub take_chunk-IsSound : (t : Stream D) → s.worker ≡ waiting → take_chunk s ≡ some t → IsSound t
  unfolding take_chunk
  take_chunk-IsSound t e some_t = taken s.queue t refl (rw e refl) some_t

  Phase-idle :
      (r : Receiver)
      → s.is_active ≡ false
      → is_busy s.worker ≡ true
      → Phase r s
      → Phase r (record s { worker = waiting })
  Phase-idle idle off busy (all, e) = (all, inl off)
  Phase-idle joining off busy (all, e) = (all, inl off)
  Phase-idle finishing off busy (q, now, e, still) = cc
  Phase-idle (starting n) off busy p = p
  Phase-idle (announcing n) off busy (e, lt, q, a, c, f) = (e, lt, q, a, c, refl)
  Phase-idle closed off busy p = p

  Serving-add :
      (g : ℕ) (d : D)
      → s.worker ≡ holding g d
      → s.is_active ≡ true
      → g ≡ s.generation
      → IsServing s
      → IsServing (record s { worker = adding g; audio = s.audio ++ (g, d) ∷ [] })
  Serving-add g d e on now (all, inl off) = cc
  Serving-add g d e on now (all, inr (here, k)) =
      let is_now = (nat_eq.beq_iff g s.generation).1 now in
      let split : s.accepted ≡ s.audio ++ ((g, d) ∷ s.queue) = rw (e, is_now) at k in
      (all, inr (here, split ∙ sym (append_assoc s.audio ((g, d) ∷ []) s.queue)))

  Phase-add :
      (r : Receiver) (g : ℕ) (d : D)
      → s.worker ≡ holding g d
      → s.is_active ≡ true
      → g ≡ s.generation
      → current s.sent ≡ s.generation
      → Phase r s
      → Phase r (record s { worker = adding g; audio = s.audio ++ (g, d) ∷ [] })
  Phase-add idle g d e on now here p = Serving-add g d e on now p
  Phase-add joining g d e on now here p = Serving-add g d e on now p
  Phase-add finishing g d e on now here (q, c, k, still) = cc (rw e at still)
  Phase-add (starting n) g d e on now here (k, lt, q) = (k, lt, q)
  Phase-add (announcing n) g d e on now here (k, lt, q, a, c, f) = absurd (omega arith)
  Phase-add closed g d e on now here p = p

  pub begin_add-IsSound : (g : ℕ) (d : D) → s.worker ≡ holding g d → IsSound (begin_add g d s)
  unfolding begin_add
  begin_add-IsSound g d e =
      if-IsSound (not (g == s.generation)) _ _
        (λ k. rest-IsSound s (rw (e, not-true k) refl) (rw e refl) h)
        (λ k.
          if-IsSound (not s.is_active) _ _ (λ off. resting (not-true off))
            (λ on. given (not-false k) (not-false on)))
    where
      resting : s.is_active ≡ false → IsSound (record s { worker = waiting })
      resting off = record {
        phase = Phase-idle s.receiver off (rw e refl) h.phase;
        works = tt;
        ahead = h.ahead;
        waits = h.waits;
        audio = h.audio;
        results = h.results;
        bounded = h.bounded;
      }

      given :
          (g == s.generation) ≡ true
          → s.is_active ≡ true
          → IsSound (record s { worker = adding g; audio = s.audio ++ (g, d) ∷ [] })
      given k on =
          let now = (nat_eq.beq_iff g s.generation).0 k in
          let le : g ≤ current s.sent = rw e at h.works in
          let up = h.ahead in
          let here : current s.sent ≡ s.generation = omega arith in
          record {
            phase = Phase-add s.receiver g d e on now here h.phase;
            works = le;
            ahead = h.ahead;
            waits = h.waits;
            audio = All-append _ s.audio ((g, d) ∷ []) h.audio (now ∙ sym here, tt);
            results = h.results;
            bounded = h.bounded;
          }
