-- ===== src/Online/Stream/Steps/Receive.antt =====
-- The steps of the receiver keep what holds of the runtime
-- (src/application/online_stream_runtime.py).
use funasr_api.Prelude.{
  ℕ, ◌+◌, ◌≤◌, ◌<◌, ◌≡◌, refl, ap, sym, ◌∙◌, subst, Bool, true, false, ◌&&◌, not, inl, inr, List,
  [], ◌∷◌, ◌++◌, arith, length, length-append, max, All, All-append, append_nil, append_assoc, ltb,
}
use funasr_api.Prelude.Equality.{◌==◌, nat_eq}
use funasr_api.Online.Stream.{
  started, result, stopped, inactive, backpressure, Receiver, idle, starting, announcing, joining,
  finishing, closed, Worker, waiting, holding, adding, decoding, sending, delivering, cancelled,
  Stream, new_stream, is_busy, worker_holds_lock, lock_is_free, send_event, handle_backpressure,
  enqueue_audio, begin_start, reset_session, begin_finish, end_finish, close,
}
use funasr_api.Online.Stream.Steps.{is_empty}
use funasr_api.Online.Stream.Steps.Invariant.{
  current, held, IsOf, IsServing, Phase, WorksOn, IsSound, send-IsSound, if-IsSound, not-true,
  not-false,
}

pub new_stream-IsSound : {D : Type 0} (limit : ℕ) → IsSound (new_stream {D = D} limit)
unfolding new_stream current
new_stream-IsSound limit = record {
  phase = (tt, inl refl);
  works = tt;
  ahead = omega arith;
  waits = tt;
  audio = tt;
  results = tt;
  bounded = omega arith;
}

module _ {D : Type 0} (s : Stream D) (h : IsSound s) where
  -- A change of the receiver, with its phase.
  moved :
      (r r' : Receiver)
      → s.receiver ≡ r
      → (Phase r s → Phase r' s)
      → IsSound (record s { receiver = r' })
  moved r r' e move = record {
    phase = phase_of r' (move (subst (λ x. Phase x s) e h.phase));
    works = h.works;
    ahead = h.ahead;
    waits = h.waits;
    audio = h.audio;
    results = h.results;
    bounded = h.bounded;
  }
    where
      phase_of : (x : Receiver) → Phase x s → Phase x (record s { receiver = r' })
      phase_of idle p = p
      phase_of joining p = p
      phase_of finishing p = p
      phase_of (starting g) p = p
      phase_of (announcing g) p = p
      phase_of closed p = p

  dropped-IsSound : s.receiver ≡ idle → IsSound (record s { dropped = s.dropped + 1 })
  dropped-IsSound e = record {
    phase =
        subst (λ x. Phase x (record s { dropped = s.dropped + 1 })) (sym e)
          (subst (λ x. Phase x s) e h.phase);
    works = h.works;
    ahead = h.ahead;
    waits = h.waits;
    audio = h.audio;
    results = h.results;
    bounded = h.bounded;
  }

  handle_backpressure-IsSound :
      (notify : Bool) → s.receiver ≡ idle → IsSound (handle_backpressure notify s)
  unfolding handle_backpressure current
  handle_backpressure-IsSound true e =
      send-IsSound (record s { dropped = s.dropped + 1 }) backpressure refl h.results
        (dropped-IsSound e)
  handle_backpressure-IsSound false e = dropped-IsSound e

  -- A chunk that is put at the end of the queue.
  abbrev with_chunk : D → Stream D
  with_chunk d = record s {
    queue = s.queue ++ (s.generation, d) ∷ [];
    accepted = s.accepted ++ (s.generation, d) ∷ [];
    queue_peak = max s.queue_peak (length s.queue + 1);
  }

  put-IsSound :
      (d : D)
      → s.receiver ≡ idle
      → s.is_active ≡ true
      → ltb (length s.queue) s.queue_max_chunks ≡ true
      → IsSound (with_chunk d)
  put-IsSound d e on room = served (subst (λ x. Phase x s) e h.phase)
    where
      served : IsServing s → IsSound (with_chunk d)
      served (all, inl off) = cc
      served (all, inr (here, k)) = record {
        phase =
            subst (λ x. Phase x (with_chunk d)) (sym e)
              (
                All-append _ s.queue _ all (refl, tt),
                inr (
                  here,
                  ap (◌++ ((s.generation, d) ∷ [])) k
                      ∙ append_assoc s.audio (held s.generation s.worker ++ s.queue) _
                      ∙ ap (s.audio ++◌) (append_assoc (held s.generation s.worker) s.queue _),
                ),
              );
        works = h.works;
        ahead = h.ahead;
        waits = All-append _ s.queue _ h.waits (omega (arith, here), tt);
        audio = h.audio;
        results = h.results;
        bounded = ground (arith, length-append s.queue ((s.generation, d) ∷ []));
      }

  pub enqueue_audio-IsSound :
      (notify : Bool) (d : D) → s.receiver ≡ idle → IsSound (enqueue_audio notify d s)
  unfolding enqueue_audio current
  enqueue_audio-IsSound notify d e =
      if-IsSound (not s.is_active) _ _ (λ off. send-IsSound s inactive refl h.results h)
        (λ on.
          if-IsSound (ltb (length s.queue) s.queue_max_chunks) _ _
            (λ room. put-IsSound d e (not-false on) room)
            (λ full. handle_backpressure-IsSound notify e))

  -- The generation goes on and the queue is emptied.
  pub begin_start-IsSound : IsSound (begin_start s)
  unfolding begin_start
  begin_start-IsSound =
      let up = h.ahead in
      record {
        phase = (refl, omega arith, refl);
        works = h.works;
        ahead = omega arith;
        waits = tt;
        audio = h.audio;
        results = h.results;
        bounded = omega arith;
      }

  pub begin_stop-IsSound : s.receiver ≡ idle → IsSound (record s { receiver = joining })
  begin_stop-IsSound e = moved idle joining e (λ p. p)

  pub close-IsSound : IsSound (close s)
  unfolding close
  close-IsSound =
      let up = h.ahead in
      record {
        phase = omega arith;
        works = tt;
        ahead = omega arith;
        waits = h.waits;
        audio = h.audio;
        results = h.results;
        bounded = h.bounded;
      }

  free_worker : lock_is_free s ≡ true → worker_holds_lock s.worker ≡ false
  free_worker free = ground arith

  pub reset_session-IsSound :
      (g : ℕ) → s.receiver ≡ starting g → lock_is_free s ≡ true → IsSound (reset_session g s)
  unfolding reset_session
  reset_session-IsSound g e free =
      let (same, lt, q) = subst (λ x. Phase x s) e h.phase in
      if-IsSound (not (g == s.generation)) _ _ (λ k. absurd (beq_absurd same (not-true k)))
        (λ k. record {
          phase = (same, lt, q, refl, refl, free_worker free);
          works = h.works;
          ahead = h.ahead;
          waits = h.waits;
          audio = tt;
          results = h.results;
          bounded = h.bounded;
        })
    where
      beq_absurd : g ≡ s.generation → (g == s.generation) ≡ false → ⊥
      beq_absurd same k = ground (arith, nat_eq.beq_iff g s.generation)

  -- Without a lock the worker has nothing to deliver, and nothing of the new session.
  quiet_works :
      (w : Worker D) (n m : ℕ) → worker_holds_lock w ≡ false → n ≤ m → WorksOn w n → WorksOn w m
  quiet_works waiting n m free le k = tt
  quiet_works (holding g d) n m free le k = omega arith
  quiet_works (adding g) n m free le k = cc free
  quiet_works (decoding g) n m free le k = cc free
  quiet_works (sending g) n m free le k = omega arith
  quiet_works (delivering g) n m free le k = cc free
  quiet_works cancelled n m free le k = tt

  held_none :
      (w : Worker D) (n m : ℕ) → n < m → worker_holds_lock w ≡ false → WorksOn w n → held m w ≡ []
  held_none waiting n m lt free k = refl
  held_none (holding g d) n m lt free k = ground (arith, nat_eq.beq_iff g m)
  held_none (adding g) n m lt free k = refl
  held_none (decoding g) n m lt free k = refl
  held_none (sending g) n m lt free k = refl
  held_none (delivering g) n m lt free k = refl
  held_none cancelled n m lt free k = refl

  pub announce-IsSound :
      (g : ℕ)
      → s.receiver ≡ announcing g
      → IsSound (send_event (started g) (record s { receiver = idle }))
  unfolding current
  announce-IsSound g e =
      let (same, lt, q, a, c, free) = subst (λ x. Phase x s) e h.phase in
      record {
        phase = (
          subst (IsOf s.generation) (sym q) tt,
          inr (same, c ∙ sym (rw (a, q, held_none s.worker _ _ lt free h.works) refl)),
        );
        works = quiet_works s.worker _ g free (omega (arith, same)) h.works;
        ahead = omega (arith, same);
        waits = subst (All λ x. x.0 ≤ g) (sym q) tt;
        audio = subst (IsOf g) (sym a) tt;
        results = h.results;
        bounded = h.bounded;
      }

  no_chunk : (w : Worker D) → is_busy w ≡ false → held s.generation w ≡ []
  no_chunk waiting free = refl
  no_chunk cancelled free = refl
  no_chunk (holding g d) free = cc
  no_chunk (adding g) free = refl
  no_chunk (decoding g) free = refl
  no_chunk (sending g) free = refl
  no_chunk (delivering g) free = refl

  is_empty_nil : (q : List (ℕ × D)) → is_empty q ≡ true → q ≡ []
  is_empty_nil [] e = refl
  is_empty_nil (c ∷ cs) e = cc

  -- `stop_session` gets the lock after `join`: every accepted chunk has been given to the session.
  pub begin_finish-IsSound :
      s.receiver ≡ joining
      → (is_empty s.queue && not (is_busy s.worker) && lock_is_free s) ≡ true
      → IsSound (begin_finish s)
  unfolding begin_finish current
  begin_finish-IsSound e ready =
      if-IsSound s.is_active _ _ (λ on. moved joining finishing e (λ p. finishing_of on p))
        (λ off.
          send-IsSound (record s { receiver = idle }) stopped refl h.results
            (moved joining idle e (λ p. p)))
    where
      empty : s.queue ≡ []
      empty = is_empty_nil s.queue (ground arith)

      still : is_busy s.worker ≡ false
      still = ground arith

      finishing_of : s.is_active ≡ true → IsServing s → Phase finishing s
      finishing_of on (all, inl off) = cc
      finishing_of on (all, inr (here, k)) =
          (empty, here, sym (k ∙ rw (empty, no_chunk s.worker still) (append_nil s.audio)), still)

  end_finish_events :
      (has_result : Bool)
      → current s.sent ≡ s.generation
      → IsSound (record s { is_active = false; receiver = idle })
      → IsSound (end_finish has_result s)
  unfolding end_finish current
  end_finish_events true here k =
      send-IsSound _ stopped refl (sym here, h.results)
        (send-IsSound _ (result s.generation) refl (sym here, h.results) k)
  end_finish_events false here k = send-IsSound _ stopped refl h.results k

  pub end_finish-IsSound :
      (has_result : Bool) → s.receiver ≡ finishing → IsSound (end_finish has_result s)
  end_finish-IsSound has_result e =
      let (q, here, a, still) = subst (λ x. Phase x s) e h.phase in
      end_finish_events has_result here (record {
        phase = (subst (IsOf s.generation) (sym q) tt, inl refl);
        works = h.works;
        ahead = h.ahead;
        waits = h.waits;
        audio = h.audio;
        results = h.results;
        bounded = h.bounded;
      })
