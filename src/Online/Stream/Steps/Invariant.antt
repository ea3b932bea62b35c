-- ===== src/Online/Stream/Steps/Invariant.antt =====
-- What holds of a stream runtime between its steps (src/application/online_stream_runtime.py).
use funasr_api.Prelude.{
  ℕ, ◌≤◌, ◌<◌, ◌≡◌, refl, ap, sym, ◌∙◌, Bool, true, false, not, ◌⊎◌, inl, inr, List, [], ◌∷◌, ◌++◌,
  arith, if◌then◌else◌, length, All,
}
use funasr_api.Prelude.Equality.{◌==◌, nat_eq}
use funasr_api.Online.Stream.{
  Sent, started, result, Receiver, idle, starting, announcing, joining, finishing, closed, Worker,
  waiting, holding, adding, decoding, sending, delivering, Stream, is_busy, worker_holds_lock,
  send_event,
}

-- The session that was started last, by its generation; 0 before the first.
unfoldable pub current : List Sent → ℕ
current [] = 0
current (started g ∷ es) = g
current (e ∷ es) = current es

-- Every result was sent while its own session was the one started last.
abbrev pub AreCurrent : List Sent → Type 0
AreCurrent [] = Unit
AreCurrent (result g ∷ es) = (g ≡ current es) × AreCurrent es
AreCurrent (e ∷ es) = AreCurrent es

pub not-true : {b : Bool} → not b ≡ true → b ≡ false
not-true {b} h = ground arith

pub not-false : {b : Bool} → not b ≡ false → b ≡ true
not-false {b} h = ground arith

module _ {D : Type 0} where
  -- The chunk of the generation that the worker has taken and not yet given to the session.
  abbrev pub held : ℕ → Worker D → List (ℕ × D)
  held generation (holding g d) = if g == generation then (g, d) ∷ [] else []
  held generation w = []

  abbrev pub IsOf : ℕ → List (ℕ × D) → Type 0
  IsOf generation chunks = All (λ c. c.0 ≡ generation) chunks

  -- The chunks accepted are those given to the session, the one held and those that wait.
  abbrev pub IsAccounted : Stream D → Type 0
  IsAccounted s = s.accepted ≡ s.audio ++ (held s.generation s.worker ++ s.queue)

  -- An active session is the one started last, of this generation, and has lost no chunk.
  abbrev pub IsServing : Stream D → Type 0
  IsServing s =
      IsOf s.generation s.queue
      × ((s.is_active ≡ false) ⊎ ((current s.sent ≡ s.generation) × IsAccounted s))

  abbrev pub Phase : Receiver → Stream D → Type 0
  Phase idle s = IsServing s
  Phase joining s = IsServing s
  Phase finishing s =
      (s.queue ≡ [])
      × (current s.sent ≡ s.generation)
      × (s.audio ≡ s.accepted)
      × (is_busy s.worker ≡ false)
  Phase (starting g) s = (g ≡ s.generation) × (current s.sent < s.generation) × (s.queue ≡ [])
  Phase (announcing g) s =
      (g ≡ s.generation)
      × (current s.sent < s.generation)
      × (s.queue ≡ [])
      × (s.audio ≡ [])
      × (s.accepted ≡ [])
      × (worker_holds_lock s.worker ≡ false)
  Phase closed s = current s.sent < s.generation

  -- What the worker has is of no later session than the one started last; what it delivers is of
  -- that session.
  abbrev pub WorksOn : Worker D → ℕ → Type 0
  WorksOn (holding g d) n = g ≤ n
  WorksOn (adding g) n = g ≤ n
  WorksOn (decoding g) n = g ≤ n
  WorksOn (sending g) n = g ≤ n
  WorksOn (delivering g) n = g ≡ n
  WorksOn w n = Unit

  pub record IsSound (s : Stream D) : Type 0 where
    pub phase : Phase s.receiver s
    pub works : WorksOn s.worker (current s.sent)
    pub ahead : current s.sent ≤ s.generation
    pub waits : All (λ c. c.0 ≤ current s.sent) s.queue
    pub audio : IsOf (current s.sent) s.audio
    pub results : AreCurrent s.sent
    pub bounded : length s.queue ≤ s.queue_max_chunks

  -- Whatever the worker turns to that holds no chunk, if it has none of this generation, the
  -- phase stays; in `announcing` it may not take the lock.
  Phase-worker :
      (r : Receiver) (s : Stream D) (w : Worker D)
      → held s.generation w ≡ held s.generation s.worker
      → is_busy s.worker ≡ true
      → (worker_holds_lock w ≡ false) ⊎ (current s.sent ≡ s.generation)
      → Phase r s
      → Phase r (record s { worker = w })
  Phase-worker idle s w same busy quiet (all, inl e) = (all, inl e)
  Phase-worker idle s w same busy quiet (all, inr (now, e)) =
      (all, inr (now, e ∙ ap (λ h. s.audio ++ (h ++ s.queue)) (sym same)))
  Phase-worker joining s w same busy quiet (all, inl e) = (all, inl e)
  Phase-worker joining s w same busy quiet (all, inr (now, e)) =
      (all, inr (now, e ∙ ap (λ h. s.audio ++ (h ++ s.queue)) (sym same)))
  Phase-worker finishing s w same busy quiet (q, now, e, still) = cc
  Phase-worker (starting g) s w same busy quiet p = p
  Phase-worker (announcing g) s w same busy (inl free) (e, lt, q, a, k, f) = (e, lt, q, a, k, free)
  Phase-worker (announcing g) s w same busy (inr now) (e, lt, q, a, k, f) = ground arith
  Phase-worker closed s w same busy quiet p = p

  Phase-send :
      (r : Receiver) (s : Stream D) (e : Sent)
      → current (e ∷ s.sent) ≡ current s.sent
      → Phase r s
      → Phase r (send_event e s)
  Phase-send idle s e same p = rw same p
  Phase-send joining s e same p = rw same p
  Phase-send finishing s e same p = rw same p
  Phase-send (starting g) s e same p = rw same p
  Phase-send (announcing g) s e same p = rw same p
  Phase-send closed s e same p = rw same p

  pub send-IsSound :
      (s : Stream D) (e : Sent)
      → current (e ∷ s.sent) ≡ current s.sent
      → AreCurrent (e ∷ s.sent)
      → IsSound s
      → IsSound (send_event e s)
  send-IsSound s e same now h = record {
    phase = Phase-send s.receiver s e same h.phase;
    works = rw same h.works;
    ahead = rw same h.ahead;
    waits = rw same h.waits;
    audio = rw same h.audio;
    results = now;
    bounded = h.bounded;
  }

  pub turn-IsSound :
      (s : Stream D) (w : Worker D)
      → held s.generation w ≡ held s.generation s.worker
      → is_busy s.worker ≡ true
      → (worker_holds_lock w ≡ false) ⊎ (current s.sent ≡ s.generation)
      → WorksOn w (current s.sent)
      → IsSound s
      → IsSound (record s { worker = w })
  turn-IsSound s w same busy quiet works h = record {
    phase = Phase-worker s.receiver s w same busy quiet h.phase;
    works = works;
    ahead = h.ahead;
    waits = h.waits;
    audio = h.audio;
    results = h.results;
    bounded = h.bounded;
  }

  -- The worker gives up what it has, which is no chunk of this generation.
  pub rest-IsSound :
      (s : Stream D)
      → held s.generation s.worker ≡ []
      → is_busy s.worker ≡ true
      → IsSound s
      → IsSound (record s { worker = waiting })
  rest-IsSound s none_held busy h = turn-IsSound s waiting (sym none_held) busy (inl refl) tt h

  -- A worker without the lock that passes on what it has.
  pub pass-IsSound :
      (s : Stream D) (w : Worker D) (g : ℕ)
      → held s.generation s.worker ≡ []
      → held s.generation w ≡ []
      → is_busy s.worker ≡ true
      → (worker_holds_lock w ≡ false) ⊎ (g ≡ s.generation)
      → (g ≤ current s.sent → WorksOn w (current s.sent))
      → g ≤ current s.sent
      → IsSound s
      → IsSound (record s { worker = w })
  pass-IsSound s w g from to busy quiet works le h =
      turn-IsSound s w (to ∙ sym from) busy (quieted quiet) (works le) h
    where
      quieted :
          (worker_holds_lock w ≡ false) ⊎ (g ≡ s.generation)
          → (worker_holds_lock w ≡ false) ⊎ (current s.sent ≡ s.generation)
      quieted (inl q) = inl q
      quieted (inr e) = let up = h.ahead in inr (omega arith)

  pub if-IsSound :
      (b : Bool) (x y : Stream D)
      → (b ≡ true → IsSound x)
      → (b ≡ false → IsSound y)
      → IsSound (if b then x else y)
  if-IsSound true x y h k = h refl
  if-IsSound false x y h k = k refl
