-- ===== src/Online/Session/Emission.antt =====
-- The times of each locked sentence are sent once.
use funasr_api.Prelude.{
  append_nil, append_assoc, ℕ, zero, suc, ◌-◌, ◌≤◌, ◌≡◌, refl, ap, sym, ◌∙◌, subst, List, [], ◌∷◌,
  ◌++◌, arith, length, take, drop, take-append, take-append-drop, take-zero, take_all,
  length-append,
}
use funasr_api.Prelude.Int.{ℤ}
use funasr_api.Online.Session.{Sentence, Settings, Models, Session, new_session}
use funasr_api.Online.Session.Operations.{
  add_audio, decode_partial, finish, consume_locked_sentences,
}
use funasr_api.Online.Session.Spans.{spans, spans-append, length-spans}
use funasr_api.Online.Session.Growth.{
  Extends, add_audio-Extends, decode_partial-Extends, finish-Extends,
}

-- What a client does with a session.
pub data Message (A : Type 0) : Type 0 where
  audio : List A → Message A
  decode : Message A
  end : Message A
  results : Message A

module _ {A V C : Type 0} (m : Models A V C) (c : Settings) where
  unfoldable pub handle : Message A → Session A V C → List Sentence × Session A V C
  unfolding add_audio decode_partial finish consume_locked_sentences
  handle (audio samples) s = ([], (add_audio m c samples s).0)
  handle decode s = ([], decode_partial m c s)
  handle end s = ([], finish m c s)
  handle results s = consume_locked_sentences m c s

  -- The sentences that are sent for the messages, and the session after them.
  unfoldable pub run : List (Message A) → Session A V C → List Sentence × Session A V C
  unfolding handle
  run [] s = ([], s)
  run (message ∷ messages) s =
      let first = handle message s in let rest = run messages first.1 in (first.0 ++ rest.0, rest.1)

-- What has been sent is as many of the locked sentences as have been counted.
abbrev pub IsSent : {A V C : Type 0} → List Sentence → Session A V C → Type 0
IsSent sent s =
    (s.emitted_locked_count ≤ length s.locked_sentences)
    × (spans sent ≡ take s.emitted_locked_count (spans s.locked_sentences))

take_within : (n : ℕ) (xs ys : List (ℤ × ℤ)) → n ≤ length xs → take n (xs ++ ys) ≡ take n xs
take_within n xs ys h =
    take-append n xs ys
    ∙ ap (λ l. take n xs ++ l) (take-zero (n - length xs) ys (omega arith))
    ∙ append_nil (take n xs)

spans-drop : (n : ℕ) (ss : List Sentence) → spans (drop n ss) ≡ drop n (spans ss)
spans-drop zero ss = refl
spans-drop (suc n) [] = refl
spans-drop (suc n) (s ∷ ss) = spans-drop n ss

all_sent :
    (n : ℕ) (sent ss : List Sentence)
    → spans sent ≡ take n (spans ss)
    → spans (sent ++ drop n ss) ≡ spans ss
all_sent n sent ss h =
    spans-append sent (drop n ss)
    ∙ ap (λ l. l ++ spans (drop n ss)) h
    ∙ ap (λ l. take n (spans ss) ++ l) (spans-drop n ss)
    ∙ take-append-drop n (spans ss)

module _ {A V C : Type 0} (m : Models A V C) (c : Settings) where
  Extends-IsSent :
      (sent : List Sentence) (s t : Session A V C)
      → Extends s t
      → IsSent sent s
      → IsSent (sent ++ []) t
  Extends-IsSent sent s t h k =
      let longer = ap length h.0.1 ∙ length-append (spans s.locked_sentences) h.0.0 in
      let within : s.emitted_locked_count ≤ length t.locked_sentences =
        omega
          (arith, k.0, longer, length-spans s.locked_sentences, length-spans t.locked_sentences) in
      (
        subst (λ n. n ≤ length t.locked_sentences) (sym h.1) within,
        ap spans (append_nil sent)
            ∙ k.1
            ∙ sym (
                take_within s.emitted_locked_count (spans s.locked_sentences) h.0.0
                  (omega (arith, k.0, length-spans s.locked_sentences)))
            ∙ ap (take s.emitted_locked_count) (sym h.0.1)
            ∙ ap (λ n. take n (spans t.locked_sentences)) (sym h.1),
      )

  handle-IsSent :
      (message : Message A) (sent : List Sentence) (s : Session A V C)
      → IsSent sent s
      → IsSent (sent ++ (handle m c message s).0) (handle m c message s).1
  unfolding handle consume_locked_sentences
  handle-IsSent (audio samples) sent s h =
      Extends-IsSent sent s (add_audio m c samples s).0 (add_audio-Extends m c samples s) h
  handle-IsSent decode sent s h =
      Extends-IsSent sent s (decode_partial m c s) (decode_partial-Extends m c s) h
  handle-IsSent end sent s h = Extends-IsSent sent s (finish m c s) (finish-Extends m c s) h
  handle-IsSent results sent s h = (
    omega arith,
    all_sent s.emitted_locked_count sent s.locked_sentences h.1
        ∙ sym (
            take_all (length s.locked_sentences) (spans s.locked_sentences)
              (omega (arith, length-spans s.locked_sentences))),
  )

  run-IsSent :
      (messages : List (Message A)) (sent : List Sentence) (s : Session A V C)
      → IsSent sent s
      → IsSent (sent ++ (run m c messages s).0) (run m c messages s).1
  unfolding run
  run-IsSent [] sent s h = subst (λ l. IsSent l s) (sym (append_nil sent)) h
  run-IsSent (message ∷ messages) sent s h =
      let first = handle m c message s in
      let rest = run m c messages first.1 in
      subst (λ l. IsSent l rest.1) (append_assoc sent first.0 rest.0)
        (run-IsSent messages (sent ++ first.0) first.1 (handle-IsSent message sent s h))

  -- Whatever audio, partial decodings, ends and requests for results reach a new session in whatever
  -- order, and whatever the models answer: the times, start and end, of the sentences sent for them,
  -- followed by those of the sentences that the next request is answered with, are the times of all
  -- the locked sentences, each once and in their order. Of their texts it says nothing: that of a
  -- sentence already sent may still be repaired.
  pub sends_each_once :
      (messages : List (Message A))
      → let r = run m c messages (new_session m c) in
        spans (r.0 ++ (consume_locked_sentences m c r.1).0) ≡ spans r.1.locked_sentences
  unfolding consume_locked_sentences
  sends_each_once messages =
      let r = run m c messages (new_session m c) in
      let h = run-IsSent messages [] (new_session m c) (omega arith, refl) in
      all_sent r.1.emitted_locked_count r.0 r.1.locked_sentences h.1
