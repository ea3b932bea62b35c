-- ===== src/Online/Session/Spans.antt =====
-- The times of the sentences that a session has locked (realtime_session.py): locking a
-- sentence adds times and changes none.
use funasr_api.Prelude.{
  append_nil, append_assoc, suc, ◌≡◌, refl, ap, sym, ◌∙◌, String, inl, inr, Option, List, [], ◌∷◌,
  ◌++◌, Bool-cases, length,
}
use funasr_api.Prelude.Int.{ℤ}
use funasr_api.Prelude.Text.{Text, is_empty, strip}
use funasr_api.Online.Boundary.{
  collapse_adjacent_repeated_phrases, repair_previous_boundary_overlap,
}
use funasr_api.Online.Session.{Sentence, repair_last, append_locked}

-- The times of sentences, which no operation changes (the text of the last one may be repaired).
abbrev pub spans : List Sentence → List (ℤ × ℤ)
spans [] = []
spans (s ∷ ss) = (s.start, s.end) ∷ spans ss

pub spans-append : (ss ts : List Sentence) → spans (ss ++ ts) ≡ spans ss ++ spans ts
spans-append [] ts = refl
spans-append (s ∷ ss) ts = ap (◌∷◌ (s.start, s.end)) (spans-append ss ts)

pub length-spans : (ss : List Sentence) → length (spans ss) ≡ length ss
length-spans [] = refl
length-spans (s ∷ ss) = ap suc (length-spans ss)

pub spans-repair_last :
    (gap : ℤ) (text : Text) (start : ℤ) (ss : List Sentence)
    → spans (repair_last gap text start ss).0 ≡ spans ss
unfolding repair_last
spans-repair_last gap text start [] = refl
spans-repair_last gap text start (s ∷ []) = elim (Bool-cases (is_empty (strip text))) [
  | inl e ↦ rw e
  | inr e ↦
      elim (Bool-cases
        (is_empty (repair_previous_boundary_overlap s.text s.end (strip text) start gap).0)) [
          | inl f ↦ rw (e, f)
          | inr f ↦ rw (e, f)
        ]
]
spans-repair_last gap text start (s ∷ t ∷ ss) =
    ap (◌∷◌ (s.start, s.end)) (spans-repair_last gap text start (t ∷ ss))

-- The spans of the second list are those of the first one and more.
abbrev pub Grows : List Sentence → List Sentence → Type 0
Grows ss ts = (more : List (ℤ × ℤ)) × (spans ts ≡ spans ss ++ more)

pub Grows-refl : (ss : List Sentence) → Grows ss ss
Grows-refl ss = ([], sym (append_nil (spans ss)))

pub Grows-trans : (ss ts us : List Sentence) → Grows ss ts → Grows ts us → Grows ss us
Grows-trans ss ts us h k =
    (h.0 ++ k.0, k.1 ∙ ap (λ l. l ++ k.0) h.1 ∙ append_assoc (spans ss) h.0 k.0)

pub append_locked-Grows :
    (gap : ℤ) (text : Text) (start end : ℤ) (source : Option String) (ss : List Sentence)
    → Grows ss (append_locked gap text start end source ss)
unfolding append_locked
append_locked-Grows gap text start end source ss =
    let collapsed = collapse_adjacent_repeated_phrases (strip text) in
    let repaired = repair_last gap collapsed start ss in
    let same = spans-repair_last gap collapsed start ss in
    elim (Bool-cases (is_empty collapsed)) [
      | inl e ↦ rw e (Grows-refl ss)
      | inr e ↦ elim (Bool-cases (is_empty repaired.1)) [
        | inl f ↦ rw (e, f) ([], same ∙ sym (append_nil (spans ss)))
        | inr f ↦
            rw (e, f)
              (
                (start, end) ∷ [],
                spans-append repaired.0
                      (record { text = repaired.1; start = start; end = end; source = source } ∷ [])
                    ∙ ap (λ l. l ++ (start, end) ∷ []) same,
              )
      ]
    ]
