-- ===== src/Online/Boundary/Fuel.antt =====
-- The loop of `split_trailing_punctuation` (src/engine_runtime/engines/online/text_boundary.py) ends.
use funasr_api.Prelude.{
  ℕ, zero, suc, ◌-◌, ◌≤◌, ◌≡◌, refl, true, false, inl, inr, [], ◌∷◌, ◌++◌, arith, Bool-cases,
  length, take, drop, ap, sym, subst, ◌∙◌, All, ◌&&◌, append_assoc, take-append-drop, All-append,
}
use funasr_api.Prelude.Text.{Text, is_space, is_empty, rstrip, is_in}
use funasr_api.Prelude.Text.Strip.{rstrip-rstrip}
use funasr_api.Prelude.Text.Solid.{solid, solid-append, solid-rstrip}
use funasr_api.Online.Boundary.{
  boundary_punctuation, ends_in_punctuation, split_loop, split_trailing_punctuation,
}

length-rstrip : (s : Text) → length (rstrip s) ≤ length s
unfolding rstrip
length-rstrip [] = omega arith
length-rstrip (c ∷ s) = elim (Bool-cases (is_empty (rstrip s) && is_space c)) [
  | inl e ↦ rw e (omega arith)
  | inr e ↦ rw e (omega (arith, length-rstrip s))
]

-- The last character of what ends in punctuation is one of its characters.
ends_in_punctuation_last :
    (s : Text)
    → ends_in_punctuation s ≡ true
    → (n : ℕ) × (length s ≡ suc n)
      × All (λ c. is_in c boundary_punctuation ≡ true) (drop n s)
      × (length (take n s) ≡ n)
unfolding ends_in_punctuation
ends_in_punctuation_last [] h = cc
ends_in_punctuation_last (c ∷ []) h = (0, refl, (h, tt), refl)
ends_in_punctuation_last (c ∷ d ∷ s) h =
    let (n, size, all, k) = ends_in_punctuation_last (d ∷ s) h in
    (suc n, ap suc size, all, ap suc k)

-- What the loop makes of a core that is stripped, with the punctuation taken so far.
pub record Splits (core punctuation : Text) (r : Text × Text) : Type 0 where
  pub ended : ends_in_punctuation r.0 ≡ false
  pub stripped : rstrip r.0 ≡ r.0
  pub only : All (λ c. is_in c boundary_punctuation ≡ true) r.1
  pub same : solid (r.0 ++ r.1) ≡ solid (core ++ punctuation)

pass :
    (fuel : ℕ) (core punctuation : Text)
    → ends_in_punctuation core ≡ true
    → split_loop (suc fuel) core punctuation
      ≡ split_loop fuel
          (rstrip (take (length core - 1) core))
          (drop (length core - 1) core ++ punctuation)
unfolding split_loop
pass fuel core punctuation h = rw h refl

split_loop-Splits :
    (fuel : ℕ) (core punctuation : Text)
    → length core ≤ fuel
    → rstrip core ≡ core
    → All (λ c. is_in c boundary_punctuation ≡ true) punctuation
    → Splits core punctuation (split_loop fuel core punctuation)
unfolding split_loop ends_in_punctuation
split_loop-Splits zero [] punctuation h st only = record {
  ended = refl;
  stripped = st;
  only = only;
  same = refl;
}
split_loop-Splits zero (c ∷ core) punctuation h st only = absurd (omega arith)
split_loop-Splits (suc fuel) core punctuation h st only =
    elim (Bool-cases (ends_in_punctuation core)) [
      | inr e ↦ rw e (record { ended = e; stripped = st; only = only; same = refl })
      | inl e ↦
          let (n, size, all, k) = ends_in_punctuation_last core e in
          let at : length core - 1 ≡ n = omega (arith, size) in
          let shorter = length-rstrip (take n core) in
          let done =
            split_loop-Splits fuel (rstrip (take n core)) (drop n core ++ punctuation)
              (omega (arith, shorter, size, k)) (rstrip-rstrip (take n core))
              (All-append _ (drop n core) punctuation all only) in
          subst (Splits core punctuation)
            (sym (
              pass fuel core punctuation e
              ∙ ap (λ i. split_loop fuel (rstrip (take i core)) (drop i core ++ punctuation)) at))
            (record {
              ended = done.ended;
              stripped = done.stripped;
              only = done.only;
              same =
                  done.same
                  ∙ solid-append (rstrip (take n core)) _
                  ∙ ap (◌++ solid (drop n core ++ punctuation)) (solid-rstrip (take n core))
                  ∙ sym (solid-append (take n core) _)
                  ∙ ap solid (
                      sym (append_assoc (take n core) (drop n core) punctuation)
                      ∙ ap (◌++ punctuation) (take-append-drop n core));
            })
    ]

-- The loop of `split_trailing_punctuation` ends by its own test, within as many passes as the
-- text has characters: the core that it leaves ends neither in punctuation nor in white space,
-- the rest is punctuation only, and the two together have the characters of the text that are
-- no white space, in their order.
pub split_trailing_punctuation_ends :
    (text : Text) → Splits text [] (split_trailing_punctuation text)
unfolding split_trailing_punctuation
split_trailing_punctuation_ends text =
    let done =
      split_loop-Splits (length (rstrip text)) (rstrip text) [] (omega arith) (rstrip-rstrip text)
        tt in
    record {
      ended = done.ended;
      stripped = done.stripped;
      only = done.only;
      same =
          done.same
          ∙ solid-append (rstrip text) []
          ∙ ap (◌++ []) (solid-rstrip text)
          ∙ sym (solid-append text []);
    }
