-- ===== src/Offline/Alignment/Tokens.antt =====
-- The text and the times of tokens under the steps of the alignment.
use funasr_api.Prelude.{
  append_nil, append_assoc, ℕ, ◌≤◌, ◌≡◌, refl, ap, sym, ◌∙◌, true, inl, inr, List, [], ◌∷◌, ◌++◌,
  arith, Bool-cases, length,
}
use funasr_api.Prelude.Int.{ℤ}
use funasr_api.Prelude.Text.{Text}
use funasr_api.Offline.Alignment.{
  Item, pair, triple, other, Token, is_ascii_word_char, word_rest, after_word, extend_last,
  has_tokens, after_unit,
}

abbrev pub IsTriple : Item → Type 0
IsTriple (pair start end) = ⊥
IsTriple (triple text start end) = Unit
IsTriple other = ⊥

-- The text of all tokens.
abbrev pub joined : List Token → Text
joined [] = []
joined (t ∷ tokens) = t.text ++ joined tokens

-- The times of the tokens, and those of the items.
abbrev pub token_times : List Token → List (ℤ × ℤ)
token_times [] = []
token_times (t ∷ tokens) = (t.start, t.end) ∷ token_times tokens

abbrev pub item_times : List Item → List (ℤ × ℤ)
item_times [] = []
item_times (triple text start end ∷ items) = (start, end) ∷ item_times items
item_times (pair start end ∷ items) = item_times items
item_times (other ∷ items) = item_times items

pub word_rest-after_word : (s : Text) → word_rest s ++ after_word s ≡ s
unfolding word_rest after_word
word_rest-after_word [] = refl
word_rest-after_word (c ∷ s) = elim (Bool-cases (is_ascii_word_char c)) [
  | inl e ↦ rw e (ap (◌∷◌ c) (word_rest-after_word s))
  | inr e ↦ rw e
]

pub after_word-le : (s : Text) → length (after_word s) ≤ length s
unfolding after_word
after_word-le [] = omega arith
after_word-le (c ∷ s) = ground (arith, after_word-le s)

pub after_unit-le : (c : ℕ) (s : Text) → length (after_unit c s) ≤ length s
unfolding after_unit
after_unit-le c s = ground (arith, after_word-le s)

pub joined-extend_last :
    (more : Text) (tokens : List Token)
    → has_tokens tokens ≡ true
    → joined (extend_last more tokens) ≡ joined tokens ++ more
unfolding extend_last
joined-extend_last more [] h = cc
joined-extend_last more (t ∷ []) h =
    append_nil (t.text ++ more) ∙ ap (λ s. s ++ more) (sym (append_nil t.text))
joined-extend_last more (t ∷ u ∷ tokens) h =
    ap (λ s. t.text ++ s) (joined-extend_last more (u ∷ tokens) refl)
    ∙ sym (append_assoc t.text (joined (u ∷ tokens)) more)

pub has_tokens-extend_last :
    (more : Text) (tokens : List Token) → has_tokens (extend_last more tokens) ≡ has_tokens tokens
unfolding extend_last
has_tokens-extend_last more [] = refl
has_tokens-extend_last more (t ∷ []) = refl
has_tokens-extend_last more (t ∷ u ∷ tokens) = refl

pub token_times-extend_last :
    (more : Text) (tokens : List Token) → token_times (extend_last more tokens) ≡ token_times tokens
unfolding extend_last
token_times-extend_last more [] = refl
token_times-extend_last more (t ∷ []) = refl
token_times-extend_last more (t ∷ u ∷ tokens) =
    ap (◌∷◌ (t.start, t.end)) (token_times-extend_last more (u ∷ tokens))

pub joined-snoc :
    (tokens : List Token) (t : Token) → joined (tokens ++ t ∷ []) ≡ joined tokens ++ t.text
joined-snoc [] t = append_nil t.text
joined-snoc (u ∷ tokens) t =
    ap (λ s. u.text ++ s) (joined-snoc tokens t) ∙ sym (append_assoc u.text (joined tokens) t.text)

pub token_times-snoc :
    (tokens : List Token) (t : Token)
    → token_times (tokens ++ t ∷ []) ≡ token_times tokens ++ (t.start, t.end) ∷ []
token_times-snoc [] t = refl
token_times-snoc (u ∷ tokens) t = ap (◌∷◌ (u.start, u.end)) (token_times-snoc tokens t)

pub has_tokens-snoc : (tokens : List Token) (t : Token) → has_tokens (tokens ++ t ∷ []) ≡ true
has_tokens-snoc [] t = refl
has_tokens-snoc (u ∷ tokens) t = refl
