-- ===== src/Offline/Alignment/Coverage.antt =====
-- The alignment loses no character of the text, and takes the time stamps in their order.
use funasr_api.Prelude.{
  append_nil, append_assoc, ℕ, zero, suc, ◌≤◌, ◌≡◌, ◌≢◌, refl, ap, sym, ◌∙◌, subst, true, ◌⊎◌, inl,
  inr, List, [], ◌∷◌, ◌++◌, arith, Bool-cases, length, All,
}
use funasr_api.Prelude.Text.{Text, is_empty}
use funasr_api.Offline.Alignment.{
  Item, pair, triple, other, Token, Alignment, is_ascii_word_char, is_text_separator, word_rest,
  after_word, has_tokens, add_separator, take_item, read_unit, after_unit, align, finish,
  align_text_to_timestamps,
}
use funasr_api.Offline.Alignment.Tokens.{
  IsTriple, joined, token_times, item_times, word_rest-after_word, after_unit-le,
  joined-extend_last, has_tokens-extend_last, token_times-extend_last, joined-snoc,
  token_times-snoc, has_tokens-snoc,
}

-- Either nothing has been aligned yet and an item is left for the first unit, or the tokens
-- and the rest of the text make up the whole of it.
abbrev pub IsCovering : Text → Text → Alignment → Type 0
IsCovering whole rest a =
    ((a.tokens ≡ []) × (a.timestamps ≢ []) × (a.pending_prefix ++ rest ≡ whole))
    ⊎ ((has_tokens a.tokens ≡ true) × (a.pending_prefix ≡ []) × (joined a.tokens ++ rest ≡ whole))

abbrev pub IsInStep : List Item → Alignment → Type 0
IsInStep items a =
    All IsTriple a.timestamps × (token_times a.tokens ++ item_times a.timestamps ≡ item_times items)

add_separator-IsCovering :
    (whole rest : Text) (c : ℕ) (a : Alignment)
    → IsCovering whole (c ∷ rest) a
    → IsCovering whole rest (add_separator c a)
unfolding add_separator
add_separator-IsCovering whole rest c a (inl h) =
    rw (ap has_tokens h.0) (inl (h.0, h.1, append_assoc a.pending_prefix (c ∷ []) rest ∙ h.2))
add_separator-IsCovering whole rest c a (inr h) = rw h.0 (
    inr (
      has_tokens-extend_last (c ∷ []) a.tokens ∙ h.0,
      h.1,
      ap (λ s. s ++ rest) (joined-extend_last (c ∷ []) a.tokens h.0)
          ∙ append_assoc (joined a.tokens) (c ∷ []) rest
          ∙ h.2,
    ))

add_separator-IsInStep :
    (items : List Item) (c : ℕ) (a : Alignment)
    → IsInStep items a
    → IsInStep items (add_separator c a)
unfolding add_separator
add_separator-IsInStep items c a h = elim (Bool-cases (has_tokens a.tokens)) [
  | inl e ↦ rw e (
    h.0,
    ap (λ s. s ++ item_times a.timestamps) (token_times-extend_last (c ∷ []) a.tokens) ∙ h.1,
  )
  | inr e ↦ rw e h
]

take_item-IsCovering :
    (whole rest unit : Text) (left : List Item) (a : Alignment)
    → a.timestamps ≡ left
    → All IsTriple left
    → IsCovering whole (unit ++ rest) a
    → IsCovering whole rest (take_item unit left a)
unfolding take_item
take_item-IsCovering whole rest unit [] a e k (inl h) = absurd (h.1 e)
take_item-IsCovering whole rest unit [] a e k (inr h) = rw h.0 (
    inr (
      has_tokens-extend_last unit a.tokens ∙ h.0,
      h.1,
      ap (λ s. s ++ rest) (joined-extend_last unit a.tokens h.0)
          ∙ append_assoc (joined a.tokens) unit rest
          ∙ h.2,
    ))
take_item-IsCovering whole rest unit (triple text start end ∷ left) a e k h =
    let t : Token = record { text = a.pending_prefix ++ unit; start = start; end = end } in
    let joined_now : joined (a.tokens ++ t ∷ []) ++ rest
        ≡ joined a.tokens ++ (a.pending_prefix ++ (unit ++ rest)) =
      ap (λ s. s ++ rest) (joined-snoc a.tokens t)
      ∙ append_assoc (joined a.tokens) (a.pending_prefix ++ unit) rest
      ∙ ap (λ s. joined a.tokens ++ s) (append_assoc a.pending_prefix unit rest) in
    inr (
      has_tokens-snoc a.tokens t,
      refl,
      joined_now ∙ elim h [
        | inl none_yet ↦
            ap (λ ts. joined ts ++ (a.pending_prefix ++ (unit ++ rest))) none_yet.0 ∙ none_yet.2
        | inr some_yet ↦ ap (λ p. joined a.tokens ++ (p ++ (unit ++ rest))) some_yet.1 ∙ some_yet.2
      ],
    )
take_item-IsCovering whole rest unit (pair start end ∷ left) a e k h = absurd k.0
take_item-IsCovering whole rest unit (other ∷ left) a e k h = absurd k.0

take_item-IsInStep :
    (items : List Item) (unit : Text) (left : List Item) (a : Alignment)
    → a.timestamps ≡ left
    → IsInStep items a
    → IsInStep items (take_item unit left a)
unfolding take_item
take_item-IsInStep items unit [] a e h = elim (Bool-cases (has_tokens a.tokens)) [
  | inl some_yet ↦
      rw some_yet
        (h.0, ap (λ s. s ++ item_times a.timestamps) (token_times-extend_last unit a.tokens) ∙ h.1)
  | inr none_yet ↦ rw none_yet h
]
take_item-IsInStep items unit (triple text start end ∷ left) a e h =
    let t : Token = record { text = a.pending_prefix ++ unit; start = start; end = end } in
    let triples : All IsTriple (triple text start end ∷ left) = subst (All IsTriple) e h.0 in
    (
      triples.1,
      ap (λ s. s ++ item_times left) (token_times-snoc a.tokens t)
          ∙ append_assoc (token_times a.tokens) ((start, end) ∷ []) (item_times left)
          ∙ ap (λ l. token_times a.tokens ++ item_times l) (sym e)
          ∙ h.1,
    )
take_item-IsInStep items unit (pair start end ∷ left) a e h =
    let triples : All IsTriple (pair start end ∷ left) = subst (All IsTriple) e h.0 in
    absurd triples.0
take_item-IsInStep items unit (other ∷ left) a e h =
    let triples : All IsTriple (other ∷ left) = subst (All IsTriple) e h.0 in absurd triples.0

abbrev pub IsAligning : Text → List Item → Text → Alignment → Type 0
IsAligning whole items rest a = IsInStep items a × IsCovering whole rest a

read_unit-IsAligning :
    (whole rest : Text) (items : List Item) (c : ℕ) (a : Alignment)
    → IsAligning whole items (c ∷ rest) a
    → IsAligning whole items (after_unit c rest) (read_unit c rest a)
unfolding read_unit after_unit
read_unit-IsAligning whole rest items c a h =
    let word = subst (λ s. IsCovering whole (c ∷ s) a) (sym (word_rest-after_word rest)) h.1 in
    elim (Bool-cases (is_text_separator c)) [
      | inl e ↦
          rw e (add_separator-IsInStep items c a h.0, add_separator-IsCovering whole rest c a h.1)
      | inr e ↦ elim (Bool-cases (is_ascii_word_char c)) [
        | inl f ↦
            rw (e, f)
              (
                take_item-IsInStep items (c ∷ word_rest rest) a.timestamps a refl h.0,
                take_item-IsCovering whole (after_word rest) (c ∷ word_rest rest) a.timestamps a
                    refl h.0.0 word,
              )
        | inr f ↦
            rw (e, f)
              (
                take_item-IsInStep items (c ∷ []) a.timestamps a refl h.0,
                take_item-IsCovering whole rest (c ∷ []) a.timestamps a refl h.0.0 h.1,
              )
      ]
    ]

align-IsAligning :
    (whole : Text) (items : List Item) (fuel : ℕ) (rest : Text) (a : Alignment)
    → length rest ≤ fuel
    → IsAligning whole items rest a
    → IsAligning whole items [] (align fuel rest a)
unfolding align
align-IsAligning whole items zero [] a h k = k
align-IsAligning whole items zero (c ∷ rest) a h k = absurd (omega arith)
align-IsAligning whole items (suc fuel) [] a h k = k
align-IsAligning whole items (suc fuel) (c ∷ rest) a h k =
    align-IsAligning whole items fuel (after_unit c rest) (read_unit c rest a)
      (omega (arith, after_unit-le c rest)) (read_unit-IsAligning whole rest items c a k)

finish_keeps :
    (whole : Text) (items : List Item) (a : Alignment)
    → IsAligning whole items [] a
    → ((finish a ≡ []) ⊎ (joined (finish a) ≡ whole))
      × (token_times (finish a) ++ item_times a.timestamps ≡ item_times items)
unfolding is_empty
finish_keeps whole items a ((k, l), inl h) =
    let nothing : finish a ≡ [] =
      rw (ap has_tokens h.0)
        (elim (Bool-cases (is_empty a.pending_prefix)) [ inl e ↦ rw e h.0 | inr e ↦ rw e h.0 ]) in
    (inl nothing, ap (λ ts. token_times ts ++ item_times a.timestamps) (nothing ∙ sym h.0) ∙ l)
finish_keeps whole items a ((k, l), inr h) =
    let same : finish a ≡ a.tokens = rw h.1 in
    (
      inr (ap joined same ∙ sym (append_nil (joined a.tokens)) ∙ h.2),
      ap (λ ts. token_times ts ++ item_times a.timestamps) same ∙ l,
    )

-- When every time stamp has three entries and there is one at least, the result of
-- `align_text_to_timestamps` is either empty or its tokens, joined, are the whole text, with
-- every separator and unit of it; and the times of the tokens are those of the first time stamps, one
-- each and in their order.
pub align_keeps_text :
    (text : Text) (timestamps : List Item)
    → All IsTriple timestamps
    → timestamps ≢ []
    → ((align_text_to_timestamps text timestamps ≡ [])
        ⊎ (joined (align_text_to_timestamps text timestamps) ≡ text))
      × ((left : List Item) × (token_times (align_text_to_timestamps text timestamps)
              ++ item_times left
            ≡ item_times timestamps))
unfolding align_text_to_timestamps
align_keeps_text text timestamps triples given =
    let first : Alignment = record { tokens = []; pending_prefix = []; timestamps = timestamps } in
    let last = align (length text) text first in
    let kept = finish_keeps text timestamps last (
      align-IsAligning text timestamps (length text) text first (omega arith)
        ((triples, refl), inl (refl, given, refl))) in
    (kept.0, (last.timestamps, kept.1))
