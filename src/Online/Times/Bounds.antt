-- ===== src/Online/Times/Bounds.antt =====
-- The time stamps of a segment lie in the segment
-- (src/engine_runtime/engines/online/timestamp_utils.py).
use funasr_api.Prelude.{
  ℕ, zero, suc, ◌+◌, ◌≡◌, refl, ap, ◌∙◌, inl, inr, Bool-cases, Option, none, some, get_elem?, List,
  [], ◌∷◌, arith, map, All, if◌then◌else◌,
}
use funasr_api.Prelude.Int.{ℤ, ◌+ℤ◌, ◌≤ℤ◌, ltb_ℤ}
use funasr_api.Prelude.Text.{Text, is_space, is_empty}
use funasr_api.Prelude.Text.Solid.{solid}
use funasr_api.Online.Times.{
  Stamp, two, more, neither, compact_token_text, first_token, next_tokens, Timed, text_tokens,
  normalize_stamps, clamp, globalize, globalize_all, offset_of, extract_global_timestamps,
}

abbrev pub IsWithin : ℤ → ℤ → Timed → Type 0
IsWithin start_ms end_ms t = (start_ms ≤ℤ t.start) × (t.start ≤ℤ t.end) × (t.end ≤ℤ end_ms)

clamp-ge : (s e v : ℤ) → s ≤ℤ clamp s e v
clamp-ge s e v = ground arith

clamp-le : (s e v : ℤ) → s ≤ℤ e → clamp s e v ≤ℤ e
clamp-le s e v h = ground arith

-- An end that is moved behind its start stays within the same bound.
later_end :
    (a b e : ℤ)
    → a ≤ℤ e
    → b ≤ℤ e
    → (a ≤ℤ (if ltb_ℤ b a then a else b)) × ((if ltb_ℤ b a then a else b) ≤ℤ e)
later_end a b e h k = ground arith

globalize-IsWithin : (s e offset : ℤ) (t : Timed) → s ≤ℤ e → IsWithin s e (globalize s e offset t)
globalize-IsWithin s e offset t h =
    let a = clamp s e (t.start +ℤ offset) in
    let b = clamp s e (t.end +ℤ offset) in
    let (after, before) =
      later_end a b e (clamp-le s e (t.start +ℤ offset) h) (clamp-le s e (t.end +ℤ offset) h) in
    (clamp-ge s e (t.start +ℤ offset), after, before)

abbrev pub tokens_of : List Timed → List Text
tokens_of ts = map (λ (t : Timed). t.token) ts

globalized :
    (s e offset : ℤ) (ts : List Timed)
    → s ≤ℤ e
    → All (IsWithin s e) (globalize_all s e offset ts)
      × (tokens_of (globalize_all s e offset ts) ≡ tokens_of ts)
unfolding globalize_all
globalized s e offset [] h = (tt, refl)
globalized s e offset (t ∷ ts) h =
    let (within, same) = globalized s e offset ts h in
    ((globalize-IsWithin s e offset t h, within), ap (t.token ∷◌) same)

-- The character of the text at an index, white space not counted, or nothing.
abbrev character : Option ℕ → Text
character none = []
character (some c) = c ∷ []

unfoldable pub character_at : Text → ℕ → Text
character_at raw_text index = character (get_elem? (solid raw_text) index)

-- The tokens that the items from an index on should have: none for an item that is not usable, and
-- its own token for an item with one that is more than blanks; for any other the character of the
-- text at the item's own index, items that are not usable counted.
unfoldable pub expected_tokens : Text → ℕ → List Stamp → List Text
expected_tokens raw_text index [] = []
expected_tokens raw_text index (neither ∷ stamps) = expected_tokens raw_text (suc index) stamps
expected_tokens raw_text index (two start end ∷ stamps) =
    character_at raw_text index ∷ expected_tokens raw_text (suc index) stamps
expected_tokens raw_text index (more own start end ∷ stamps) =
    let rest = expected_tokens raw_text (suc index) stamps in
    let compact = compact_token_text own in
    if is_empty compact then character_at raw_text index ∷ rest else compact ∷ rest

abbrev after : ℕ → List Text → List Text
after zero ts = ts
after (suc j) ts = after j (next_tokens ts)

after_nil : (j : ℕ) → first_token (after j []) ≡ []
after_nil zero = refl
after_nil (suc j) = after_nil j

first_at : (s : Text) (j : ℕ) → first_token (after j (text_tokens s)) ≡ character_at s j
unfolding text_tokens character_at
first_at [] j = after_nil j
first_at (c ∷ s) zero = elim (Bool-cases (is_space c)) [
  | inl e ↦ rw e (first_at s zero)
  | inr e ↦ rw e refl
]
first_at (c ∷ s) (suc j) = elim (Bool-cases (is_space c)) [
  | inl e ↦ rw e (first_at s (suc j))
  | inr e ↦ rw e (first_at s j)
]

tokens_expected :
    (raw_text : Text) (index : ℕ) (ts : List Text)
    → ((j i : ℕ) → i ≡ index + j → first_token (after j ts) ≡ character_at raw_text i)
    → (payload : List Stamp)
    → tokens_of (normalize_stamps ts payload) ≡ expected_tokens raw_text index payload
unfolding normalize_stamps expected_tokens
tokens_expected raw_text index ts h [] = refl
tokens_expected raw_text index ts h (neither ∷ stamps) =
    tokens_expected raw_text (suc index) (next_tokens ts) (λ j i e. h (suc j) i (omega (arith, e)))
      stamps
tokens_expected raw_text index ts h (two start end ∷ stamps) =
    let rest =
      tokens_expected raw_text (suc index) (next_tokens ts)
        (λ j i e. h (suc j) i (omega (arith, e))) stamps in
    rw (rest, h 0 index (omega arith)) refl
tokens_expected raw_text index ts h (more own start end ∷ stamps) =
    let rest =
      tokens_expected raw_text (suc index) (next_tokens ts)
        (λ j i e. h (suc j) i (omega (arith, e))) stamps in
    elim (Bool-cases (is_empty (compact_token_text own))) [
      | inl e ↦ rw (e, rest, h 0 index (omega arith)) refl
      | inr e ↦ rw (e, rest) refl
    ]

-- The time stamps of a segment that does not end before it starts lie within the segment, none ends
-- before it starts, and there is one for each usable item of the payload, in their order: with the
-- item's own token where that is not blank, and else with the character of the text that has the
-- item's index when white space is not counted, or no token behind the end of the text.
pub extract_global_timestamps-IsWithin :
    (payload : List Stamp) (raw_text : Text) (start_ms end_ms padded_start_ms padded_end_ms : ℤ)
    → start_ms ≤ℤ end_ms
    → All
        (IsWithin start_ms end_ms)
        (extract_global_timestamps payload raw_text start_ms end_ms padded_start_ms padded_end_ms)
      × (tokens_of (
            extract_global_timestamps payload raw_text start_ms end_ms padded_start_ms
              padded_end_ms)
          ≡ expected_tokens raw_text 0 payload)
unfolding extract_global_timestamps
extract_global_timestamps-IsWithin payload raw_text start_ms end_ms padded_start_ms padded_end_ms
      h =
    let normalized = normalize_stamps (text_tokens raw_text) payload in
    let (within, same) =
      globalized start_ms end_ms (offset_of padded_start_ms padded_end_ms normalized) normalized
        h in
    let at : (j i : ℕ)
        → i ≡ 0 + j
        → first_token (after j (text_tokens raw_text)) ≡ character_at raw_text i =
      λ j i e. first_at raw_text j ∙ ap (character_at raw_text) (omega (arith, e)) in
    (within, same ∙ tokens_expected raw_text 0 (text_tokens raw_text) at payload)
