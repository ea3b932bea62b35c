-- ===== src/Offline/Filling/Times.antt =====
-- The times of time stamps that are moved or filled
-- (src/engine_runtime/engines/offline/timestamp_utils.py).
use funasr_api.Prelude.{
  ◌≡◌, refl, ap, false, ◌&&◌, ◌||◌, ◌==◌, ==_iff, Option-cases, ◌⊎◌, inl, inr, some, List, [], ◌∷◌,
  arith, length, All, Bool-cases, if◌then◌else◌,
}
use funasr_api.Prelude.Int.{ℤ, pos, ◌+ℤ◌, ◌-ℤ◌, leb_ℤ, ltb_ℤ, max_ℤ}
use funasr_api.Prelude.Text.{Text, is_empty}
use funasr_api.Offline.Alignment.{Item, pair, triple, other, shift}
use funasr_api.Offline.Alignment.Tokens.{IsTriple}
use funasr_api.Offline.Filling.{
  last_end, move_items, no_items, maybe_offset_timestamps, split_words, plain_chars, fill,
  fill_if_same, fill_timestamp_tokens,
}

-- The times of the items that have any.
abbrev pub times_of : List Item → List (ℤ × ℤ)
times_of [] = []
times_of (triple text start end ∷ items) = (start, end) ∷ times_of items
times_of (pair start end ∷ items) = (start, end) ∷ times_of items
times_of (other ∷ items) = times_of items

times-fill :
    (tokens : List Text) (items : List Item)
    → length tokens ≡ length items
    → times_of (fill tokens items) ≡ times_of items
unfolding fill
times-fill [] [] h = refl
times-fill [] (item ∷ items) h = absurd (omega arith)
times-fill (token ∷ tokens) [] h = absurd (omega arith)
times-fill (token ∷ tokens) (triple text start end ∷ items) h =
    ap ((start, end) ∷◌) (times-fill tokens items (omega arith))
times-fill (token ∷ tokens) (pair start end ∷ items) h =
    ap ((start, end) ∷◌) (times-fill tokens items (omega arith))
times-fill (token ∷ tokens) (other ∷ items) h = times-fill tokens items (omega arith)

times-if :
    (tokens : List Text) (items rest : List Item)
    → times_of rest ≡ times_of items
    → times_of (if length tokens == length items then fill tokens items else rest) ≡ times_of items
times-if tokens items rest h = elim (Bool-cases (length tokens == length items)) [
  | inl e ↦ rw e (times-fill tokens items ((==_iff (length tokens) (length items)).0 e))
  | inr e ↦ rw e h
]

-- `fill_timestamp_tokens` changes the texts of time stamps at most: whatever the text, the times are
-- those of the given time stamps, in their order.
pub fill_timestamp_tokens_keeps_times :
    (text : Text) (timestamps : List Item)
    → times_of (fill_timestamp_tokens text timestamps) ≡ times_of timestamps
unfolding fill_timestamp_tokens
fill_timestamp_tokens_keeps_times text timestamps =
    elim (Bool-cases (is_empty text || no_items timestamps)) [
      | inl e ↦ rw e refl
      | inr e ↦ rw e (
          times-if (split_words [] text) timestamps (fill_if_same (plain_chars text) timestamps)
            (times-if (plain_chars text) timestamps timestamps refl))
    ]

move_triples :
    (start_ms : ℤ) (items : List Item)
    → All IsTriple items
    → move_items start_ms items ≡ some (shift start_ms items)
unfolding move_items shift
move_triples start_ms [] h = refl
move_triples start_ms (triple text start end ∷ items) h = rw (move_triples start_ms items h.1) refl
move_triples start_ms (pair start end ∷ items) h = absurd h.0
move_triples start_ms (other ∷ items) h = absurd h.0

last_triple :
    (item : Item) (items : List Item)
    → All IsTriple (item ∷ items)
    → (e : ℤ) × (last_end (item ∷ items) ≡ some e)
unfolding last_end
last_triple (triple text start end) items h = elim (Option-cases (last_end items)) [
  | inl e ↦ (end, rw e refl)
  | inr (later, e) ↦ (max_ℤ end later, rw e refl)
]
last_triple (pair start end) items h = absurd h.0
last_triple other items h = absurd h.0

-- Time stamps of three entries never make `maybe_offset_timestamps` raise: it returns them as they
-- are, or moved by the start of the sentence, and then that start is positive.
pub maybe_offset_timestamps_lem :
    (timestamps : List Item) (start_ms end_ms : ℤ)
    → All IsTriple timestamps
    → (maybe_offset_timestamps timestamps start_ms end_ms ≡ some timestamps)
      ⊎ ((maybe_offset_timestamps timestamps start_ms end_ms ≡ some (shift start_ms timestamps))
          × (leb_ℤ start_ms (pos 0) ≡ false))
unfolding maybe_offset_timestamps
maybe_offset_timestamps_lem [] start_ms end_ms h = inl refl
maybe_offset_timestamps_lem (item ∷ items) start_ms end_ms h =
    let (last, e) = last_triple item items h in
    elim (Bool-cases (leb_ℤ start_ms (pos 0))) [
      | inl early ↦ inl (rw early refl)
      | inr late ↦
          elim (Bool-cases (
            ltb_ℤ (pos 0) (max_ℤ (pos 0) (end_ms -ℤ start_ms))
            && leb_ℤ last (max_ℤ (pos 0) (end_ms -ℤ start_ms) +ℤ pos 50))) [
              | inl moved ↦ inr (rw (late, e, moved) (move_triples start_ms (item ∷ items) h), late)
              | inr kept ↦ inl (rw (late, e, kept) refl)
            ]
    ]
