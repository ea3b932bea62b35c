-- ===== src/Online/Policy/Trim.antt =====
-- Trimming keeps the audio that a pending segment will be decoded from.
use funasr_api.Prelude.{
  ℕ, ◌+◌, ◌*◌, ◌/◌, ◌-◌, ◌%◌, ◌==◌, ap, Bool-cases, inl, inr, ◌≤◌, ◌≡◌, Option, none, some, List,
  [], ◌∷◌, arith, if◌then◌else◌, All, All-map, subst,
}
use native.Mathlib.Decide.{dec_le}
use funasr_api.Prelude.Int.{
  ≤ℤ_trans, min_ℤ-le_left, min_ℤ-le_right, ℤ, pos, negsuc, ◌+ℤ◌, ◌-ℤ◌, ◌≤ℤ◌, max_ℤ, min_ℤ,
}
use funasr_api.Online.Policy.{
  Segment, samples_of_ms, keep_pending, keep_active, audio_trim_keep_from_sample,
}

-- `_decode_final_segment` reads from here on: the start of the segment less the padding.
abbrev pub decode_from : ℕ → ℤ → Segment → ℤ
decode_from sample_rate vad_pre_padding_ms s =
    samples_of_ms sample_rate (max_ℤ (pos 0) (s.start -ℤ vad_pre_padding_ms))

-- The difference of two quotients passes the quotient of the difference by one at most.
samples_of_difference :
    (rate a b : ℕ)
    → (a * rate / 1000 + b * rate / 1000 ≤ (a + b) * rate / 1000)
      × ((a + b) * rate / 1000 ≤ a * rate / 1000 + b * rate / 1000 + 1)
samples_of_difference rate a b = grind arith

-- At a rate of whole samples per millisecond there is no rounding.
samples_whole :
    (k a b : ℕ) → (a + b) * (k * 1000) / 1000 ≡ a * (k * 1000) / 1000 + b * (k * 1000) / 1000
samples_whole k a b = omega arith

samples_exact :
    (rate a b : ℕ) → rate % 1000 ≡ 0 → (a + b) * rate / 1000 ≡ a * rate / 1000 + b * rate / 1000
samples_exact rate a b h =
    let whole : rate / 1000 * 1000 ≡ rate = omega arith in
    subst (λ r. (a + b) * r / 1000 ≡ a * r / 1000 + b * r / 1000) whole
      (samples_whole (rate / 1000) a b)

abbrev pub rounding : ℕ → ℕ
rounding rate = if rate % 1000 == 0 then 0 else 1

samples_sub :
    (rate a b : ℕ)
    → b ≤ a
    → a * rate / 1000 ≤ (a - b) * rate / 1000 + b * rate / 1000 + rounding rate
samples_sub rate a b h =
    let back : (a - b + b) * rate / 1000 ≡ a * rate / 1000 =
      ap (λ (n : ℕ). n * rate / 1000) (let e : a - b + b ≡ a = omega arith in e) in
    elim (Bool-cases (rate % 1000 == 0)) [
      | inl even ↦ rw even (omega (arith, back, samples_exact rate (a - b) b (ground arith)))
      | inr odd ↦ rw odd (omega (arith, back, samples_of_difference rate (a - b) b))
    ]

samples_mono : (rate a b : ℕ) → a ≤ b → a * rate / 1000 ≤ b * rate / 1000
samples_mono rate a b h = grind arith

samples_bound :
    (rate n pad : ℕ) → n * rate / 1000 ≤ (n - pad) * rate / 1000 + pad * rate / 1000 + rounding rate
samples_bound rate n pad = elim (dec_le pad n) [
  | yes h ↦ samples_sub rate n pad h
  | no h ↦ omega (arith, samples_mono rate n pad (omega arith))
]

padded_start : (n pad : ℕ) → max_ℤ (pos 0) (pos n -ℤ pos pad) ≡ pos (n - pad)
unfolding ◌-ℤ◌
padded_start n pad = ground arith

difference_bound : (x y z r : ℕ) → x ≤ z + y + r → max_ℤ (pos 0) (pos x -ℤ pos y) ≤ℤ pos z +ℤ pos r
unfolding ◌-ℤ◌ ◌+ℤ◌
difference_bound x y z r h = ground arith

-- The place kept for a segment is at most by the rounding behind the place it is decoded from.
kept_for_segment :
    (rate pad : ℕ) (a : ℤ)
    → pos 0 ≤ℤ a
    → max_ℤ (pos 0) (samples_of_ms rate a -ℤ samples_of_ms rate (pos pad))
      ≤ℤ samples_of_ms rate (max_ℤ (pos 0) (a -ℤ pos pad)) +ℤ pos (rounding rate)
unfolding samples_of_ms
kept_for_segment rate pad (pos n) h =
    rw (padded_start n pad) (difference_bound _ _ _ _ (samples_bound rate n pad))
kept_for_segment rate pad (negsuc n) h = absurd (omega arith)

keep_pending-le :
    (rate : ℕ) (pad : ℤ) (pending : List Segment) (keep : ℤ)
    → keep_pending rate pad pending keep ≤ℤ keep
unfolding keep_pending
keep_pending-le rate pad [] keep = omega arith
keep_pending-le rate pad (s ∷ ss) keep =
    let kept = max_ℤ (pos 0) (samples_of_ms rate s.start -ℤ samples_of_ms rate pad) in
    ≤ℤ_trans (min_ℤ kept (keep_pending rate pad ss keep)) (keep_pending rate pad ss keep) keep
      (min_ℤ-le_right kept (keep_pending rate pad ss keep)) (keep_pending-le rate pad ss keep)

keep_active-le :
    (rate : ℕ) (pad : ℤ) (active : Option ℤ) (keep : ℤ) → keep_active rate pad active keep ≤ℤ keep
unfolding keep_active
keep_active-le rate pad none keep = omega arith
keep_active-le rate pad (some start) keep =
    min_ℤ-le_left keep (max_ℤ (pos 0) (samples_of_ms rate (start -ℤ pad)))

-- Where the decoding of a segment begins, with the rounding.
abbrev pub decode_bound : ℕ → ℕ → Segment → ℤ
decode_bound rate pad s = decode_from rate (pos pad) s +ℤ pos (rounding rate)

keep_pending-le_each :
    (rate pad : ℕ) (pending : List Segment) (keep : ℤ)
    → All (λ s. pos 0 ≤ℤ s.start) pending
    → All (λ s. keep_pending rate (pos pad) pending keep ≤ℤ decode_bound rate pad s) pending
unfolding keep_pending
keep_pending-le_each rate pad [] keep h = tt
keep_pending-le_each rate pad (s ∷ ss) keep h =
    let kept = max_ℤ (pos 0) (samples_of_ms rate s.start -ℤ samples_of_ms rate (pos pad)) in
    let rest = keep_pending rate (pos pad) ss keep in
    (
      ≤ℤ_trans (min_ℤ kept rest) kept (decode_bound rate pad s) (min_ℤ-le_left kept rest)
          (kept_for_segment rate pad s.start h.0),
      All-map (λ u. rest ≤ℤ decode_bound rate pad u)
          (λ u. min_ℤ kept rest ≤ℤ decode_bound rate pad u) ss
          (λ u k.
            ≤ℤ_trans (min_ℤ kept rest) rest (decode_bound rate pad u) (min_ℤ-le_right kept rest) k)
          (keep_pending-le_each rate pad ss keep h.1),
    )

samples_of_ms_nonneg : (rate : ℕ) (a : ℤ) → pos 0 ≤ℤ a → pos 0 ≤ℤ samples_of_ms rate a
unfolding samples_of_ms
samples_of_ms_nonneg rate (pos n) h = omega arith
samples_of_ms_nonneg rate (negsuc n) h = absurd (omega arith)

max_ℤ_nonneg : (a : ℤ) → pos 0 ≤ℤ max_ℤ (pos 0) a
max_ℤ_nonneg a = ground arith

decode_bound_nonneg : (rate pad : ℕ) (s : Segment) → pos 0 ≤ℤ decode_bound rate pad s
unfolding ◌+ℤ◌
decode_bound_nonneg rate pad s =
    let from =
      samples_of_ms_nonneg rate (max_ℤ (pos 0) (s.start -ℤ pos pad))
        (max_ℤ_nonneg (s.start -ℤ pos pad)) in
    ground arith

max_ℤ-le : (a b : ℤ) → pos 0 ≤ℤ b → a ≤ℤ b → max_ℤ (pos 0) a ≤ℤ b
max_ℤ-le a b h k = ground arith

below_most :
    (a b most last : ℤ) → a ≤ℤ b → b ≤ℤ most → most ≤ℤ last → max_ℤ (pos 0) a ≤ℤ max_ℤ (pos 0) last
below_most a b most last h k l = ground arith

-- At every call whose pending segments begin at a time that is not negative, with a padding that is
-- not negative, the sample that is kept from on is at most the first
-- sample that the decoding of any pending segment reads, plus one sample when the rate is not
-- a multiple of 1000; it is not negative; and it is at most the end of the stream and the end of
-- what the speech detector was fed, or 0 where these are negative.
pub trim_keeps_pending :
    (last fed : ℤ) (pending : List Segment) (pad rate : ℕ) (active : Option ℤ)
    → All (λ s. pos 0 ≤ℤ s.start) pending
    → let keep = audio_trim_keep_from_sample last fed pending (pos pad) rate active in
      All (λ s. keep ≤ℤ decode_bound rate pad s) pending
      × (pos 0 ≤ℤ keep)
      × (keep ≤ℤ max_ℤ (pos 0) last)
      × (keep ≤ℤ max_ℤ (pos 0) fed)
unfolding audio_trim_keep_from_sample
trim_keeps_pending last fed pending pad rate active starts =
    let most = min_ℤ last fed in
    let waiting = keep_pending rate (pos pad) pending most in
    let kept = keep_active rate (pos pad) active waiting in
    let to_waiting = keep_active-le rate (pos pad) active waiting in
    let to_most = keep_pending-le rate (pos pad) pending most in
    (
      All-map (λ s. waiting ≤ℤ decode_bound rate pad s)
          (λ s. max_ℤ (pos 0) kept ≤ℤ decode_bound rate pad s) pending
          (λ s k.
            max_ℤ-le kept (decode_bound rate pad s) (decode_bound_nonneg rate pad s)
              (≤ℤ_trans kept waiting (decode_bound rate pad s) to_waiting k))
          (keep_pending-le_each rate pad pending most starts),
      max_ℤ_nonneg kept,
      below_most kept waiting most last to_waiting to_most (min_ℤ-le_left last fed),
      below_most kept waiting most fed to_waiting to_most (min_ℤ-le_right last fed),
    )
