-- ===== src/Offline/Speakers/Overlap.antt =====
-- The speaker that is found has the greatest overlap.
use funasr_api.Prelude.{
  ◌≡◌, ◌≢◌, refl, ap, sym, true, false, ◌⊎◌, inl, inr, Option, none, some, List, [], ◌∷◌, arith,
  Bool-cases, if◌then◌else◌, All, All-map, subst,
}
use funasr_api.Prelude.Int.{≤ℤ_trans, ℤ, pos, negsuc, ◌≤ℤ◌, ltb_ℤ}
use funasr_api.Offline.Speakers.{
  SpeakerSegment, overlap, best_of, speaker_for_time_range, chosen, nearest_of, nearest_speaker,
  distance,
}

-- The segment is one of the list.
abbrev pub IsOneOf : SpeakerSegment → List SpeakerSegment → Type 0
IsOneOf s [] = ⊥
IsOneOf s (t ∷ ts) = (s ≡ t) ⊎ IsOneOf s ts

-- What `best_of` finds: nothing beyond what it began with, or a segment of the list.
abbrev pub IsBest :
    ℤ → ℤ → List SpeakerSegment → Option SpeakerSegment → ℤ → Option SpeakerSegment × ℤ → Type 0
IsBest start end segments best most (found, overlap_found) =
    (most ≤ℤ overlap_found)
    × All (λ t. overlap start end t ≤ℤ overlap_found) segments
    × (((found ≡ best) × (overlap_found ≡ most))
        ⊎ ((s : SpeakerSegment) × (found ≡ some s)
            × (overlap start end s ≡ overlap_found)
            × IsOneOf s segments))

module _ (start end : ℤ) where
  best_of_better :
      (t : SpeakerSegment) (ts : List SpeakerSegment) (best : Option SpeakerSegment) (most : ℤ)
      → ltb_ℤ most (overlap start end t) ≡ true
      → best_of start end (t ∷ ts) best most ≡ best_of start end ts (some t) (overlap start end t)
  unfolding best_of
  best_of_better t ts best most e =
      ap
        (λ b.
          best_of start end ts (if b then some t else best)
            (if b then overlap start end t else most))
        e

  best_of_no_better :
      (t : SpeakerSegment) (ts : List SpeakerSegment) (best : Option SpeakerSegment) (most : ℤ)
      → ltb_ℤ most (overlap start end t) ≡ false
      → best_of start end (t ∷ ts) best most ≡ best_of start end ts best most
  unfolding best_of
  best_of_no_better t ts best most e =
      ap
        (λ b.
          best_of start end ts (if b then some t else best)
            (if b then overlap start end t else most))
        e

  nearest_of_nearer :
      (s t : SpeakerSegment) (ts : List SpeakerSegment)
      → ltb_ℤ (distance start end t) (distance start end s) ≡ true
      → nearest_of start end s (t ∷ ts) ≡ nearest_of start end t ts
  unfolding nearest_of
  nearest_of_nearer s t ts e = ap (λ b. nearest_of start end (if b then t else s) ts) e

  nearest_of_no_nearer :
      (s t : SpeakerSegment) (ts : List SpeakerSegment)
      → ltb_ℤ (distance start end t) (distance start end s) ≡ false
      → nearest_of start end s (t ∷ ts) ≡ nearest_of start end s ts
  unfolding nearest_of
  nearest_of_no_nearer s t ts e = ap (λ b. nearest_of start end (if b then t else s) ts) e

lt_le : (a b : ℤ) → ltb_ℤ a b ≡ true → a ≤ℤ b
lt_le a b h = ground arith

not_lt_le : (a b : ℤ) → ltb_ℤ a b ≡ false → b ≤ℤ a
not_lt_le a b h = ground arith

lt_one : (a : ℤ) → ltb_ℤ (pos 0) a ≡ true → pos 1 ≤ℤ a
lt_one a h = ground arith

best_of-IsBest :
    (start end : ℤ) (segments : List SpeakerSegment) (best : Option SpeakerSegment) (most : ℤ)
    → IsBest start end segments best most (best_of start end segments best most)
unfolding best_of
best_of-IsBest start end [] best most = (omega arith, tt, inl (refl, refl))
best_of-IsBest start end (t ∷ ts) best most = elim (Bool-cases (ltb_ℤ most (overlap start end t))) [
  | inl e ↦
      let r = best_of start end ts (some t) (overlap start end t) in
      let rest = best_of-IsBest start end ts (some t) (overlap start end t) in
      subst (IsBest start end (t ∷ ts) best most) (sym (best_of_better start end t ts best most e))
        (
          ≤ℤ_trans most (overlap start end t) r.1 (lt_le most (overlap start end t) e) rest.0,
          (rest.0, rest.1),
          elim rest.2 [
            | inl same ↦ inr (t, same.0, sym same.1, inl refl)
            | inr found ↦ inr (found.0, found.1, found.2, inr found.3)
          ],
        )
  | inr e ↦
      let r = best_of start end ts best most in
      let rest = best_of-IsBest start end ts best most in
      subst (IsBest start end (t ∷ ts) best most)
        (sym (best_of_no_better start end t ts best most e))
        (
          rest.0,
          (
            ≤ℤ_trans (overlap start end t) most r.1 (not_lt_le most (overlap start end t) e) rest.0,
            rest.1,
          ),
          elim rest.2 [
            | inl same ↦ inl same
            | inr found ↦ inr (found.0, found.1, found.2, inr found.3)
          ],
        )
]

-- A segment of the list that none is nearer than.
abbrev pub IsNearest : ℤ → ℤ → List SpeakerSegment → SpeakerSegment → Type 0
IsNearest start end segments s =
    IsOneOf s segments × All (λ t. distance start end s ≤ℤ distance start end t) segments

nearest_of-IsNearest :
    (start end : ℤ) (s : SpeakerSegment) (ts : List SpeakerSegment)
    → IsNearest start end (s ∷ ts) (nearest_of start end s ts)
unfolding nearest_of
nearest_of-IsNearest start end s [] = (inl refl, (omega arith, tt))
nearest_of-IsNearest start end s (t ∷ ts) =
    elim (Bool-cases (ltb_ℤ (distance start end t) (distance start end s))) [
      | inl e ↦
          let rest = nearest_of-IsNearest start end t ts in
          subst (IsNearest start end (s ∷ t ∷ ts)) (sym (nearest_of_nearer start end s t ts e)) (
            inr rest.0,
            (
              ≤ℤ_trans (distance start end (nearest_of start end t ts)) (distance start end t)
                  (distance start end s) rest.1.0
                  (lt_le (distance start end t) (distance start end s) e),
              rest.1,
            ),
          )
      | inr e ↦
          let rest = nearest_of-IsNearest start end s ts in
          subst (IsNearest start end (s ∷ t ∷ ts)) (sym (nearest_of_no_nearer start end s t ts e)) (
            elim rest.0 [ inl same ↦ inl same | inr later ↦ inr (inr later) ],
            (
              rest.1.0,
              (
                ≤ℤ_trans (distance start end (nearest_of start end s ts)) (distance start end s)
                    (distance start end t) rest.1.0
                    (not_lt_le (distance start end t) (distance start end s) e),
                rest.1.1,
              ),
            ),
          )
    ]

-- The segment `s` is one of the list, and either its overlap with the time is positive and the greatest, or
-- no overlap is positive and its distance from the midpoint is the least.
abbrev pub IsMatching : ℤ → ℤ → List SpeakerSegment → SpeakerSegment → Type 0
IsMatching start end segments s =
    (IsOneOf s segments)
    × (((pos 1 ≤ℤ overlap start end s)
          × All (λ t. overlap start end t ≤ℤ overlap start end s) segments)
        ⊎ (All (λ t. overlap start end t ≤ℤ pos 0) segments × IsNearest start end segments s))

low :
    (start end most : ℤ) (segments : List SpeakerSegment)
    → All (λ t. overlap start end t ≤ℤ most) segments
    → most ≤ℤ pos 0
    → All (λ t. overlap start end t ≤ℤ pos 0) segments
low start end most segments h k =
    All-map (λ t. overlap start end t ≤ℤ most) (λ t. overlap start end t ≤ℤ pos 0) segments
      (λ t e. ≤ℤ_trans (overlap start end t) most (pos 0) e k) h

nearest_matches :
    (start end : ℤ) (segments : List SpeakerSegment)
    → segments ≢ []
    → All (λ t. overlap start end t ≤ℤ pos 0) segments
    → (s : SpeakerSegment) × (nearest_speaker start end segments ≡ s.speaker)
      × IsMatching start end segments s
unfolding nearest_speaker
nearest_matches start end [] given apart = absurd (given refl)
nearest_matches start end (t ∷ ts) given apart =
    let nearest = nearest_of-IsNearest start end t ts in
    (nearest_of start end t ts, refl, (nearest.0, inr (apart, nearest)))

overlapping :
    (start end : ℤ) (segments : List SpeakerSegment)
    → segments ≢ []
    → (best s : SpeakerSegment) (most : ℤ) → All (λ t. overlap start end t ≤ℤ most) segments
    → best ≡ s
    → overlap start end s ≡ most
    → IsOneOf s segments
    → (u : SpeakerSegment) × (chosen start end segments (some best, most) ≡ u.speaker)
      × IsMatching start end segments u
overlapping start end segments given best s most h e f m = elim (Bool-cases (ltb_ℤ (pos 0) most)) [
  | inl more ↦ rw more (
    s,
    ap (λ (b : SpeakerSegment). b.speaker) e,
    (
      m,
      inl (
        subst (λ n. pos 1 ≤ℤ n) (sym f) (lt_one most more),
        subst (λ n. All (λ t. overlap start end t ≤ℤ n) segments) (sym f) h,
      ),
    ),
  )
  | inr flat ↦ rw flat (
      nearest_matches start end segments given
        (low start end most segments h (not_lt_le (pos 0) most flat)))
]

-- For every time range and every list of speaker segments that is not empty, the speaker of
-- `speaker_for_time_range` is that of a segment of the list: one whose overlap with the range is
-- positive and the greatest of all, or, when no segment has a positive overlap, one whose nearer end
-- is the nearest of all to the midpoint.
pub speaker_matches :
    (start_ms end_ms : ℤ) (segments : List SpeakerSegment)
    → segments ≢ []
    → (s : SpeakerSegment) × (speaker_for_time_range start_ms end_ms segments ≡ s.speaker)
      × IsMatching start_ms end_ms segments s
unfolding speaker_for_time_range
speaker_matches start_ms end_ms segments given =
    by_best (best_of start_ms end_ms segments none (negsuc 0))
      (best_of-IsBest start_ms end_ms segments none (negsuc 0))
  where
    by_best :
        (r : Option SpeakerSegment × ℤ)
        → IsBest start_ms end_ms segments none (negsuc 0) r
        → (s : SpeakerSegment) × (chosen start_ms end_ms segments r ≡ s.speaker)
          × IsMatching start_ms end_ms segments s
    by_best (none, most) h = nearest_matches start_ms end_ms segments given (elim h.2 [
      | inl same ↦ low start_ms end_ms most segments h.1 (rw same.1 (omega arith))
      | inr found ↦ absurd (cc found.1)
    ])
    by_best (some best, most) h = elim h.2 [
      | inl same ↦ absurd (cc same.0)
      | inr found ↦
          overlapping start_ms end_ms segments given best found.0 most h.1
            (let e : some best ≡ some found.0 = found.1 in cc) found.2 found.3
    ]
