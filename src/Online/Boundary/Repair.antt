-- ===== src/Online/Boundary/Repair.antt =====
-- What the repair of a boundary takes away.
use funasr_api.Prelude.{
  ℕ, zero, suc, ◌-◌, ◌≤◌, ◌≡◌, refl, ap, sym, ◌∙◌, true, false, ◌&&◌, ◌||◌, ◌⊎◌, inl, inr, [], ◌∷◌,
  ◌++◌, arith, Bool-cases, length, take, drop, take-append-drop, length-take, min, ◌==◌, ==_iff,
  ap₂,
}
use funasr_api.Prelude.Int.{ℤ, pos, ◌-ℤ◌, ltb_ℤ, min_ℤ}
use funasr_api.Prelude.Text.{Text, is_empty, lstrip, rstrip, strip, text_eq, ends_with}
use funasr_api.Online.Boundary.{
  split_trailing_punctuation, remove_overlap, remove_repeated_previous_suffix,
  repair_previous_boundary_overlap,
}

text_eq_sound : (s t : Text) → text_eq s t ≡ true → s ≡ t
unfolding text_eq
text_eq_sound [] [] h = refl
text_eq_sound [] (d ∷ t) h = cc
text_eq_sound (c ∷ s) [] h = cc
text_eq_sound (c ∷ s) (d ∷ t) h =
    let heads : (c == d) ≡ true = ground arith in
    let tails : text_eq s t ≡ true = ground arith in
    ap₂ ◌∷◌ ((==_iff c d).0 heads) (text_eq_sound s t tails)

ends_with_split : (s p : Text) → ends_with s p ≡ true → take (length s - length p) s ++ p ≡ s
unfolding ends_with
ends_with_split s p h =
    ap (λ t. take (length s - length p) s ++ t)
      (sym (text_eq_sound (drop (length s - length p) s) p (ground arith)))
    ∙ take-append-drop (length s - length p) s

length-take_within : (n : ℕ) (s : Text) → n ≤ length s → length (take n s) ≡ n
length-take_within n s h = omega (arith, length-take n s)

-- The text is unchanged, or a piece with which the next segment begins was taken from its end: of
-- at most 12 characters, before the punctuation, and something is left before it.
abbrev pub IsRepair : Text → Text → Text → Type 0
IsRepair previous current repaired =
    (repaired ≡ previous)
    ⊎ ((size : ℕ) × (kept : Text) × (1 ≤ size)
        × (size ≤ 12)
        × (size ≤ length (lstrip current))
        × (kept ++ take size (lstrip current) ≡ (split_trailing_punctuation previous).0)
        × (is_empty (rstrip kept) ≡ false)
        × (repaired ≡ rstrip kept ++ (split_trailing_punctuation previous).1))

remove_overlap-IsRepair :
    (size : ℕ) (gap merge_gap : ℤ) (previous current : Text)
    → size ≤ 12
    → size ≤ length (lstrip current)
    → IsRepair previous current (
        remove_overlap size gap merge_gap previous
          (split_trailing_punctuation previous).0
          (split_trailing_punctuation previous).1
          (lstrip current))
unfolding remove_overlap
remove_overlap-IsRepair zero gap merge_gap previous current h k = inl refl
remove_overlap-IsRepair (suc size) gap merge_gap previous current h k =
    let core = (split_trailing_punctuation previous).0 in
    let punctuation = (split_trailing_punctuation previous).1 in
    let piece = take (suc size) (lstrip current) in
    let kept = take (length core - suc size) core in
    let shorter =
      remove_overlap-IsRepair size gap merge_gap previous current (omega arith) (omega arith) in
    elim (Bool-cases (suc size == 1 && ltb_ℤ (min_ℤ (pos 600) merge_gap) gap)) [
      | inl e ↦ rw e shorter
      | inr e ↦ elim (Bool-cases (ends_with core piece)) [
        | inr f ↦ rw (e, f) shorter
        | inl f ↦ elim (Bool-cases (is_empty (rstrip kept))) [
          | inl g ↦ rw (e, f, g) (inl refl)
          | inr g ↦
              rw (e, f, g)
                (inr (
                  suc size,
                  kept,
                  omega arith,
                  h,
                  k,
                  ap (λ n. take (length core - n) core ++ piece)
                        (sym (length-take_within (suc size) (lstrip current) k))
                      ∙ ends_with_split core piece f,
                  g,
                  refl,
                ))
        ]
      ]
    ]

within : (a b : ℕ) → (min 12 (min a b) ≤ 12) × (min 12 (min a b) ≤ b)
within a b = (omega arith, omega arith)

-- The repair of the boundary between two segments returns the new text stripped, and the old text either
-- as it was or, where the new text is not blank and the gap between the segments is neither negative nor
-- more than the merge gap, less a piece at its end, before its punctuation, that the new text begins with:
-- between 1 and 12 characters and the white space before them, with something left before those.
pub repair_previous_boundary_overlap-IsRepair :
    (previous : Text) (previous_end : ℤ) (current : Text) (current_start merge_gap : ℤ)
    → let r =
        repair_previous_boundary_overlap previous previous_end current current_start merge_gap in
      let gap = current_start -ℤ previous_end in
      (r.1 ≡ strip current)
      × ((r.0 ≡ previous)
          ⊎ ((is_empty (strip current) ≡ false)
              × ((ltb_ℤ gap (pos 0) || ltb_ℤ merge_gap gap) ≡ false)
              × IsRepair previous (strip current) r.0))
unfolding repair_previous_boundary_overlap remove_repeated_previous_suffix
repair_previous_boundary_overlap-IsRepair previous previous_end current current_start merge_gap =
    let gap = current_start -ℤ previous_end in
    let core = (split_trailing_punctuation previous).0 in
    let sizes = within (length core) (length (lstrip (strip current))) in
    elim (Bool-cases (is_empty (strip current))) [
      | inl e ↦ rw e (refl, inl refl)
      | inr e ↦ elim (Bool-cases (ltb_ℤ gap (pos 0) || ltb_ℤ merge_gap gap)) [
        | inl f ↦ rw (e, f) (refl, inl refl)
        | inr f ↦
            rw (e, f)
              (
                refl,
                inr (
                  refl,
                  refl,
                  remove_overlap-IsRepair
                      (min 12 (min (length core) (length (lstrip (strip current))))) gap merge_gap
                      previous (strip current) sizes.0 sizes.1,
                ),
              )
      ]
    ]
