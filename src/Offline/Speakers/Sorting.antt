-- ===== src/Offline/Speakers/Sorting.antt =====
-- The order that units are put in before they are grouped by speakers (speaker_utils.py).
use mathlib.Core.List.{Perm}
use mathlib.Core.List.Perm
use funasr_api.Prelude.{
  ◌≡◌, ◌⊎◌, true, false, inl, inr, List, [], ◌∷◌, arith, Bool-cases, All, All-map,
}
use funasr_api.Prelude.Int.{◌≤ℤ◌, ltb_ℤ}
use funasr_api.Offline.Speakers.{TimedUnit, times_le, insert_unit, sort_units}

-- `u` starts before `v`, or starts no later and ends no later.
abbrev pub IsNoLater : TimedUnit → TimedUnit → Type 0
IsNoLater u v = (ltb_ℤ u.start v.start ≡ true) ⊎ ((u.start ≤ℤ v.start) × (u.end ≤ℤ v.end))

-- Every unit is no later than any behind it.
abbrev pub IsInOrder : List TimedUnit → Type 0
IsInOrder [] = Unit
IsInOrder (u ∷ us) = All (IsNoLater u) us × IsInOrder us

no_later : (u v : TimedUnit) → times_le u.start u.end v.start v.end ≡ true → IsNoLater u v
no_later u v h = ground arith

later : (u v : TimedUnit) → times_le u.start u.end v.start v.end ≡ false → IsNoLater v u
later u v h = ground arith

no_later_trans : (u v w : TimedUnit) → IsNoLater u v → IsNoLater v w → IsNoLater u w
no_later_trans u v w (inl h) (inl k) = inl (ground arith)
no_later_trans u v w (inl h) (inr k) = inl (ground arith)
no_later_trans u v w (inr h) (inl k) = inl (ground arith)
no_later_trans u v w (inr h) (inr k) = inr (omega (arith, h.0, k.0), omega (arith, h.1, k.1))

insert_unit-All :
    (P : TimedUnit → Type 0) (u : TimedUnit) (us : List TimedUnit)
    → P u
    → All P us
    → All P (insert_unit u us)
unfolding insert_unit
insert_unit-All P u [] p h = (p, tt)
insert_unit-All P u (v ∷ vs) p h = elim (Bool-cases (times_le u.start u.end v.start v.end)) [
  | inl e ↦ rw e (p, h)
  | inr e ↦ rw e (h.0, insert_unit-All P u vs p h.1)
]

insert_unit-IsInOrder :
    (u : TimedUnit) (us : List TimedUnit) → IsInOrder us → IsInOrder (insert_unit u us)
unfolding insert_unit
insert_unit-IsInOrder u [] h = (tt, tt)
insert_unit-IsInOrder u (v ∷ vs) h = elim (Bool-cases (times_le u.start u.end v.start v.end)) [
  | inl e ↦
      let first = no_later u v e in
      rw e ((first, All-map _ _ vs (λ w. no_later_trans u v w first) h.0), h)
  | inr e ↦
      rw e (insert_unit-All (IsNoLater v) u vs (later u v e) h.0, insert_unit-IsInOrder u vs h.1)
]

insert_unit-perm : (u : TimedUnit) (us : List TimedUnit) → Perm (insert_unit u us) (u ∷ us)
unfolding insert_unit
insert_unit-perm u [] = Perm.refl _
insert_unit-perm u (v ∷ vs) = elim (Bool-cases (times_le u.start u.end v.start v.end)) [
  | inl e ↦ rw e (Perm.refl _)
  | inr e ↦ rw e (Perm.trans (Perm.cons v (insert_unit-perm u vs)) (Perm.swap u v vs))
]

pub sort_units-IsInOrder : (us : List TimedUnit) → IsInOrder (sort_units us)
unfolding sort_units
sort_units-IsInOrder [] = tt
sort_units-IsInOrder (u ∷ us) = insert_unit-IsInOrder u (sort_units us) (sort_units-IsInOrder us)

pub sort_units-perm : (us : List TimedUnit) → Perm (sort_units us) us
unfolding sort_units
sort_units-perm [] = Perm.refl _
sort_units-perm (u ∷ us) =
    Perm.trans (insert_unit-perm u (sort_units us)) (Perm.cons u (sort_units-perm us))
