-- ===== src/Tasks/Store/Pending.antt =====
-- `get_pending_tasks` against the rows of the table.
use mathlib.Core.List.{Perm}
use mathlib.Core.List.Perm
use funasr_api.Prelude.{
  ℕ, ◌≡◌, ◌≤◌, ap, sym, ◌∙◌, ◌⊎◌, true, false, inl, inr, List, [], ◌∷◌, ◌++◌, arith, if◌then◌else◌,
  All, All-map, Bool-cases, drop, length, take-append-drop, length-take, min,
}
use funasr_api.Prelude.Equality.{string_eq}
use funasr_api.Tasks.Store.{
  OfflineTask, is_status, ordered_before, insert_ordered, pending_ordered, get_pending_tasks,
}

module _ {J : Type 0} where
  -- The rows that wait, in the order of the table.
  unfoldable pub only_pending : List (OfflineTask J) → List (OfflineTask J)
  only_pending [] = []
  only_pending (t ∷ ts) =
      let rest = only_pending ts in if is_status "pending" t then t ∷ rest else rest

  abbrev IsSequence : List (OfflineTask J) → Type 0
  IsSequence [] = Unit
  IsSequence (t ∷ ts) = All (λ u. ordered_before u t ≡ false) ts × IsSequence ts

  -- `t` may stand before `u`: a VIP row before another one, or of its kind and no newer.
  abbrev pub MayPrecede : OfflineTask J → OfflineTask J → Type 0
  MayPrecede t u =
      ((t.vip ≡ true) × (u.vip ≡ false)) ⊎ ((t.vip ≡ u.vip) × (t.created_at ≤ u.created_at))

  abbrev pub IsInOrder : List (OfflineTask J) → Type 0
  IsInOrder [] = Unit
  IsInOrder (t ∷ ts) = All (MayPrecede t) ts × IsInOrder ts

  may_precede : (t u : OfflineTask J) → ordered_before u t ≡ false → MayPrecede t u
  may_precede t u h = elim (Bool-cases t.vip) [
    | inl a ↦ elim (Bool-cases u.vip) [ inl b ↦ inr (a ∙ sym b, ground arith) | inr b ↦ inl (a, b) ]
    | inr a ↦ elim (Bool-cases u.vip) [
      | inl b ↦ absurd (ground arith)
      | inr b ↦ inr (a ∙ sym b, ground arith)
    ]
  ]

  IsSequence-IsInOrder : (ts : List (OfflineTask J)) → IsSequence ts → IsInOrder ts
  IsSequence-IsInOrder [] h = tt
  IsSequence-IsInOrder (t ∷ ts) h =
      (All-map _ _ ts (λ u. may_precede t u) h.0, IsSequence-IsInOrder ts h.1)

  ordered_before_trans :
      (a b c : OfflineTask J)
      → ordered_before b a ≡ false
      → ordered_before c b ≡ false
      → ordered_before c a ≡ false
  ordered_before_trans a b c h k = ground arith

  ordered_before_asym :
      (a b : OfflineTask J) → ordered_before a b ≡ true → ordered_before b a ≡ false
  ordered_before_asym a b h = ground arith

  All-insert_ordered :
      (P : OfflineTask J → Type 0) (t : OfflineTask J) (us : List (OfflineTask J))
      → P t
      → All P us
      → All P (insert_ordered t us)
  unfolding insert_ordered
  All-insert_ordered P t [] p h = (p, tt)
  All-insert_ordered P t (u ∷ us) p h = elim (Bool-cases (ordered_before u t)) [
    | inl e ↦ rw e (h.0, All-insert_ordered P t us p h.1)
    | inr e ↦ rw e (p, h)
  ]

  insert_ordered-IsSequence :
      (t : OfflineTask J) (us : List (OfflineTask J))
      → IsSequence us
      → IsSequence (insert_ordered t us)
  unfolding insert_ordered
  insert_ordered-IsSequence t [] h = (tt, tt)
  insert_ordered-IsSequence t (u ∷ us) h = elim (Bool-cases (ordered_before u t)) [
    | inl e ↦ rw e (
      All-insert_ordered (λ v. ordered_before v u ≡ false) t us (ordered_before_asym u t e) h.0,
      insert_ordered-IsSequence t us h.1,
    )
    | inr e ↦ rw e ((e, All-map _ _ us (λ v. ordered_before_trans t u v e) h.0), h)
  ]

  insert_ordered-perm :
      (t : OfflineTask J) (us : List (OfflineTask J)) → Perm (insert_ordered t us) (t ∷ us)
  unfolding insert_ordered
  insert_ordered-perm t [] = Perm.refl _
  insert_ordered-perm t (u ∷ us) = elim (Bool-cases (ordered_before u t)) [
    | inl e ↦ rw e (Perm.trans (Perm.cons u (insert_ordered-perm t us)) (Perm.swap t u us))
    | inr e ↦ rw e (Perm.refl _)
  ]

  pending_ordered-IsSequence : (rows : List (OfflineTask J)) → IsSequence (pending_ordered rows)
  unfolding pending_ordered
  pending_ordered-IsSequence [] = tt
  pending_ordered-IsSequence (t ∷ ts) = elim (Bool-cases (is_status "pending" t)) [
    | inl e ↦
        rw e (insert_ordered-IsSequence t (pending_ordered ts) (pending_ordered-IsSequence ts))
    | inr e ↦ rw e (pending_ordered-IsSequence ts)
  ]

  pending_ordered-perm :
      (rows : List (OfflineTask J)) → Perm (pending_ordered rows) (only_pending rows)
  unfolding pending_ordered only_pending
  pending_ordered-perm [] = Perm.refl _
  pending_ordered-perm (t ∷ ts) = elim (Bool-cases (is_status "pending" t)) [
    | inl e ↦ rw e (
        Perm.trans (insert_ordered-perm t (pending_ordered ts))
          (Perm.cons t (pending_ordered-perm ts)))
    | inr e ↦ rw e (pending_ordered-perm ts)
  ]

  length-insert_ordered :
      (t : OfflineTask J) (us : List (OfflineTask J))
      → length (insert_ordered t us) ≡ length (t ∷ us)
  unfolding insert_ordered
  length-insert_ordered t [] = omega arith
  length-insert_ordered t (u ∷ us) = ground (arith, length-insert_ordered t us)

  length-pending_ordered :
      (rows : List (OfflineTask J)) → length (pending_ordered rows) ≡ length (only_pending rows)
  unfolding pending_ordered only_pending
  length-pending_ordered [] = omega arith
  length-pending_ordered (t ∷ ts) =
      ground (arith, length-pending_ordered ts, length-insert_ordered t (pending_ordered ts))

  -- What `get_pending_tasks` returns and what the limit cuts off are together all pending rows;
  -- in that sequence VIP rows stand before the others, and of rows alike the older before the
  -- newer. It returns as many rows as the limit allows.
  pub get_pending_tasks_lem :
      (limit : ℕ) (rows : List (OfflineTask J))
      → let got = get_pending_tasks limit rows in
        (left : List (OfflineTask J)) × Perm (got ++ left) (only_pending rows)
        × IsInOrder (got ++ left)
        × (length got ≡ min limit (length (only_pending rows)))
  unfolding get_pending_tasks
  get_pending_tasks_lem limit rows =
      let cut = take-append-drop limit (pending_ordered rows) in
      (
        drop limit (pending_ordered rows),
        rw cut (pending_ordered-perm rows),
        rw cut (IsSequence-IsInOrder _ (pending_ordered-IsSequence rows)),
        length-take limit (pending_ordered rows) ∙ ap (min limit) (length-pending_ordered rows),
      )
