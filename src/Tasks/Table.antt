-- ===== src/Tasks/Table.antt =====
-- A table of rows with a primary key, as the DAOs of src/database/daos use it: the row of an id,
-- and the row of an id changed in place.
use funasr_api.Prelude.{
  ◌≡◌, refl, sym, subst, String, true, inl, inr, Option, none, some, List, [], ◌∷◌, Bool-cases,
  if◌then◌else◌,
}
use funasr_api.Prelude.Equality.{◌==◌, string_eq}

module _ {R : Type 0} (id_of : R → String) where
  -- `session.query(…).filter(….id == task_id).first()`
  unfoldable pub find_row : String → List R → Option R
  find_row id [] = none
  find_row id (t ∷ ts) = if id_of t == id then some t else find_row id ts

  -- The found row after a change, and all rows with it.
  unfoldable pub change_row : String → (R → R) → List R → Option R × List R
  change_row id f [] = (none, [])
  change_row id f (t ∷ ts) =
      let (found, us) = change_row id f ts in
      if id_of t == id then (some (f t), f t ∷ ts) else (found, t ∷ us)

  same_id :
      (id : String) (rows : List R) (t : R) → find_row id rows ≡ some t → (id_of t == id) ≡ true
  unfolding find_row
  same_id id [] t e = cc
  same_id id (u ∷ us) t e = elim (Bool-cases (id_of u == id)) [
    | inl h ↦ let same : u ≡ t = cc (rw h at e) in subst (λ x. (id_of x == id) ≡ true) same h
    | inr h ↦ same_id id us t (rw h at e)
  ]

  changed_row :
      (id : String) (f : R → R) (rows : List R) (t : R)
      → find_row id rows ≡ some t
      → (id_of (f t) == id) ≡ true
      → ((change_row id f rows).0 ≡ some (f t))
        × (find_row id (change_row id f rows).1 ≡ some (f t))
  unfolding find_row change_row
  changed_row id f [] t e same = cc
  changed_row id f (u ∷ us) t e same = elim (Bool-cases (id_of u == id)) [
    | inl h ↦
        let here : u ≡ t = cc (rw h at e) in
        rw h (
          subst (λ x. (some (f x) ≡ some (f t)) × (find_row id (f x ∷ us) ≡ some (f t))) (sym here)
            (refl, rw (same, find_row) refl))
    | inr h ↦
        let (found, there) = changed_row id f us t (rw h at e) same in
        rw h (found, rw (h, find_row) there)
  ]

  -- A change that keeps the id finds the row, and the row is then the changed one.
  pub find_row-change_row :
      (id : String) (f : R → R) (rows : List R) (t : R)
      → find_row id rows ≡ some t
      → ((u : R) → id_of (f u) ≡ id_of u)
      → ((change_row id f rows).0 ≡ some (f t))
        × (find_row id (change_row id f rows).1 ≡ some (f t))
  find_row-change_row id f rows t e keeps =
      changed_row id f rows t e (rw (keeps t) (same_id id rows t e))
