-- ===== src/Tasks/Processing/Rows.antt =====
-- The row of a task under the calls of the repository that its processing makes.
use funasr_api.Prelude.{
  ◌≡◌, refl, subst, sym, String, true, some, List, [], ◌∷◌, Bool-cases, inl, inr,
}
use funasr_api.Prelude.Equality.{◌==◌, string_eq}
use funasr_api.Tasks.Store.{OfflineTask, get_by_id, change}

module _ {J : Type 0} where
  -- The row of the id is there, and is as required.
  abbrev pub Has : String → (OfflineTask J → Type 0) → List (OfflineTask J) → Type 0
  Has id P rows = (t : OfflineTask J) × (get_by_id id rows ≡ some t) × P t

  get_by_id_same :
      (id : String) (rows : List (OfflineTask J)) (t : OfflineTask J)
      → get_by_id id rows ≡ some t
      → (t.id == id) ≡ true
  unfolding get_by_id
  get_by_id_same id [] t e = cc
  get_by_id_same id (u ∷ us) t e = elim (Bool-cases (u.id == id)) [
    | inl h ↦
        let same : u ≡ t = cc (rw h at e) in
        subst (λ (x : OfflineTask J). (x.id == id) ≡ true) same h
    | inr h ↦ get_by_id_same id us t (rw h at e)
  ]

  changed :
      (id : String) (f : OfflineTask J → OfflineTask J) (rows : List (OfflineTask J))
      (t : OfflineTask J)
      → get_by_id id rows ≡ some t
      → ((f t).id == id) ≡ true
      → ((change id f rows).0 ≡ some (f t)) × (get_by_id id (change id f rows).1 ≡ some (f t))
  unfolding get_by_id change
  changed id f [] t e same = cc
  changed id f (u ∷ us) t e same = elim (Bool-cases (u.id == id)) [
    | inl h ↦
        let here : u ≡ t = cc (rw h at e) in
        rw h (
          subst
            (λ (x : OfflineTask J).
              (some (f x) ≡ some (f t)) × (get_by_id id (f x ∷ us) ≡ some (f t)))
            (sym here) (refl, rw (same, get_by_id) refl))
    | inr h ↦
        let (found, there) = changed id f us t (rw h at e) same in
        rw h (found, rw (h, get_by_id) there)
  ]

  -- A change that keeps the id finds the row, and the row is then the changed one.
  pub change-Has :
      (id : String) (f : OfflineTask J → OfflineTask J) (rows : List (OfflineTask J))
      (t : OfflineTask J)
      → get_by_id id rows ≡ some t
      → ((u : OfflineTask J) → (f u).id ≡ u.id)
      → ((change id f rows).0 ≡ some (f t)) × (get_by_id id (change id f rows).1 ≡ some (f t))
  change-Has id f rows t e keeps = changed id f rows t e (rw (keeps t) (get_by_id_same id rows t e))
