-- ===== src/Core/Hotwords/Priority.antt =====
-- The order of preference of `resolve_hotwords_with_priority`.
use funasr_api.Prelude.{
  ℕ, ◌≡◌, refl, ◌⊎◌, inl, inr, Bool, Option, none, some, List, [], ◌∷◌, length, if◌then◌else◌,
  subst,
}
use funasr_api.Prelude.Text.{Text}
use funasr_api.Core.Hotwords.{
  Json, Hotword, pairs, format_hotwords_for_model, Resolved, has_items, parse_hotwords,
  get_hotwords_by_id, lookup_all, resolve_default, resolve_by_id, resolve_hotwords_with_priority,
}

some_injective : {a b : Resolved} → some a ≡ some b → a ≡ b
some_injective h = cc

-- The first list that is not empty.
abbrev pub first_found : List (List Hotword) → List Hotword
first_found [] = []
first_found ([] ∷ lists) = first_found lists
first_found ((h ∷ hs) ∷ lists) = h ∷ hs

abbrev pub or_empty : Option (List Hotword) → List Hotword
or_empty none = []
or_empty (some hs) = hs

module _ (json_loads : Text → Option Json) (lookup : ℕ → Option (List Hotword)) where
  abbrev pub by_custom : Option Text → List Hotword
  by_custom none = []
  by_custom (some custom) = or_empty (parse_hotwords json_loads lookup custom)

  abbrev pub by_id : Option ℕ → List Hotword
  by_id none = []
  by_id (some id) = get_hotwords_by_id json_loads lookup id

  -- The hotwords `hs` for the model, with their number.
  abbrev pub IsResolved : Bool → List Hotword → Resolved → Type 0
  IsResolved weighted hs r =
      (r.count ≡ length hs) × ((r.value ≡ format_hotwords_for_model hs weighted) ⊎ (hs ≡ []))

  default-IsResolved :
      (weighted : Bool) (ids : List ℕ)
      → IsResolved weighted
          (first_found (lookup_all json_loads lookup ids ∷ []))
          (resolve_default json_loads lookup weighted ids)
  unfolding resolve_default
  default-IsResolved weighted ids = go (lookup_all json_loads lookup ids)
    where
      go :
          (found : List Hotword)
          → IsResolved weighted (first_found (found ∷ [])) (
              if has_items found
              then record { value = format_hotwords_for_model found weighted; count = length found }
              else record { value = pairs []; count = 0 })
      go [] = (refl, inr refl)
      go (h ∷ hs) = (refl, inl refl)

  by_id-IsResolved :
      (weighted : Bool) (id : Option ℕ) (ids : List ℕ)
      → IsResolved weighted
          (first_found (by_id id ∷ lookup_all json_loads lookup ids ∷ []))
          (resolve_by_id json_loads lookup weighted id ids)
  unfolding resolve_by_id
  by_id-IsResolved weighted none ids = default-IsResolved weighted ids
  by_id-IsResolved weighted (some id) ids = go (get_hotwords_by_id json_loads lookup id)
    where
      go :
          (found : List Hotword)
          → IsResolved weighted (first_found (found ∷ lookup_all json_loads lookup ids ∷ [])) (
              if has_items found
              then record { value = format_hotwords_for_model found weighted; count = length found }
              else resolve_default json_loads lookup weighted ids)
      go [] = default-IsResolved weighted ids
      go (h ∷ hs) = (refl, inl refl)

  -- When `resolve_hotwords_with_priority` does not raise, it gives the hotwords, formatted for
  -- the model and counted, of the first that has any: the custom text, the id, and the default
  -- ids together; where none of these has any, it counts none.
  pub resolve_hotwords_with_priority-IsResolved :
      (weighted : Bool) (custom : Option Text) (id : Option ℕ) (ids : List ℕ) (r : Resolved)
      → resolve_hotwords_with_priority json_loads lookup weighted custom id ids ≡ some r
      → IsResolved weighted
          (first_found (by_custom custom ∷ by_id id ∷ lookup_all json_loads lookup ids ∷ []))
          r
  unfolding resolve_hotwords_with_priority
  resolve_hotwords_with_priority-IsResolved weighted none id ids r h =
      subst (IsResolved weighted (first_found (by_id id ∷ lookup_all json_loads lookup ids ∷ [])))
        (some_injective h) (by_id-IsResolved weighted id ids)
  resolve_hotwords_with_priority-IsResolved weighted (some custom) id ids r h =
      go (parse_hotwords json_loads lookup custom) h
    where
      go :
          (o : Option (List Hotword))
          → elim o [
            | none ↦ none
            | some found ↦
                if has_items found
                then some (record {
                  value = format_hotwords_for_model found weighted;
                  count = length found;
                })
                else some (resolve_by_id json_loads lookup weighted id ids)
          ]
            ≡ some r
          → IsResolved weighted
              (first_found (or_empty o ∷ by_id id ∷ lookup_all json_loads lookup ids ∷ []))
              r
      go none e = absurd (let f : ◌≡◌ {A = Option Resolved} none (some r) = e in cc)
      go (some []) e =
          subst
            (IsResolved weighted (first_found (by_id id ∷ lookup_all json_loads lookup ids ∷ [])))
            (some_injective e) (by_id-IsResolved weighted id ids)
      go (some (h ∷ hs)) e =
          subst (IsResolved weighted (h ∷ hs)) (some_injective e) (refl, inl refl)
