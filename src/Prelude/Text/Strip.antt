-- ===== src/Prelude/Text/Strip.antt =====
-- Laws of `strip`, `lstrip` and `rstrip`.
use funasr_api.Prelude.{◌≡◌, refl, ap, ◌∙◌, false, ◌&&◌, inl, inr, [], ◌∷◌, Bool-cases}
use funasr_api.Prelude.Text.{Text, is_space, is_empty, lstrip, rstrip, strip}

-- The text does not begin with white space.
abbrev pub StartsSolid : Text → Type 0
StartsSolid [] = Unit
StartsSolid (c ∷ s) = is_space c ≡ false

lstrip-StartsSolid : (s : Text) → StartsSolid (lstrip s)
unfolding lstrip
lstrip-StartsSolid [] = tt
lstrip-StartsSolid (c ∷ s) = elim (Bool-cases (is_space c)) [
  | inl e ↦ rw e (lstrip-StartsSolid s)
  | inr e ↦ rw e e
]

pub lstrip_solid : (s : Text) → StartsSolid s → lstrip s ≡ s
unfolding lstrip
lstrip_solid [] h = refl
lstrip_solid (c ∷ s) h = rw h

rstrip-StartsSolid : (s : Text) → StartsSolid s → StartsSolid (rstrip s)
unfolding rstrip
rstrip-StartsSolid [] h = tt
rstrip-StartsSolid (c ∷ s) h = elim (Bool-cases (is_empty (rstrip s))) [
  | inl e ↦ rw (e, h) h
  | inr e ↦ rw e h
]

pub rstrip-rstrip : (s : Text) → rstrip (rstrip s) ≡ rstrip s
unfolding rstrip
rstrip-rstrip [] = refl
rstrip-rstrip (c ∷ s) = elim (Bool-cases (is_empty (rstrip s) && is_space c)) [
  | inl e ↦ rw e
  | inr e ↦ rw e (rw (rstrip-rstrip s) (rw e))
]

pub strip-strip : (s : Text) → strip (strip s) ≡ strip s
unfolding strip
strip-strip s =
    let t = rstrip (lstrip s) in
    ap rstrip (lstrip_solid t (rstrip-StartsSolid (lstrip s) (lstrip-StartsSolid s)))
    ∙ rstrip-rstrip (lstrip s)
