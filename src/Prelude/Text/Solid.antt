-- ===== src/Prelude/Text/Solid.antt =====
-- The characters of a text that are no white space.
use funasr_api.Prelude.{
  ◌≡◌, refl, ap, sym, ◌∙◌, true, inl, inr, [], ◌∷◌, ◌++◌, Bool-cases, if◌then◌else◌,
}
use funasr_api.Prelude.Text.{Text, is_space, is_empty, lstrip, rstrip, strip}

abbrev pub solid : Text → Text
solid [] = []
solid (c ∷ s) = if is_space c then solid s else c ∷ solid s

pub solid-append : (s t : Text) → solid (s ++ t) ≡ solid s ++ solid t
solid-append [] t = refl
solid-append (c ∷ s) t = elim (Bool-cases (is_space c)) [
  | inl e ↦ rw e (solid-append s t)
  | inr e ↦ rw e (ap (◌∷◌ c) (solid-append s t))
]

pub solid-lstrip : (s : Text) → solid (lstrip s) ≡ solid s
unfolding lstrip
solid-lstrip [] = refl
solid-lstrip (c ∷ s) = elim (Bool-cases (is_space c)) [
  | inl e ↦ rw e (solid-lstrip s)
  | inr e ↦ rw e (rw e)
]

pub is_empty_nil : (s : Text) → is_empty s ≡ true → s ≡ []
unfolding is_empty
is_empty_nil [] h = refl
is_empty_nil (c ∷ s) h = cc

pub solid-rstrip : (s : Text) → solid (rstrip s) ≡ solid s
unfolding rstrip is_empty
solid-rstrip [] = refl
solid-rstrip (c ∷ s) = elim (Bool-cases (is_space c)) [
  | inl e ↦ elim (Bool-cases (is_empty (rstrip s))) [
    | inl f ↦ rw (e, f) (sym (ap solid (is_empty_nil (rstrip s) f)) ∙ solid-rstrip s)
    | inr f ↦ rw (e, f) (rw e (solid-rstrip s))
  ]
  | inr e ↦ elim (Bool-cases (is_empty (rstrip s))) [
    | inl f ↦ rw (e, f) (rw e (ap (◌∷◌ c) (solid-rstrip s)))
    | inr f ↦ rw (e, f) (rw e (ap (◌∷◌ c) (solid-rstrip s)))
  ]
]

pub solid_blank : (s : Text) → is_empty (strip s) ≡ true → solid s ≡ []
unfolding strip
solid_blank s h =
    sym (solid-lstrip s)
    ∙ sym (solid-rstrip (lstrip s))
    ∙ ap solid (is_empty_nil (rstrip (lstrip s)) h)
