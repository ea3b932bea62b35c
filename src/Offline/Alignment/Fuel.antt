-- ===== src/Offline/Alignment/Fuel.antt =====
-- The loop of `align_text_to_timestamps` (src/engine_runtime/engines/offline/timestamp_utils.py) ends.
use funasr_api.Prelude.{ℕ, zero, suc, ◌≤◌, ◌≡◌, refl, [], ◌∷◌, arith, length}
use funasr_api.Prelude.Text.{Text}
use funasr_api.Offline.Alignment.Tokens.{after_unit-le}
use funasr_api.Offline.Alignment.{Alignment, read_unit, after_unit, align}

-- Any two numbers of passes that are the length of the text at least lead to the same state: the
-- loop over the text ends within as many passes as the text has characters.
pub align_ends :
    (m n : ℕ) (text : Text) (a : Alignment)
    → length text ≤ m
    → length text ≤ n
    → align m text a ≡ align n text a
unfolding align
align_ends zero zero text a h k = refl
align_ends zero (suc n) [] a h k = refl
align_ends zero (suc n) (c ∷ text) a h k = absurd (omega arith)
align_ends (suc m) zero [] a h k = refl
align_ends (suc m) zero (c ∷ text) a h k = absurd (omega arith)
align_ends (suc m) (suc n) [] a h k = refl
align_ends (suc m) (suc n) (c ∷ text) a h k =
    let shorter = after_unit-le c text in
    align_ends m n (after_unit c text) (read_unit c text a) (omega (arith, shorter))
      (omega (arith, shorter))
