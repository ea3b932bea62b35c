-- ===== src/Prelude/Equality.antt =====
-- Python's `==` as an interface, and a Python `set` of hashable values over it.
use text.Mathlib.Text.{◌==◌ as str_eq}
use text.Mathlib.TextEquality.{eq_iff}
use funasr_api.Prelude.{
  ℕ, String, ◌+◌, ◌≤◌, ◌≡◌, refl, ◌↔◌, Bool, true, false, ◌||◌, List, [], ◌∷◌, arith,
  ◌==◌ as nat_beq, ==_iff, if◌then◌else◌,
}

-- An equality test that decides `≡`.
pub record Eq {ℓ} (A : Type ℓ) : Type ℓ where
  pub beq : A → A → Bool
  pub beq_iff : (x y : A) → (beq x y ≡ true) ↔ (x ≡ y)

instance abbrev pub string_eq : Eq String
string_eq = record { beq_iff = eq_iff; beq = str_eq }

-- 1 if the test holds, 0 if not.
abbrev pub bit : Bool → ℕ
bit true = 1
bit false = 0

infix 50 ◌==◌
abbrev pub ◌==◌ {ℓ} : {A : Type ℓ} ⦃e : Eq A⦄ → A → A → Bool
◌==◌ ⦃e⦄ = e.beq

instance abbrev pub nat_eq : Eq ℕ
nat_eq = record { beq_iff = ==_iff; beq = nat_beq }

module _ {ℓ} {A : Type ℓ} ⦃e : Eq A⦄ where
  pub beq_refl : (a : A) → (a == a) ≡ true
  beq_refl a = (e.beq_iff a a).1 refl

  -- `a in s`
  unfoldable pub contains : A → List A → Bool
  contains a [] = false
  contains a (x ∷ s) = x == a || contains a s

  -- `s.add(a)`
  unfoldable pub add : A → List A → List A
  unfolding contains
  add a s = if contains a s then s else a ∷ s

  -- `s.discard(a)`
  unfoldable pub discard : A → List A → List A
  discard a [] = []
  discard a (x ∷ s) = let rest = discard a s in if x == a then rest else x ∷ rest

  pub contains-add : (a b : A) (s : List A) → contains b (add a s) ≡ (a == b || contains b s)
  unfolding contains add
  contains-add a b s = ground (arith, e.beq_iff a b)

  pub contains-discard :
      (a b : A) (s : List A) → contains b (discard a s) ≡ (if a == b then false else contains b s)
  unfolding contains discard
  contains-discard a b [] = ground arith
  contains-discard a b (x ∷ s) =
      ground (arith, contains-discard a b s, e.beq_iff a b, e.beq_iff x b, e.beq_iff x a)

  -- How often `a` stands in a list.
  unfoldable pub count : A → List A → ℕ
  count a [] = 0
  count a (x ∷ s) = bit (x == a) + count a s

  -- One occurrence of `a` taken out.
  unfoldable pub remove_one : A → List A → List A
  remove_one a [] = []
  remove_one a (x ∷ s) = if x == a then s else x ∷ remove_one a s

  pub count-remove_one :
      (a b : A) (s : List A)
      → contains a s ≡ true
      → count b (remove_one a s) + bit (a == b) ≡ count b s
  unfolding contains count remove_one
  count-remove_one a b [] h = cc
  count-remove_one a b (x ∷ s) h =
      ground (arith, count-remove_one a b s, e.beq_iff x a, e.beq_iff x b, e.beq_iff a b)

  -- One that is contained is counted.
  pub count_pos : (a : A) (s : List A) → contains a s ≡ true → 1 ≤ count a s
  unfolding contains count
  count_pos a [] h = cc
  count_pos a (x ∷ s) h = ground (arith, count_pos a s)

  -- What equals one of two different values does not equal the other.
  pub beq_exclusive : (s a b : A) → (a == b) ≡ false → (s == a) ≡ true → (s == b) ≡ false
  beq_exclusive s a b d h = ground (arith, e.beq_iff s a, e.beq_iff s b, e.beq_iff a b)
