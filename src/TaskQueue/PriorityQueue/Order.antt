-- ===== src/TaskQueue/PriorityQueue/Order.antt =====
-- A queue with fresh order numbers stays strictly sorted.
use funasr_api.Prelude.{
  ℕ, ◌<◌, ◌≡◌, true, false, inl, inr, List, [], ◌∷◌, arith, All, All-map, Bool-cases,
}
use funasr_api.TaskQueue.PriorityQueue.{Entry, before, put}

abbrev pub Precedes : Entry → List Entry → Type 0
Precedes e = All (λ x. before e x ≡ true)

abbrev pub IsSorted : List Entry → Type 0
IsSorted [] = Unit
IsSorted (x ∷ q) = Precedes x q × IsSorted q

-- Every order number of the queue is below `n`.
abbrev pub IsBelow : ℕ → List Entry → Type 0
IsBelow n = All (λ x. x.order < n)

before_trans : (a b c : Entry) → before a b ≡ true → before b c ≡ true → before a c ≡ true
before_trans a b c h k = ground arith

-- Of two entries the older one precedes unless the newer one does.
before_total : (e x : Entry) → before e x ≡ false → x.order < e.order → before x e ≡ true
before_total e x h k = ground arith

pub All-put : (P : Entry → Type 0) (e : Entry) (q : List Entry) → P e → All P q → All P (put e q)
unfolding put
All-put P e [] p h = (p, tt)
All-put P e (x ∷ q) p h = elim (Bool-cases (before e x)) [
  | inl first ↦ rw first (p, h)
  | inr later ↦ rw later (h.0, All-put P e q p h.1)
]

-- `put_nowait` of an entry newer than all others keeps the queue sorted.
pub put-IsSorted :
    (e : Entry) (q : List Entry) → IsBelow e.order q → IsSorted q → IsSorted (put e q)
unfolding put
put-IsSorted e [] b h = (tt, tt)
put-IsSorted e (x ∷ q) b h = elim (Bool-cases (before e x)) [
  | inl first ↦ rw first ((first, All-map _ _ q (λ y. before_trans e x y first) h.0), h)
  | inr later ↦ rw later (
    All-put (λ y. before x y ≡ true) e q (before_total e x later b.0) h.0,
    put-IsSorted e q b.1 h.1,
  )
]
