-- ===== src/Bag/Chain.antt =====
-- The list of items as it lies in the heap.
use lotto.Base.{
  ℕ, zero, suc, ◌≤◌, ◌≡◌, ◌≢◌, true, some, List, [], ◌∷◌, ◌==◌, length, elem, ok, arith, Bool-cases,
  inl, inr, ◌∙◌,
}
use lotto.Map.{lookup}
use lotto.Bag.{Item, null, load, find_prev}

-- From `addr` the `next` pointers lead along `addrs` to NULL.
abbrev pub Chain : List (ℕ × Item) → ℕ → List ℕ → Type 0
Chain cells addr [] = addr ≡ null
Chain cells addr (a ∷ l) =
    (addr ≡ a) × (addr ≢ null) × ((i : Item) × (lookup addr cells ≡ some i) × Chain cells i.next l)

pub load-found :
    (cells : List (ℕ × Item)) (addr : ℕ) (i : Item)
    → lookup addr cells ≡ some i
    → load cells addr ≡ ok i
unfolding load
load-found cells addr i e = ground (arith, e)

prev_here :
    (fuel : ℕ) (cells : List (ℕ × Item)) (i addr : ℕ) (p : Item)
    → load cells addr ≡ ok p
    → p.next ≡ i
    → find_prev (suc fuel) cells i addr ≡ ok addr
unfolding find_prev
prev_here fuel cells i addr p e q = ground (arith, e)

prev_later :
    (fuel : ℕ) (cells : List (ℕ × Item)) (i addr : ℕ) (p : Item)
    → load cells addr ≡ ok p
    → p.next ≢ i
    → find_prev (suc fuel) cells i addr ≡ find_prev fuel cells i p.next
unfolding find_prev
prev_later fuel cells i addr p e q = ground (arith, e)

-- The item in front of a later one is found, with fuel for the length of the list.
pub find_prev-found :
    (fuel : ℕ) (cells : List (ℕ × Item)) (i addr : ℕ) (l : List ℕ)
    → Chain cells addr l
    → elem i l ≡ true
    → addr ≢ i
    → length l ≤ fuel
    → (prev : ℕ) × (find_prev fuel cells i addr ≡ ok prev)
find_prev-found fuel cells i addr [] c m n h = absurd (ground arith)
find_prev-found zero cells i addr (a ∷ l) c m n h = absurd (omega arith)
find_prev-found (suc fuel) cells i addr (a ∷ l) (same, some_, (p, e, c)) m n h =
    elim (Bool-cases (p.next == i)) [
      | inl here ↦ (addr, prev_here fuel cells i addr p (load-found cells addr p e) (ground arith))
      | inr later ↦
          let (prev, q) =
            find_prev-found fuel cells i p.next l c (ground arith) (ground arith) (omega arith) in
          (prev, prev_later fuel cells i addr p (load-found cells addr p e) (ground arith) ∙ q)
    ]
