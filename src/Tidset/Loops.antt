-- ===== src/Tidset/Loops.antt =====
-- The search loops of src/base/tidset.c: what each finds.
use lotto.Base.{
  ℕ, zero, suc, ◌+◌, ◌<◌, ◌≡◌, ◌≢◌, refl, ◌⊎◌, inl, inr, Bool, true, false, not, ◌&&◌, none, some,
  List, [], ◌∷◌, ◌==◌, length, get_or, set, elem, compacted, arith, elem-count, count-compacted,
  Bool-cases,
}
use lotto.Tidset.{index_from, displace}

-- The search finds the first slot of `id`, or shows that there is none.
pub index_from-cases :
    (i id : ℕ) (xs : List ℕ)
    → ((index_from i id xs ≡ none) × (elem id xs ≡ false))
      ⊎ ((k : ℕ) × (index_from i id xs ≡ some (i + k))
          × (k < length xs)
          × (get_or xs k 0 ≡ id)
          × (elem id xs ≡ true))
unfolding index_from
index_from-cases i id [] = inl (refl, refl)
index_from-cases i id (x ∷ xs) = elim (Bool-cases (x == id)) [
  | inl e ↦ inr (0, ground arith, omega arith, ground arith, ground arith)
  | inr e ↦ elim (index_from-cases (suc i) id xs) [
    | inl (a, b) ↦ inl (ground arith, ground arith)
    | inr (k, a, b, c, d) ↦ inr (suc k, ground arith, omega arith, c, ground arith)
  ]
]

-- The displacing loop of `set_at` writes at most one slot other than `idx`: that of `id`.
pub displace-cases :
    (i idx id old : ℕ) (xs : List ℕ)
    → ((displace i idx id old xs ≡ xs)
        × ((k : ℕ) → k < length xs → get_or xs k 0 ≡ id → i + k ≡ idx))
      ⊎ ((k : ℕ) × (displace i idx id old xs ≡ set xs k old)
          × (k < length xs)
          × (i + k ≢ idx)
          × (get_or xs k 0 ≡ id))
unfolding displace
displace-cases i idx id old [] = inl (refl, λ k h. elim h [ ])
displace-cases i idx id old (x ∷ xs) = elim (Bool-cases ((x == id) && not (i == idx))) [
  | inl e ↦ inr (0, ground arith, omega arith, ground arith, ground arith)
  | inr e ↦ elim (displace-cases (suc i) idx id old xs) [
    | inl (a, b) ↦ inl (ground arith, here e b)
    | inr (k, a, b, c, d) ↦ inr (suc k, ground arith, omega arith, ground arith, d)
  ]
]
  where
    here :
        ((x == id) && not (i == idx)) ≡ false
        → ((k : ℕ) → k < length xs → get_or xs k 0 ≡ id → suc i + k ≡ idx)
        → (k : ℕ) → k < suc (length xs)
        → get_or (x ∷ xs) k 0 ≡ id
        → i + k ≡ idx
    here e b zero h g = ground arith
    here e b (suc k) h g = omega (arith, b k (omega arith) g)

pub elem-compacted :
    (keep : ℕ → Bool) (xs : List ℕ) (x : ℕ) → elem x (compacted keep xs) ≡ (keep x && elem x xs)
elem-compacted keep xs x =
    ground (arith, elem-count x xs, elem-count x (compacted keep xs), count-compacted keep xs x)
