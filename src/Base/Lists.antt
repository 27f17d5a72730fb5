-- ===== src/Base/Lists.antt =====
-- Lists measured, indexed and counted by native numbers, under the library's names.
use Prim.Native.Nat.{ℕ, zero, suc, ◌+◌, ◌≤◌, ◌<◌}
use mathlib.Core.Path.{◌≡◌, refl, ap}
use mathlib.Core.Bool.{Bool, true, false, ◌||◌}
use mathlib.Core.List.{List, [], ◌∷◌, ◌++◌}
use mathlib.Core.Option.{Option, none, some}
use native.Mathlib.Omega.{arith}
use lotto.Base.Tests.{◌==◌, if◌then◌else◌, ltb}

module _ {ℓ} {A : Type ℓ} where
  abbrev pub length : List A → ℕ
  length [] = 0
  length (x ∷ xs) = suc (length xs)

  abbrev pub get_elem? : List A → ℕ → Option A
  get_elem? [] i = none
  get_elem? (x ∷ xs) zero = some x
  get_elem? (x ∷ xs) (suc i) = get_elem? xs i

  abbrev pub get_or : List A → ℕ → A → A
  get_or [] i d = d
  get_or (x ∷ xs) zero d = x
  get_or (x ∷ xs) (suc i) d = get_or xs i d

  -- A write out of bounds changes nothing.
  abbrev pub set : List A → ℕ → A → List A
  set [] i v = []
  set (x ∷ xs) zero v = v ∷ xs
  set (x ∷ xs) (suc i) v = x ∷ set xs i v

  abbrev pub take : ℕ → List A → List A
  take zero xs = []
  take (suc n) [] = []
  take (suc n) (x ∷ xs) = x ∷ take n xs

  abbrev pub drop : ℕ → List A → List A
  drop zero xs = xs
  drop (suc n) [] = []
  drop (suc n) (x ∷ xs) = drop n xs

  abbrev pub drop_last : List A → List A
  drop_last [] = []
  drop_last (x ∷ []) = []
  drop_last (x ∷ y ∷ xs) = x ∷ drop_last (y ∷ xs)

  pub length-append : (xs ys : List A) → length (xs ++ ys) ≡ length xs + length ys
  length-append [] ys = omega arith
  length-append (x ∷ xs) ys = omega (arith, length-append xs ys)

  pub length-set : (xs : List A) (i : ℕ) (v : A) → length (set xs i v) ≡ length xs
  length-set [] i v = refl
  length-set (x ∷ xs) zero v = refl
  length-set (x ∷ xs) (suc i) v = ap suc (length-set xs i v)

-- How often a number stands in a list.
abbrev pub count : ℕ → List ℕ → ℕ
count x [] = 0
count x (a ∷ l) = let rest = count x l in if a == x then suc rest else rest

-- Some element equals `x`.
abbrev pub elem : ℕ → List ℕ → Bool
elem x [] = false
elem x (a ∷ l) = (a == x) || elem x l

pub count-append : (x : ℕ) (xs ys : List ℕ) → count x (xs ++ ys) ≡ count x xs + count x ys
count-append x [] ys = omega arith
count-append x (a ∷ xs) ys = ground (arith, count-append x xs ys)

pub count-le-length : (x : ℕ) (xs : List ℕ) → count x xs ≤ length xs
count-le-length x [] = omega arith
count-le-length x (a ∷ xs) = ground (arith, count-le-length x xs)

pub elem-count : (x : ℕ) (xs : List ℕ) → elem x xs ≡ ltb 0 (count x xs)
elem-count x [] = refl
elem-count x (a ∷ xs) = ground (arith, elem-count x xs)

-- No element stands twice.
abbrev pub IsDistinct : List ℕ → Type 0
IsDistinct xs = (x : ℕ) → count x xs ≤ 1

-- The same elements, as often.
abbrev pub SameItems : List ℕ → List ℕ → Type 0
SameItems xs ys = (x : ℕ) → count x xs ≡ count x ys

pub count-set :
    (x : ℕ) (xs : List ℕ) (i v : ℕ)
    → i < length xs
    → count x (set xs i v) + (if get_or xs i 0 == x then 1 else 0)
      ≡ count x xs + (if v == x then 1 else 0)
count-set x [] i v h = elim h [ ]
count-set x (a ∷ xs) zero v h = ground arith
count-set x (a ∷ xs) (suc i) v h = ground (arith, count-set x xs i v)

pub count-take-suc :
    (x : ℕ) (xs : List ℕ) (i : ℕ)
    → i < length xs
    → count x (take (suc i) xs) ≡ count x (take i xs) + (if get_or xs i 0 == x then 1 else 0)
count-take-suc x [] i h = elim h [ ]
count-take-suc x (a ∷ xs) zero h = ground arith
count-take-suc x (a ∷ xs) (suc i) h = ground (arith, count-take-suc x xs i)

pub take-length : (xs : List ℕ) (i : ℕ) → length xs ≤ i → take i xs ≡ xs
take-length [] zero h = refl
take-length [] (suc i) h = refl
take-length (a ∷ xs) zero h = absurd (omega arith)
take-length (a ∷ xs) (suc i) h = ap (◌∷◌ a) (take-length xs i (omega arith))

pub nil_of_length {ℓ} : {A : Type ℓ} (xs : List A) → length xs ≡ 0 → xs ≡ []
nil_of_length [] h = refl
nil_of_length (x ∷ xs) h = absurd (omega arith)

pub elem-append_one : (a x : ℕ) (xs : List ℕ) → elem x (xs ++ a ∷ []) ≡ ((a == x) || elem x xs)
elem-append_one a x [] = refl
elem-append_one a x (b ∷ xs) = ground (arith, elem-append_one a x xs)

pub get_or-set_same : (xs : List ℕ) (i v d : ℕ) → i < length xs → get_or (set xs i v) i d ≡ v
get_or-set_same [] i v d h = elim h [ ]
get_or-set_same (x ∷ xs) zero v d h = refl
get_or-set_same (x ∷ xs) (suc i) v d h = get_or-set_same xs i v d (omega arith)

pub get_or-set_ne :
    (xs : List ℕ) (i j v d : ℕ) → (i ≡ j → ⊥) → get_or (set xs i v) j d ≡ get_or xs j d
get_or-set_ne [] i j v d h = refl
get_or-set_ne (x ∷ xs) zero zero v d h = absurd (h refl)
get_or-set_ne (x ∷ xs) zero (suc j) v d h = refl
get_or-set_ne (x ∷ xs) (suc i) zero v d h = refl
get_or-set_ne (x ∷ xs) (suc i) (suc j) v d h = get_or-set_ne xs i j v d (λ e. h (ap suc e))

pub elem_of_get_or : (xs : List ℕ) (i : ℕ) → i < length xs → elem (get_or xs i 0) xs ≡ true
elem_of_get_or [] i h = elim h [ ]
elem_of_get_or (x ∷ xs) zero h = ground arith
elem_of_get_or (x ∷ xs) (suc i) h = ground (arith, elem_of_get_or xs i)

pub take-append_length {ℓ} : {A : Type ℓ} (xs ys : List A) → take (length xs) (xs ++ ys) ≡ xs
take-append_length [] ys = refl
take-append_length (x ∷ xs) ys = ap (◌∷◌ x) (take-append_length xs ys)

pub drop-append_length {ℓ} : {A : Type ℓ} (xs ys : List A) → drop (length xs) (xs ++ ys) ≡ ys
drop-append_length [] ys = refl
drop-append_length (x ∷ xs) ys = drop-append_length xs ys
