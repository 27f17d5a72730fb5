-- ===== src/Base/Swap.antt =====
-- The unordered removal of the C arrays, `a[i] = a[--n]`, and the compaction loop that uses it.
use Prim.Native.Nat.{ℕ, zero, suc, ◌+◌, ◌-◌, ◌≤◌, ◌<◌}
use mathlib.Core.Path.{◌≡◌, refl, ap, ◌∙◌}
use mathlib.Core.Logic.{inl, inr}
use mathlib.Core.Bool.{Bool, true, false}
use mathlib.Core.List.{List, [], ◌∷◌}
use native.Mathlib.Omega.{arith}
use lotto.Base.Tests.{◌==◌, if◌then◌else◌, ltb, Bool-cases}
use lotto.Base.Lists.{
  length, get_or, set, take, drop_last, count, length-set, count-set, count-take-suc, take-length,
}

-- `a[i] = a[--n]`: the last slot moves into slot `i`.
unfoldable pub swap_remove : ℕ → List ℕ → List ℕ
swap_remove i xs = drop_last (set xs i (get_or xs (length xs - 1) 0))

length-drop_last : (xs : List ℕ) → length (drop_last xs) ≡ length xs - 1
length-drop_last [] = omega arith
length-drop_last (a ∷ []) = omega arith
length-drop_last (a ∷ b ∷ xs) = omega (arith, length-drop_last (b ∷ xs))

count-drop_last :
    (x : ℕ) (a : ℕ) (xs : List ℕ)
    → count x (drop_last (a ∷ xs)) + (if get_or (a ∷ xs) (length xs) 0 == x then 1 else 0)
      ≡ count x (a ∷ xs)
count-drop_last x a [] = ground arith
count-drop_last x a (b ∷ xs) = ground (arith, count-drop_last x b xs)

get_or-set_self : (xs : List ℕ) (i k : ℕ) → get_or (set xs i (get_or xs k 0)) k 0 ≡ get_or xs k 0
get_or-set_self [] i k = refl
get_or-set_self (a ∷ xs) zero zero = refl
get_or-set_self (a ∷ xs) zero (suc k) = refl
get_or-set_self (a ∷ xs) (suc i) zero = refl
get_or-set_self (a ∷ xs) (suc i) (suc k) = get_or-set_self xs i k

pub length-swap_remove : (i : ℕ) (xs : List ℕ) → length (swap_remove i xs) ≡ length xs - 1
unfolding swap_remove
length-swap_remove i xs = omega (
  arith,
  length-drop_last (set xs i (get_or xs (length xs - 1) 0)),
  length-set {0} xs i (get_or xs (length xs - 1) 0),
)

count-drop_last_of :
    (x : ℕ) (ys : List ℕ) (n : ℕ)
    → length ys ≡ suc n
    → count x (drop_last ys) + (if get_or ys n 0 == x then 1 else 0) ≡ count x ys
count-drop_last_of x [] n h = absurd (omega arith)
count-drop_last_of x (a ∷ ys) n h =
    let e : length ys ≡ n = omega arith in rw (← e) (count-drop_last x a ys)

pub count-swap_remove :
    (x i : ℕ) (xs : List ℕ)
    → i < length xs
    → count x (swap_remove i xs) + (if get_or xs i 0 == x then 1 else 0) ≡ count x xs
unfolding swap_remove
count-swap_remove x i xs h =
    let n = length xs - 1 in
    let v = get_or xs n 0 in
    omega (
      arith,
      count-set x xs i v h,
      rw (get_or-set_self xs i n) at
          (count-drop_last_of x (set xs i v) n (omega (arith, length-set {0} xs i v))),
    )

take-drop_last : (i : ℕ) (ys : List ℕ) → i < length ys → take i (drop_last ys) ≡ take i ys
take-drop_last zero ys h = refl
take-drop_last (suc i) [] h = elim h [ ]
take-drop_last (suc i) (a ∷ []) h = absurd (omega arith)
take-drop_last (suc i) (a ∷ b ∷ ys) h = ap (◌∷◌ a) (take-drop_last i (b ∷ ys) (omega arith))

take-set : (i : ℕ) (ys : List ℕ) (v : ℕ) → take i (set ys i v) ≡ take i ys
take-set zero ys v = refl
take-set (suc i) [] v = refl
take-set (suc i) (a ∷ ys) v = ap (◌∷◌ a) (take-set i ys v)

pub take-swap_remove : (i : ℕ) (xs : List ℕ) → i < length xs → take i (swap_remove i xs) ≡ take i xs
unfolding swap_remove
take-swap_remove i xs h =
    let v = get_or xs (length xs - 1) 0 in
    take-drop_last i (set xs i v) (omega (arith, length-set {0} xs i v)) ∙ take-set i xs v

-- `for (i = 0; i < n;) if (keep(a[i])) i++; else a[i] = a[--n];` on fuel.
unfoldable pub compact : (ℕ → Bool) → ℕ → ℕ → List ℕ → List ℕ
compact keep zero i xs = xs
compact keep (suc fuel) i xs = elim (ltb i (length xs)) [
  | false ↦ xs
  | true ↦ elim (keep (get_or xs i 0)) [
    | true ↦ compact keep fuel (suc i) xs
    | false ↦ compact keep fuel i (swap_remove i xs)
  ]
]

-- With fuel for the slots that are left, the loop keeps just what passes the test.
pub count-compact :
    (keep : ℕ → Bool) (fuel i : ℕ) (xs : List ℕ) (x : ℕ)
    → length xs ≤ i + fuel
    → count x (compact keep fuel i xs) ≡ (if keep x then count x xs else count x (take i xs))
unfolding compact
count-compact keep zero i xs x h = elim (Bool-cases (keep x)) [
  | inl e ↦ rw e
  | inr e ↦ rw (e, take-length xs i (omega arith))
]
count-compact keep (suc fuel) i xs x h = ground (
  arith,
  count-compact keep fuel (suc i) xs x,
  count-compact keep fuel i (swap_remove i xs) x,
  count-take-suc x xs i,
  count-swap_remove x i xs,
  length-swap_remove i xs,
  take-swap_remove i xs,
  take-length xs i,
)

pub length-compact :
    (keep : ℕ → Bool) (fuel i : ℕ) (xs : List ℕ) → length (compact keep fuel i xs) ≤ length xs
unfolding compact
length-compact keep zero i xs = omega arith
length-compact keep (suc fuel) i xs = ground (
  arith,
  length-compact keep fuel (suc i) xs,
  length-compact keep fuel i (swap_remove i xs),
  length-swap_remove i xs,
)

-- The whole loop.
abbrev pub compacted : (ℕ → Bool) → List ℕ → List ℕ
compacted keep xs = compact keep (length xs) 0 xs

pub count-compacted :
    (keep : ℕ → Bool) (xs : List ℕ) (x : ℕ)
    → count x (compacted keep xs) ≡ (if keep x then count x xs else 0)
count-compacted keep xs x = count-compact keep (length xs) 0 xs x (omega arith)
