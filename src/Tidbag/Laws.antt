-- ===== src/Tidbag/Laws.antt =====
-- The bag of src/base/tidbag.c by how often it holds each id.
use lotto.Base.{
  ℕ, suc, ◌+◌, ◌-◌, ◌*◌, ◌≤◌, ◌<◌, ◌^◌, ◌≡◌, ◌≢◌, refl, ◌⊎◌, inl, inr, Bool, true, false, none,
  some, List, [], ◌∷◌, ◌++◌, ltb, ◌==◌, if◌then◌else◌, length, get_or, set, count, swap_remove,
  arith, Bool-cases, ok, Returns, Returns_of, nil_of_length, length-append, count-append,
  count-swap_remove, length-swap_remove, length-compact, count-compacted, count-set, length-set,
}
use lotto.Base.Words.{no_task, add64-eq, mul64_double}
use lotto.Tidbag.{
  Tidbag, size, insert, expand, remove, index_from, filter, copy, set_at, tidbag_init_size,
}

pub record IsValid (b : Tidbag) : Type 0 where
  pub fits : size b ≤ b.capacity
  pub backed : b.allocated ≡ false → b.capacity ≡ 0

-- Below this capacity the doubling of `insert` wraps neither a slot count nor a byte count.
abbrev pub growth_limit : ℕ
growth_limit = 2 ^ 60

abbrev inserted : Tidbag → ℕ → Tidbag
inserted b id = record {
  allocated = true;
  tasks = b.tasks ++ id ∷ [];
  capacity =
      if ltb b.capacity (size b + 1)
      then (if b.capacity == 0 then tidbag_init_size else b.capacity * 2)
      else b.capacity;
}

insert-inserted :
    (b : Tidbag) (id : ℕ) → IsValid b → b.capacity < growth_limit → insert b id ≡ ok (inserted b id)
unfolding insert expand
insert-inserted b id v h =
    ground (arith, v.backed, add64-eq (size b) 1, mul64_double b.capacity, nil_of_length b.tasks)

-- `insert` on a well-formed bag below the growth limit returns a well-formed bag with one more of
-- the id and all else the same.
pub tidbag_insert-Returns :
    (b : Tidbag) (id : ℕ)
    → IsValid b
    → b.capacity < growth_limit
    → Returns (insert b id) (λ r.
      IsValid r × ((x : ℕ) → count x r.tasks ≡ count x b.tasks + (if id == x then 1 else 0)))
tidbag_insert-Returns b id v h = Returns_of _ (inserted b id) (insert-inserted b id v h) (
  record { fits = ground (arith, v.fits, length-append b.tasks (id ∷ [])); backed = λ e. cc },
  λ x. ground (arith, count-append x b.tasks (id ∷ [])),
)

pub index_from-cases :
    (i id : ℕ) (xs : List ℕ)
    → ((index_from i id xs ≡ none) × (count id xs ≡ 0))
      ⊎ ((k : ℕ) × (index_from i id xs ≡ some (i + k))
          × (k < length xs)
          × (get_or xs k 0 ≡ id)
          × (0 < count id xs))
unfolding index_from
index_from-cases i id [] = inl (refl, refl)
index_from-cases i id (x ∷ xs) = elim (Bool-cases (x == id)) [
  | inl e ↦ inr (0, ground arith, omega arith, ground arith, ground arith)
  | inr e ↦ elim (index_from-cases (suc i) id xs) [
    | inl (a, b) ↦ inl (ground arith, ground arith)
    | inr (k, a, b, c, d) ↦ inr (suc k, ground arith, omega arith, c, ground arith)
  ]
]

remove-absent :
    (b : Tidbag) (id : ℕ) → IsValid b → index_from 0 id b.tasks ≡ none → remove b id ≡ ok b
unfolding remove
remove-absent b id v e = ground (arith, v.backed)

pub remove-present :
    (b : Tidbag) (id : ℕ)
    → IsValid b
    → (k : ℕ) → index_from 0 id b.tasks ≡ some (0 + k)
    → remove b id ≡ ok (record b { tasks = swap_remove k b.tasks })
unfolding remove
remove-present b id v k e = ground (arith, v.backed)

-- `remove` on a well-formed bag returns a well-formed bag with one less of the id, if it held any,
-- and all else the same.
pub tidbag_remove-Returns :
    (b : Tidbag) (id : ℕ)
    → IsValid b
    → Returns (remove b id) (λ r.
      IsValid r × ((x : ℕ) → count x r.tasks ≡ count x b.tasks - (if id == x then 1 else 0)))
tidbag_remove-Returns b id v = elim (index_from-cases 0 id b.tasks) [
  | inl (e, absent) ↦ Returns_of _ b (remove-absent b id v e) (v, λ x. ground (arith, absent))
  | inr (k, e, inside, here, present) ↦
      Returns_of _ (record b { tasks = swap_remove k b.tasks }) (remove-present b id v k e)
        (
          record { fits = omega (arith, v.fits, length-swap_remove k b.tasks); backed = v.backed },
          λ x. ground (arith, count-swap_remove x k b.tasks),
        )
]

-- `filter` keeps a well-formed bag well formed, with every copy of what passes and nothing else.
pub tidbag_filter_lem :
    (b : Tidbag) (p : ℕ → Bool)
    → IsValid b
    → IsValid (filter b p)
      × ((x : ℕ) → count x (filter b p).tasks ≡ (if p x then count x b.tasks else 0))
unfolding filter
tidbag_filter_lem b p v = (
  record {
    fits = omega (arith, v.fits, length-compact p (length b.tasks) 0 b.tasks);
    backed = v.backed;
  },
  count-compacted p b.tasks,
)

-- A copy returns: the same ids in the same order, in a well-formed bag.
pub tidbag_copy-Returns :
    (dst src : Tidbag)
    → IsValid dst
    → IsValid src
    → Returns (copy dst src) (λ r. IsValid r × (r.tasks ≡ src.tasks) × (dst.capacity ≤ r.capacity))
unfolding copy expand
tidbag_copy-Returns dst src v w = ground (arith, v.backed, w.backed, v.fits, w.fits)

set_at-eq :
    (b : Tidbag) (idx id : ℕ)
    → IsValid b
    → idx < size b
    → id ≢ no_task
    → set_at b idx id ≡ ok (record b { tasks = set b.tasks idx id })
unfolding set_at
set_at-eq b idx id v h n = ground (arith, v.backed)

-- Writing an id other than NO_TASK into a used slot of a well-formed bag returns a well-formed bag
-- in which one copy of what the slot held is traded for one of the id.
pub tidbag_set_at-Returns :
    (b : Tidbag) (idx id : ℕ)
    → IsValid b
    → idx < size b
    → id ≢ no_task
    → Returns (set_at b idx id) (λ r.
      IsValid r
      × ((x : ℕ)
          → count x r.tasks + (if get_or b.tasks idx 0 == x then 1 else 0)
            ≡ count x b.tasks + (if id == x then 1 else 0)))
tidbag_set_at-Returns b idx id v h n =
    Returns_of _ (record b { tasks = set b.tasks idx id }) (set_at-eq b idx id v h n)
      (
        record { fits = omega (arith, v.fits, length-set {0} b.tasks idx id); backed = v.backed },
        λ x. count-set x b.tasks idx id h,
      )
