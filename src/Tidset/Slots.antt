-- ===== src/Tidset/Slots.antt =====
-- The task set as an array: writing a slot, moving an id to the front, and copying.
use lotto.Base.{
  ℕ, zero, suc, ◌+◌, ◌≤◌, ◌<◌, ◌≡◌, ◌≢◌, refl, ◌∙◌, ◌⊎◌, inl, inr, true, false, not, ◌||◌, ◌&&◌,
  some, List, ◌==◌, length, get_or, set, count, elem, arith, ok, fault, assert_failed, Returns,
  Returns_of, count-set, length-set, elem-count, get_or-set_same, get_or-set_ne, elem_of_get_or,
}
use lotto.Base.Words.{no_task}
use lotto.Tidset.{Tidset, has, size, get, set_at, displace, make_first, index_from, copy, expand}
use lotto.Tidset.Valid.{IsValid}
use lotto.Tidset.Loops.{displace-cases, index_from-cases}

-- Slots `i` and `k` exchange their ids when the id at `k` is written to slot `i`.
count-exchange :
    (x : ℕ) (xs : List ℕ) (i k : ℕ)
    → i < length xs
    → k < length xs
    → k ≢ i
    → count x (set (set xs k (get_or xs i 0)) i (get_or xs k 0)) ≡ count x xs
count-exchange x xs i k hi hk n =
    let old = get_or xs i 0 in
    let id = get_or xs k 0 in
    ground (
      arith,
      count-set x xs k old hk,
      count-set x (set xs k old) i id,
      length-set {0} xs k old,
      get_or-set_ne xs k i old 0 n,
    )

-- The ids after the write: an exchange if the id was in the array, else a replacement.
written-cases :
    (xs : List ℕ) (i id : ℕ)
    → i < length xs
    → let ys = set (displace 0 i id (get_or xs i 0) xs) i id in
      (length ys ≡ length xs)
      × (get_or ys i 0 ≡ id)
      × (((elem id xs ≡ true) × ((x : ℕ) → count x ys ≡ count x xs))
          ⊎ ((elem id xs ≡ false) × (ys ≡ set xs i id)))
written-cases xs i id h = elim (displace-cases 0 i id (get_or xs i 0) xs) [
  | inl (e, only) ↦ rw e (
    length-set xs i id,
    get_or-set_same xs i id 0 h,
    elim (index_from-cases 0 id xs) [
      | inl (_, absent) ↦ inr (absent, refl)
      | inr (k, _, hk, at, present) ↦
          inl (present, λ x. ground (arith, count-set x xs i id, only k hk at))
    ],
  )
  | inr (k, e, hk, n, at) ↦ rw e (
    length-set _ i id ∙ length-set xs k _,
    get_or-set_same _ i id 0 (omega (arith, length-set {0} xs k (get_or xs i 0))),
    inl (
      ground (arith, elem_of_get_or xs k hk),
      λ x. rw at at (count-exchange x xs i k h hk (λ p. n (omega arith))),
    ),
  )
]

abbrev stored : Tidset → ℕ → ℕ → Tidset
stored t idx id = record t { tasks = set (displace 0 idx id (get_or t.tasks idx 0) t.tasks) idx id }

set_at-stored :
    (t : Tidset) (idx id : ℕ)
    → IsValid t
    → idx < size t
    → id ≢ no_task
    → set_at t idx id ≡ ok (stored t idx id)
unfolding set_at
set_at-stored t idx id v h n = ground (arith, v.backed)

get-stored :
    (t : Tidset) (idx id : ℕ)
    → IsValid t
    → idx < size t
    → get_or (stored t idx id).tasks idx 0 ≡ id
    → get (stored t idx id) idx ≡ ok id
unfolding get
get-stored t idx id v h e = ground (arith, v.backed, (written-cases t.tasks idx id h).0)

-- Writing an id other than NO_TASK into a used slot of a well-formed set returns and keeps the set
-- well formed. If the id was a member the members stay, else it replaces what the slot held. The
-- slot then reads as the id.
pub set_at-Returns :
    (t : Tidset) (idx id : ℕ)
    → IsValid t
    → idx < size t
    → id ≢ no_task
    → Returns (set_at t idx id) (λ r.
      IsValid r
      × (get r idx ≡ ok id)
      × ((x : ℕ)
          → has r x ≡ ((id == x) || (has t x && (has t id || not (get_or t.tasks idx 0 == x))))))
set_at-Returns t idx id v h n =
    let (same, reads, cases) = written-cases t.tasks idx id h in
    Returns_of _ (stored t idx id) (set_at-stored t idx id v h n) (
      record {
        distinct = λ x. elim cases [
          | inl (present, keeps) ↦ omega (arith, keeps x, v.distinct x)
          | inr (absent, e) ↦
              ground (arith, e, count-set x t.tasks idx id, v.distinct x, elem-count id t.tasks)
        ];
        fits = omega (arith, v.fits, same);
        backed = v.backed;
      },
      get-stored t idx id v h reads,
      λ x. elim cases [
        | inl (present, keeps) ↦
            ground
              (arith, present, keeps x, elem-count x t.tasks, elem-count x (stored t idx id).tasks)
        | inr (absent, e) ↦ ground (
          arith,
          absent,
          e,
          elem_of_get_or t.tasks idx h,
          v.distinct x,
          count-set x t.tasks idx id,
          elem-count x t.tasks,
          elem-count x (set t.tasks idx id),
        )
      ],
    )

-- `make_first` faults exactly on ids that are not members; else the members stay, and slot 0 reads
-- as the id.
pub make_first-absent :
    (t : Tidset) (id : ℕ) → has t id ≡ false → make_first t id ≡ fault assert_failed
unfolding make_first
make_first-absent t id e = elim (index_from-cases 0 id t.tasks) [
  | inl (a, b) ↦ ground (arith, a)
  | inr (k, a, b, c, d) ↦ absurd (ground (arith, d))
]

abbrev swapped_first : Tidset → ℕ → ℕ → Tidset
swapped_first t k id = record t { tasks = set (set t.tasks k (get_or t.tasks 0 0)) 0 id }

make_first-found :
    (t : Tidset) (id k : ℕ)
    → index_from 0 id t.tasks ≡ some (0 + suc k)
    → make_first t id ≡ ok (swapped_first t (suc k) id)
unfolding make_first
make_first-found t id k e = ground arith

make_first-already :
    (t : Tidset) (id : ℕ) → index_from 0 id t.tasks ≡ some (0 + 0) → make_first t id ≡ ok t
unfolding make_first
make_first-already t id e = ground arith

get_first :
    (t : Tidset) (id : ℕ) → IsValid t → 0 < size t → get_or t.tasks 0 0 ≡ id → get t 0 ≡ ok id
unfolding get
get_first t id v h e = ground (arith, v.backed)

-- `make_first` on a member of a well-formed set returns; the members stay, the set is well formed,
-- and slot 0 reads as the id.
pub make_first-Returns :
    (t : Tidset) (id : ℕ)
    → IsValid t
    → has t id ≡ true
    → Returns (make_first t id) (λ r. IsValid r × (get r 0 ≡ ok id) × ((x : ℕ) → has r x ≡ has t x))
make_first-Returns t id v e = elim (index_from-cases 0 id t.tasks) [
  | inl (a, absent) ↦ absurd (ground (arith, absent))
  | inr (zero, a, hk, at, _) ↦
      Returns_of _ t (make_first-already t id a) (v, get_first t id v hk at, λ x. refl)
  | inr (suc k, a, hk, at, _) ↦
      let r = swapped_first t (suc k) id in
      let keeps : (x : ℕ) → count x r.tasks ≡ count x t.tasks =
        λ x. rw at at (count-exchange x t.tasks 0 (suc k) (omega arith) hk (omega arith)) in
      let same : length r.tasks ≡ length t.tasks =
        length-set _ 0 id ∙ length-set t.tasks (suc k) _ in
      let valid : IsValid r = record {
        distinct = λ x. omega (arith, keeps x, v.distinct x);
        fits = omega (arith, v.fits, same);
        backed = v.backed;
      } in
      let first : get_or r.tasks 0 0 ≡ id =
        get_or-set_same _ 0 id 0
          (omega (arith, length-set {0} t.tasks (suc k) (get_or t.tasks 0 0))) in
      Returns_of _ r (make_first-found t id k a) (
        valid,
        get_first r id valid (omega (arith, same)) first,
        λ x. ground (arith, keeps x, elem-count x t.tasks, elem-count x r.tasks),
      )
]

-- A copy between well-formed sets returns: the destination holds the same ids in the same order, is
-- well formed, and its capacity does not shrink.
pub copy-Returns :
    (dst src : Tidset)
    → IsValid dst
    → IsValid src
    → Returns (copy dst src) (λ r. IsValid r × (r.tasks ≡ src.tasks) × (dst.capacity ≤ r.capacity))
unfolding copy expand
copy-Returns dst src v w = ground (arith, v.backed, w.backed, v.fits, w.fits, w.distinct)
