-- ===== src/Tidset/Valid.antt =====
-- Well-formed task sets, and the operations of src/base/tidset.c that change one slot.
use lotto.Base.{
  ℕ, ◌+◌, ◌*◌, ◌≤◌, ◌<◌, ◌^◌, ◌≡◌, sym, none, some, Bool, true, false, not, ◌||◌, [], ◌∷◌, ◌++◌,
  inl, inr, ltb, ◌==◌, if◌then◌else◌, length, IsDistinct, swap_remove, ok, arith, count-append,
  elem-count, length-append, count-swap_remove, length-swap_remove, length-compact, count-compacted,
  Returns, Bool-cases, nil_of_length, elem-append_one, Returns_of, ◌&&◌,
}
use lotto.Tidset.Loops.{index_from-cases, elem-compacted}
use lotto.Base.Words.{add64-eq, mul64_double}
use lotto.Tidset.{Tidset, size, expand, insert, has, remove, index_from, filter, tidset_init_size}

pub record IsValid (t : Tidset) : Type 0 where
  pub distinct : IsDistinct t.tasks
  pub fits : size t ≤ t.capacity
  pub backed : t.allocated ≡ false → t.capacity ≡ 0

-- Below this capacity the doubling of `insert` wraps neither a slot count nor a byte count.
abbrev pub growth_limit : ℕ
growth_limit = 2 ^ 60

abbrev pub grown : Tidset → ℕ
grown t =
    if ltb t.capacity (size t + 1)
    then (if t.capacity == 0 then tidset_init_size else t.capacity * 2)
    else t.capacity

-- What `insert` computes on a well-formed set.
abbrev pub inserted : Tidset → ℕ → Tidset
inserted t id = record { allocated = true; tasks = t.tasks ++ id ∷ []; capacity = grown t }

pub insert-new :
    (t : Tidset) (id : ℕ)
    → IsValid t
    → t.capacity < growth_limit
    → has t id ≡ false
    → insert t id ≡ ok (inserted t id, true)
unfolding insert expand
insert-new t id v h e =
    ground (arith, v.backed, add64-eq (size t) 1, mul64_double t.capacity, nil_of_length t.tasks)

pub insert-old : (t : Tidset) (id : ℕ) → IsValid t → has t id ≡ true → insert t id ≡ ok (t, false)
unfolding insert
insert-old t id v e = ground arith

pub inserted-IsValid :
    (t : Tidset) (id : ℕ) → IsValid t → has t id ≡ false → IsValid (inserted t id)
inserted-IsValid t id v e = record {
  distinct =
      λ x. ground (arith, v.distinct x, count-append x t.tasks (id ∷ []), elem-count id t.tasks);
  fits = ground (arith, v.fits, length-append t.tasks (id ∷ []));
  backed = λ b. cc;
}

-- `insert` on a well-formed set below the growth limit returns, keeps the set well formed, reports
-- whether the id is new, and adds just that.
pub insert-Returns :
    (t : Tidset) (id : ℕ)
    → IsValid t
    → t.capacity < growth_limit
    → Returns
        (insert t id)
        (λ r. IsValid r.0 × (r.1 ≡ not (has t id)) × ((x : ℕ) → has r.0 x ≡ ((id == x) || has t x)))
insert-Returns t id v h = elim (Bool-cases (has t id)) [
  | inl e ↦ Returns_of _ (t, false) (insert-old t id v e) (v, rw e, λ x. ground arith)
  | inr e ↦
      Returns_of _ (inserted t id, true) (insert-new t id v h e)
        (inserted-IsValid t id v e, rw e, λ x. elem-append_one id x t.tasks)
]

remove-absent :
    (t : Tidset) (id : ℕ) → IsValid t → index_from 0 id t.tasks ≡ none → remove t id ≡ ok (t, false)
unfolding remove
remove-absent t id v e = ground (arith, v.backed)

remove-present :
    (t : Tidset) (id : ℕ)
    → IsValid t
    → (k : ℕ) → index_from 0 id t.tasks ≡ some (0 + k)
    → remove t id ≡ ok (record t { tasks = swap_remove k t.tasks }, true)
unfolding remove
remove-present t id v k e = ground (arith, v.backed)

-- `remove` on a well-formed set returns, keeps the set well formed, reports whether the id was
-- there, and drops just that.
pub remove-Returns :
    (t : Tidset) (id : ℕ)
    → IsValid t
    → Returns
        (remove t id)
        (λ r. IsValid r.0 × (r.1 ≡ has t id) × ((x : ℕ) → has r.0 x ≡ (has t x && not (id == x))))
remove-Returns t id v = elim (index_from-cases 0 id t.tasks) [
  | inl (e, absent) ↦
      Returns_of _ (t, false) (remove-absent t id v e) (v, sym absent, λ x. ground (arith, absent))
  | inr (k, e, inside, here, present) ↦
      Returns_of _ (record t { tasks = swap_remove k t.tasks }, true) (remove-present t id v k e)
        (
          record {
            distinct = λ x. ground (arith, v.distinct x, count-swap_remove x k t.tasks);
            fits = omega (arith, v.fits, length-swap_remove k t.tasks);
            backed = v.backed;
          },
          sym present,
          λ x. ground (
            arith,
            v.distinct x,
            count-swap_remove x k t.tasks,
            elem-count x t.tasks,
            elem-count x (swap_remove k t.tasks),
          ),
        )
]

-- `filter` keeps the set well formed, with just the members that pass.
pub filter_lem :
    (t : Tidset) (p : ℕ → Bool)
    → IsValid t
    → IsValid (filter t p) × ((x : ℕ) → has (filter t p) x ≡ (p x && has t x))
unfolding filter
filter_lem t p v = (
  record {
    distinct = λ x. ground (arith, v.distinct x, count-compacted p t.tasks x);
    fits = omega (arith, v.fits, length-compact p (length t.tasks) 0 t.tasks);
    backed = v.backed;
  },
  elem-compacted p t.tasks,
)

-- What an `insert` that returns has done, whatever the capacity.
insert_old :
    (t : Tidset) (id : ℕ) (t' : Tidset) (b : Bool)
    → insert t id ≡ ok (t', b)
    → has t id ≡ true
    → (t' ≡ t) × (b ≡ false)
unfolding insert
insert_old t id t' b h e = ground arith

insert_new :
    (t : Tidset) (id : ℕ) (t' : Tidset) (b : Bool)
    → IsValid t
    → insert t id ≡ ok (t', b)
    → has t id ≡ false
    → (t'.tasks ≡ t.tasks ++ id ∷ []) × (size t < t'.capacity) × (t'.allocated ≡ true) × (b ≡ true)
unfolding insert expand
insert_new t id t' b v h e = ground (arith, v.backed, v.fits, nil_of_length t.tasks)

pub insert-IsValid :
    (t : Tidset) (id : ℕ) (t' : Tidset) (b : Bool)
    → IsValid t
    → insert t id ≡ ok (t', b)
    → IsValid t' × (b ≡ not (has t id)) × ((x : ℕ) → has t' x ≡ ((id == x) || has t x))
insert-IsValid t id t' b v h = elim (Bool-cases (has t id)) [
  | inl e ↦
      let (same, no_new) = insert_old t id t' b h e in rw same (v, ground arith, λ x. ground arith)
  | inr e ↦
      let (added, fits, there, new) = insert_new t id t' b v h e in
      let w = inserted-IsValid t id v e in
      (
        record {
          distinct = rw added w.distinct;
          fits = ground (arith, length-append {0} t.tasks (id ∷ []));
          backed = λ n. cc;
        },
        ground arith,
        λ x. rw added (elem-append_one id x t.tasks),
      )
]
