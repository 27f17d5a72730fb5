-- ===== src/Tidset/Members.antt =====
-- The task set as a set: what its members are after union, intersection and difference, and what
-- the two comparisons decide.
use lotto.Base.{
  ℕ, suc, ◌+◌, ◌*◌, ◌<◌, ◌≡◌, refl, sym, ◌∙◌, ◌↔◌, inl, inr, true, not, ◌||◌, ◌&&◌, List, [], ◌∷◌,
  length, elem, arith, Bool-cases, Returns, Returns_mono, Bool_ext, nil_of_length, length-append,
  elem-append_one,
}
use lotto.Tidset.{
  Tidset, has, size, union, insert_all, intersect, subtract, filter, has_all, contains_all, equals,
}
use lotto.Tidset.Valid.{
  IsValid, growth_limit, insert-new, insert-old, inserted, inserted-IsValid, filter_lem, grown,
}

-- `intersect` keeps the set well formed, with just the common members.
pub intersect_lem :
    (t u : Tidset)
    → IsValid t
    → IsValid (intersect t u) × ((x : ℕ) → has (intersect t u) x ≡ (has u x && has t x))
unfolding intersect filter
intersect_lem t u v = filter_lem t (has u) v

-- `subtract` keeps a well-formed set well formed, without the members of the other and with all
-- else.
pub subtract_lem :
    (t u : Tidset)
    → IsValid t
    → IsValid (subtract t u) × ((x : ℕ) → has (subtract t u) x ≡ (not (has u x) && has t x))
unfolding subtract filter
subtract_lem t u v = filter_lem t (λ x. not (has u x)) v

-- The bound on the members that are reached keeps the capacity below the limit.
pub grown-lt :
    (t : Tidset) (n : ℕ)
    → t.capacity < growth_limit
    → (size t + suc n) * 2 + 4 < growth_limit
    → grown t < growth_limit
grown-lt t n h k = ground arith

-- What the union with the ids `xs` is.
abbrev Joins : Tidset → List ℕ → Tidset → Type 0
Joins t xs r = IsValid r × ((x : ℕ) → has r x ≡ (elem x xs || has t x))

insert_all-Returns :
    (t : Tidset) (xs : List ℕ)
    → IsValid t
    → t.capacity < growth_limit
    → (size t + length xs) * 2 + 4 < growth_limit
    → Returns (insert_all t xs) (Joins t xs)
unfolding insert_all
insert_all-Returns t [] v h k = (v, λ x. refl)
insert_all-Returns t (a ∷ xs) v h k = elim (Bool-cases (has t a)) [
  | inl e ↦ rw (insert-old t a v e) (
      Returns_mono (Joins t xs) (Joins t (a ∷ xs)) (insert_all t xs)
        (insert_all-Returns t xs v h (omega arith)) (λ r p. (p.0, λ x. ground (arith, p.1 x, e))))
  | inr e ↦ rw (insert-new t a v h e) (
      Returns_mono (Joins (inserted t a) xs) (Joins t (a ∷ xs)) (insert_all (inserted t a) xs)
        (insert_all-Returns (inserted t a) xs (inserted-IsValid t a v e)
          (grown-lt t (length xs) h k) (omega (arith, length-append {0} t.tasks (a ∷ []))))
        (λ r p. (p.0, λ x. ground (arith, p.1 x, elem-append_one a x t.tasks))))
]

-- `union` returns, keeps the first set well formed, and has the members of either, if that set is
-- well formed and below the growth limit, and the sizes are small enough for its growth to stay
-- there.
pub union-Returns :
    (t u : Tidset)
    → IsValid t
    → t.capacity < growth_limit
    → (size t + size u) * 2 + 4 < growth_limit
    → Returns (union t u) (λ r. IsValid r × ((x : ℕ) → has r x ≡ (has u x || has t x)))
unfolding union
union-Returns t u v h k = insert_all-Returns t u.tasks v h k

has_all_iff :
    (t : Tidset) (xs : List ℕ)
    → (has_all t xs ≡ true) ↔ ((x : ℕ) → elem x xs ≡ true → has t x ≡ true)
unfolding has_all
has_all_iff t [] = (λ e x h. ground arith, λ h. refl)
has_all_iff t (a ∷ xs) =
    let ih = has_all_iff t xs in
    (
      λ e x h. ground (arith, ih.0 (ground arith) x),
      λ h. ground (arith, h a (ground arith), ih.1 (λ x m. h x (ground arith))),
    )

no_member :
    (t : Tidset) (xs : List ℕ)
    → ((x : ℕ) → elem x xs ≡ true → has t x ≡ true)
    → t.tasks ≡ []
    → xs ≡ []
no_member t [] h e = refl
no_member t (y ∷ ys) h e = absurd (ground (arith, h y))

-- `contains_all` decides inclusion.
pub contains_all_iff :
    (t u : Tidset) → (contains_all t u ≡ true) ↔ ((x : ℕ) → has u x ≡ true → has t x ≡ true)
unfolding contains_all
contains_all_iff t u =
    let all = has_all_iff t u.tasks in
    (
      λ e x h. ground (arith, all.0 (ground (arith, nil_of_length u.tasks)) x h),
      λ h. ground (arith, all.1 h, nil_of_length t.tasks, no_member t u.tasks h),
    )

-- `equals` decides that the members of two sets are the same.
pub equals_iff : (t u : Tidset) → (equals t u ≡ true) ↔ ((x : ℕ) → has t x ≡ has u x)
unfolding equals
equals_iff t u =
    let left = contains_all_iff t u in
    let right = contains_all_iff u t in
    (
      λ e x.
          Bool_ext (has t x) (has u x) (right.0 (ground (arith, e)) x)
            (left.0 (ground (arith, e)) x),
      λ h. ground (arith, left.1 (λ x m. h x ∙ m), right.1 (λ x m. sym (h x) ∙ m)),
    )
