-- ===== src/Tidset/Tests.antt =====
-- The task set's theorems at concrete sets.
use lotto.Base.{
  ℕ, ◌≡◌, ◌↔◌, refl, true, false, not, ◌&&◌, ◌||◌, List, [], ◌∷◌, ◌++◌, ◌==◌, ok, Returns, arith,
}
use lotto.Map.{Map}
use lotto.Tidset.{
  Tidset, has, get, insert, remove, union, subtract, equals, set_at, make_first, copy, marshal,
  unmarshal,
}
use lotto.Tidset.Valid.{IsValid, insert-Returns, remove-Returns}
use lotto.Tidset.Members.{subtract_lem, equals_iff}
use lotto.Tidset.Image.{unmarshal-marshal}

abbrev tasks : List ℕ → Tidset
tasks l = record { allocated = true; tasks = l; capacity = 4 }

abbrev full : Tidset
full = tasks (5 ∷ 7 ∷ 2 ∷ 9 ∷ [])

abbrev pair : Tidset
pair = tasks (7 ∷ 3 ∷ [])

full-IsValid : IsValid full
full-IsValid = record { distinct = λ x. ground arith; fits = omega arith; backed = λ e. cc }

pair-IsValid : IsValid pair
pair-IsValid = record { distinct = λ x. ground arith; fits = omega arith; backed = λ e. cc }

-- A full set grows.
grows :
    insert full 1
    ≡ ok (record { allocated = true; tasks = 5 ∷ 7 ∷ 2 ∷ 9 ∷ 1 ∷ []; capacity = 8 }, true)
unfolding insert lotto.Tidset.expand
grows = refl

insert-Returns_example :
    Returns (insert full 1) (λ r.
      IsValid r.0 × (r.1 ≡ not (has full 1)) × ((x : ℕ) → has r.0 x ≡ ((1 == x) || has full x)))
insert-Returns_example = insert-Returns full 1 full-IsValid (omega arith)

remove-Returns_example :
    Returns
      (remove full 7)
      (λ r. IsValid r.0 × (r.1 ≡ has full 7) × ((x : ℕ) → has r.0 x ≡ (has full x && not (7 == x))))
remove-Returns_example = remove-Returns full 7 full-IsValid

subtract_lem_example :
    IsValid (subtract full pair)
    × ((x : ℕ) → has (subtract full pair) x ≡ (not (has pair x) && has full x))
subtract_lem_example = subtract_lem full pair full-IsValid

equals_iff_example : (equals pair full ≡ true) ↔ ((x : ℕ) → has pair x ≡ has full x)
equals_iff_example = equals_iff pair full

abbrev empty : Tidset
empty = record { allocated = false; tasks = []; capacity = 0 }

empty-IsValid : IsValid empty
empty-IsValid = record { distinct = λ x. omega arith; fits = omega arith; backed = λ e. refl }

abbrev keyed : Map ℕ
keyed = record { items = (7, 0) ∷ (2, 1) ∷ []; nitems = 2 }

unmarshal-marshal_example :
    unmarshal pair (marshal full 4096 ++ 8 ∷ [])
    ≡ ok (record { allocated = true; tasks = full.tasks; capacity = 4 }, 8 ∷ [])
unmarshal-marshal_example =
    unmarshal-marshal pair full 4096 (8 ∷ []) full-IsValid (λ e. absurd (ground (arith, e)))
