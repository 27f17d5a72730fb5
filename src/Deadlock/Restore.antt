-- ===== src/Deadlock/Restore.antt =====
-- A task that is taken out of a bag and put back (modules/deadlock/src/handler.c).
use lotto.Base.{
  ℕ, ◌+◌, ◌<◌, ◌≡◌, refl, sym, ◌∙◌, true, false, ◌||◌, [], ◌∷◌, ◌++◌, ◌==◌, if◌then◌else◌, count,
  ltb, arith, ok, inl, inr, swap_remove, length-swap_remove, count-swap_remove, length-append,
  count-append, elem-count,
}
use lotto.Base.Words.{u64_mod, add64}
use lotto.Tidbag.{Tidbag, size, has, remove, insert}
use lotto.Tidbag.Laws.{index_from-cases, remove-present}
use lotto.Deadlock.Alike.{HasRoom, SameBag}

-- One copy of the id less
pub record Without (b : Tidbag) (id : ℕ) (r : Tidbag) : Type 0 where
  pub sizes : size r + 1 ≡ size b
  pub capacities : r.capacity ≡ b.capacity
  pub allocations : r.allocated ≡ b.allocated
  pub counts : (x : ℕ) → count x r.tasks + (if id == x then 1 else 0) ≡ count x b.tasks

pub remove-Without :
    (b : Tidbag) (id : ℕ)
    → HasRoom b
    → has b id ≡ true
    → (r : Tidbag) × (remove b id ≡ ok r) × Without b id r
remove-Without b id h held = elim (index_from-cases 0 id b.tasks) [
  | inl (e, absent) ↦ absurd (ground (arith, elem-count id b.tasks))
  | inr (k, e, inside, here, present) ↦ (
    record b { tasks = swap_remove k b.tasks },
    remove-present b id (record { fits = h.fits; backed = λ f. cc }) k e,
    record {
      sizes = omega (arith, length-swap_remove k b.tasks);
      capacities = refl;
      allocations = refl;
      counts = λ x. ground (arith, count-swap_remove x k b.tasks inside, here);
    },
  )
]

insert-back :
    (b : Tidbag) (id : ℕ)
    → b.allocated ≡ true
    → size b < b.capacity
    → b.capacity < u64_mod
    → insert b id ≡ ok (record b { tasks = b.tasks ++ id ∷ [] })
unfolding insert
insert-back b id backed room small =
    let usable : ((size b == 0) || b.allocated) ≡ true = ground arith in
    let no_growth : ltb b.capacity (add64 (size b) 1) ≡ false = ground arith in
    let inside : ltb (size b) b.capacity ≡ true = ground arith in
    rw (insert, usable, no_growth, backed, inside) refl

pub restored :
    (b without b' : Tidbag) (id : ℕ)
    → HasRoom b
    → Without b id without
    → SameBag without b'
    → (insert b' id ≡ ok (record b' { tasks = b'.tasks ++ id ∷ [] }))
      × SameBag b (record b' { tasks = b'.tasks ++ id ∷ [] })
restored b without b' id h w same = (
  insert-back b' id (sym same.allocations ∙ w.allocations ∙ h.backed)
      (omega (arith, same.sizes, w.sizes, same.capacities, w.capacities, h.fits))
      (omega (arith, same.capacities, w.capacities, h.small)),
  record {
    sizes = omega (arith, same.sizes, w.sizes, length-append b'.tasks (id ∷ []));
    capacities = sym w.capacities ∙ same.capacities;
    allocations = sym w.allocations ∙ same.allocations;
    counts = λ x. ground (arith, count-append x b'.tasks (id ∷ []), w.counts x, same.counts x);
  },
)

pub Without-HasRoom : (b : Tidbag) (id : ℕ) (r : Tidbag) → HasRoom b → Without b id r → HasRoom r
Without-HasRoom b id r h w = record {
  fits = omega (arith, h.fits, w.sizes, w.capacities);
  small = omega (arith, h.small, w.capacities);
  backed = w.allocations ∙ h.backed;
}
