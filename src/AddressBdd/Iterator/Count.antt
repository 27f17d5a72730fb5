-- ===== src/AddressBdd/Iterator/Count.antt =====
-- How many addresses the iterator goes through (src/base/address_bdd.c, `address_bdd_size`).
use lotto.Base.{
  ℕ, zero, suc, ◌+◌, ◌-◌, ◌≤◌, ◌<◌, ◌≡◌, refl, sym, ap, ◌∙◌, subst, inl, inr, Bool, true, false,
  not, [], ◌==◌, arith, if◌then◌else◌, Option, none, some, Bool-cases, ok, ◌>>=◌, Returned,
}
use lotto.Base.Words.{u64_mod}
use lotto.AddressBdd.{terminal, AddressBdd, last_address}
use lotto.AddressBdd.Blocks.{width_pos, contains}
use lotto.AddressBdd.Sets.{IsBdd, bdd_contains, root-width, unit_pos}
use lotto.AddressBdd.Check.{all_from}
use lotto.AddressBdd.Iterator.{
  Iterator, find_true_sub_node, address_bdd_iterator, start_of, iterator_next, count_from,
  address_bdd_size,
}
use lotto.AddressBdd.Iterator.Paths.{Reaches-inside}
use lotto.AddressBdd.Iterator.Advance.{NoneIn, AtTrue, Search, find_true_sub_node-Search}
use lotto.AddressBdd.Iterator.Next.{IsIterator, position, skips, Steps, iterator_next-Steps}

-- How many of the `n` addresses from `from` on pass the test.
unfoldable pub tally : (ℕ → Bool) → ℕ → ℕ → ℕ
tally f from zero = 0
tally f from (suc n) = let rest = tally f (suc from) n in if f from then suc rest else rest

pub tally_le : (f : ℕ → Bool) (from n : ℕ) → tally f from n ≤ n
unfolding tally
tally_le f from zero = omega arith
tally_le f from (suc n) = ground (arith, tally_le f (suc from) n)

tally_none :
    (f : ℕ → Bool) (from n : ℕ) → all_from (λ x. not (f x)) from n ≡ true → tally f from n ≡ 0
unfolding tally all_from
tally_none f from zero h = refl
tally_none f from (suc n) h = ground (arith, tally_none f (suc from) n)

-- The first address that passes stands behind `k` that do not.
tally_first :
    (f : ℕ → Bool) (k n m from address : ℕ)
    → n ≡ k + suc m
    → address ≡ from + k
    → all_from (λ x. not (f x)) from k ≡ true
    → f address ≡ true
    → tally f from n ≡ suc (tally f (suc address) m)
unfolding tally all_from
tally_first f k zero m from address len at h first = absurd (omega (arith, len))
tally_first f zero (suc n) m from address len at h first =
    let n_m : n ≡ m = omega (arith, len) in
    let here : address ≡ from = omega (arith, at) in
    let passes : f from ≡ true = ap f (sym here) ∙ first in rw (passes, here, n_m) refl
tally_first f (suc k) (suc n) m from address len at h first =
    ground (arith, tally_first f k n m (suc from) address (omega (arith, len)) (omega (arith, at)))

true_not_false : true ≡ false → ⊥
true_not_false e = cc e

contained_small :
    (b : AddressBdd) (x : ℕ)
    → bdd_contains b x ≡ true
    → bdd_contains b last_address ≡ false
    → x < last_address
unfolding bdd_contains
contained_small b x h last = elim (Bool-cases (x == last_address)) [
  | inl same ↦
      let at_end : x ≡ last_address = ground arith in
      absurd (true_not_false (sym (subst (λ y. bdd_contains b y ≡ true) at_end h) ∙ last))
  | inr differ ↦ ground arith
]

count_step :
    (fuel : ℕ) (b : AddressBdd) (from : ℕ) (result : ℕ × Iterator)
    → IsBdd b
    → bdd_contains b last_address ≡ false
    → tally (bdd_contains b) from (last_address - from) < suc fuel
    → (IsIterator b result.1
        → tally (bdd_contains b) (position result.1) (last_address - position result.1) < fuel
        → count_from fuel result.1
          ≡ ok (tally (bdd_contains b) (position result.1) (last_address - position result.1)))
    → Steps b from result
    → (elim (result.0 == 0) [ true ↦ ok 0 | false ↦ do n ← count_from fuel result.1; ok (suc n) ])
      ≡ ok (tally (bdd_contains b) from (last_address - from))
unfolding skips
count_step fuel b from (address, moved) h last l k (inl (at_zero, skipped)) =
    rw (at_zero, tally_none (bdd_contains b) from (last_address - from) skipped) refl
count_step fuel b from (address, moved) h last l k (inr (i, pos, le, first, skipped, at)) =
    let nonzero : (address == 0) ≡ false = ground arith in
    let before_last : address < last_address = contained_small b address first last in
    let split : tally (bdd_contains b) from (last_address - from)
        ≡ suc (tally (bdd_contains b) (suc address) (last_address - suc address)) =
      tally_first (bdd_contains b) (address - from) (last_address - from)
        (last_address - suc address) from address (omega arith) (omega arith) skipped first in
    let rest : count_from fuel moved
        ≡ ok (tally (bdd_contains b) (suc address) (last_address - suc address)) =
      subst (λ p. count_from fuel moved ≡ ok (tally (bdd_contains b) p (last_address - p))) at
        (k i (rw at (omega (arith, split, l)))) in
    rw (nonzero, rest, split) refl

count_from-tally :
    (fuel : ℕ) (b : AddressBdd) (it : Iterator)
    → IsBdd b
    → IsIterator b it
    → bdd_contains b last_address ≡ false
    → tally (bdd_contains b) (position it) (last_address - position it) < fuel
    → count_from fuel it ≡ ok (tally (bdd_contains b) (position it) (last_address - position it))
unfolding count_from
count_from-tally zero b it h i last l = absurd (omega arith)
count_from-tally (suc fuel) b it h i last l =
    let (result, call, step) =
      Returned (Steps b (position it)) (iterator_next it) (iterator_next-Steps b it h i) in
    rw call (
      count_step fuel b (position it) result h last l
        (λ j small. count_from-tally fuel b result.1 h j last small) step)

tally_skip :
    (f : ℕ → Bool) (k n m from to : ℕ)
    → n ≡ k + m
    → to ≡ from + k
    → NoneIn f from to
    → tally f from n ≡ tally f to m
unfolding tally
tally_skip f zero n m from to len end h =
    let n_m : n ≡ m = omega (arith, len) in
    let here : to ≡ from = omega (arith, end) in rw (n_m, here) refl
tally_skip f (suc k) zero m from to len end h = absurd (omega (arith, len))
tally_skip f (suc k) (suc n) m from to len end h =
    let absent : f from ≡ false = h from (omega arith) (omega (arith, end)) in
    rw absent (
      tally_skip f k n m (suc from) to (omega (arith, len)) (omega (arith, end))
        (λ x lo hi. h x (omega arith) hi))

NoneIn-contains :
    (b : AddressBdd) (from to : ℕ)
    → NoneIn (contains b.size_unit b.root b.max_depth 0) from to
    → NoneIn (bdd_contains b) from to
unfolding bdd_contains
NoneIn-contains b from to h x lo hi = ground (arith, h x)

tally_empty : (f : ℕ → Bool) (from n to : ℕ) → from + n ≤ to → NoneIn f from to → tally f from n ≡ 0
unfolding tally
tally_empty f from zero to le h = refl
tally_empty f from (suc n) to le h =
    let absent : f from ≡ false = h from (omega arith) (omega (arith, le)) in
    rw absent (tally_empty f (suc from) n to (omega (arith, le)) (λ x lo hi. h x (omega arith) hi))

AtTrue-IsIterator :
    (b : AddressBdd) (it : Iterator)
    → IsBdd b
    → AtTrue b.size_unit b.max_depth b.root it
    → IsIterator b it
AtTrue-IsIterator b it h t =
    let w = width_pos b.size_unit t.level (unit_pos b h) in
    record {
      level = t.level;
      is_true = t.is_true;
      reached = t.reached;
      bit = t.bit;
      within = rw t.fresh (ground arith);
      word = rw t.fresh (ground arith);
      started = rw t.fresh (ground arith);
    }

from_start :
    (b : AddressBdd) (it : Iterator)
    → IsBdd b
    → (t : AtTrue b.size_unit b.max_depth b.root it)
    → NoneIn (contains b.size_unit b.root b.max_depth 0) 0 it.base
    → tally (bdd_contains b) 1 (last_address - 1)
      ≡ tally (bdd_contains b) (position it) (last_address - position it)
unfolding position
from_start b it h t skipped =
    let inside =
      Reaches-inside b.size_unit b.max_depth b.root (unit_pos b h) it.parents (terminal true)
        t.level it.base t.reached in
    let w = width_pos b.size_unit t.level (unit_pos b h) in
    let whole = root-width b h in
    let small : position it ≤ last_address = ground (arith, t.fresh, inside, w, whole) in
    let started : 0 < position it = ground (arith, t.fresh) in
    tally_skip (bdd_contains b) (position it - 1) (last_address - 1) (last_address - position it) 1
      (position it) (omega (arith, small, started)) (omega (arith, started))
      (NoneIn-contains b 1 (position it)
        (λ x lo hi. skipped x (omega arith) (ground (arith, t.fresh))))

count_ended :
    (fuel : ℕ) (b : AddressBdd)
    → count_from
        (suc fuel)
        (record { node = b.root; parents = []; current_bit = 0; offset = last_address; base = 0 })
      ≡ ok 0
unfolding count_from iterator_next
count_ended fuel b = refl

-- The count from where the iterator starts
count_start :
    (fuel : ℕ) (b : AddressBdd) (found : Option Iterator)
    → (h : IsBdd b) → bdd_contains b last_address ≡ false
    → tally (bdd_contains b) 1 (last_address - 1) < fuel
    → Search b.size_unit b.max_depth b.root b.max_depth 0 found
    → count_from fuel (start_of b found) ≡ ok (tally (bdd_contains b) 1 (last_address - 1))
unfolding start_of
count_start zero b found h last l s = absurd (omega arith)
count_start (suc fuel) b none h last l s =
    count_ended fuel b
    ∙ ap ok (
        sym (
          tally_empty (bdd_contains b) 1 (last_address - 1) u64_mod (omega arith) (
            NoneIn-contains b 1 u64_mod
              (λ x lo hi. s x (omega arith) (omega (arith, root-width b h))))))
count_start (suc fuel) b (some it) h last l (t, low, skipped) =
    let i = AtTrue-IsIterator b it h t in
    count_from-tally (suc fuel) b it h i last (omega (arith, l, from_start b it h t skipped))
    ∙ ap ok (sym (from_start b it h t skipped))

-- On a well-formed diagram without the last address, and with fuel for one step more,
-- `address_bdd_size` returns how many addresses of the set there are between address 0 and the last
-- one, both left out.
pub address_bdd_size-tally :
    (fuel : ℕ) (b : AddressBdd)
    → IsBdd b
    → bdd_contains b last_address ≡ false
    → tally (bdd_contains b) 1 (last_address - 1) < fuel
    → address_bdd_size fuel b ≡ ok (tally (bdd_contains b) 1 (last_address - 1))
unfolding address_bdd_size address_bdd_iterator
address_bdd_size-tally fuel b h last l =
    count_start fuel b (find_true_sub_node b.root [] 0 0) h last l (
      find_true_sub_node-Search b.size_unit b.max_depth b.root (unit_pos b h) (root-width b h)
        b.root [] b.max_depth 0 0 (refl, refl, refl) h.reduced (omega (arith, root-width b h)))
