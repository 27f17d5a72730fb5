-- ===== src/AddressBdd/Iterator.antt =====
-- The iterator over the addresses of a diagram (src/base/address_bdd.c). `parents` is the chain
-- of parent pointers from `parent_node` up; the empty list stands for NULL.

mod Advance
pub mod Count
pub mod Next
mod Paths
use Prim.Native.Nat.{ℕ, zero, suc, ◌+◌, ◌*◌, ◌/◌, ◌%◌}
use mathlib.Core.Bool.{Bool, true, false, not, ◌&&◌, ◌||◌}
use mathlib.Core.List.{List, [], ◌∷◌}
use mathlib.Core.Option.{Option, none, some}
use lotto.Base.{
  ◌==◌, if◌then◌else◌, Outcome, ok, fault, assert, ◌>>=◌, ◌>>◌, out_of_fuel, out_of_bounds,
}
use lotto.Base.Words.{u64_mod, add64}
use lotto.Base.Bits.{has_bit, flip_bit, set_bit}
use lotto.AddressBdd.{Node, terminal, node, AddressBdd, is_value, last_address, leading_one}

pub record Iterator : Type 0 where
  pub node : Node
  pub parents : List Node
  pub current_bit : ℕ
  pub offset : ℕ
  pub base : ℕ

-- The bit of the children's level; the root's own bit is 0.
unfoldable pub lower_bit : ℕ → ℕ
lower_bit bit = if bit == 0 then leading_one else bit / 2

-- `_find_true_sub_node`: the iterator at the first TRUE node, or `none` for false.
unfoldable pub find_true_sub_node : Node → List Node → ℕ → ℕ → Option Iterator
find_true_sub_node (terminal true) parents bit base = some (record {
  node = terminal true;
  parents = parents;
  current_bit = bit;
  offset = if base == 0 then 1 else 0;
  base = base;
})
find_true_sub_node (terminal false) parents bit base = none
find_true_sub_node (node zero_child one_child) parents bit base =
    let chain = node zero_child one_child ∷ parents in
    let below_one =
      find_true_sub_node one_child chain (lower_bit bit) (set_bit base (lower_bit bit)) in
    elim (find_true_sub_node zero_child chain (lower_bit bit) base) [
      | some found ↦ some found
      | none ↦ below_one
    ]

-- The iterator after the first search; one that has found nothing is at its end.
unfoldable pub start_of : AddressBdd → Option Iterator → Iterator
start_of b (some found) = found
start_of b none = record {
  node = b.root;
  parents = [];
  current_bit = 0;
  offset = last_address;
  base = 0;
}

-- `address_bdd_iterator`
unfoldable pub address_bdd_iterator : AddressBdd → Iterator
address_bdd_iterator b = start_of b (find_true_sub_node b.root [] 0 0)

-- `parent->one`; every parent is a node.
unfoldable pub one_child_of : Node → Outcome Node
one_child_of (terminal v) = fault out_of_bounds
one_child_of (node zero_child one_child) = ok one_child

-- `_find_next_true_node`: up to the next parent whose second child is not yet visited, and down
-- to the first TRUE node there.
unfoldable pub find_next_true_node : ℕ → Iterator → Outcome (Bool × Iterator)
find_next_true_node zero it = fault out_of_fuel
find_next_true_node (suc fuel) it = elim it.parents [
  | [] ↦ ok (false, it)
  | parent ∷ above ↦ elim (has_bit it.base it.current_bit) [
    | true ↦ find_next_true_node fuel (record it {
      base = flip_bit it.base it.current_bit;
      current_bit = (it.current_bit * 2) % u64_mod;
      node = parent;
      parents = above;
    })
    | false ↦ do
      one ← one_child_of parent
      elim (find_true_sub_node one (parent ∷ above) it.current_bit
          (flip_bit it.base it.current_bit)) [
            | some found ↦ ok (true, found)
            | none ↦
                find_next_true_node fuel
                  (record it { base = flip_bit it.base it.current_bit; node = one })
          ]
  ]
]

unfoldable pub return_address : Iterator → Outcome (ℕ × Iterator)
return_address it =
    assert (is_value it.node true)
    >> ok (add64 it.base it.offset, record it { offset = add64 it.offset 1 })

-- `address_bdd_iterator_next`: two steps for each of 64 levels, and one at the root.
unfoldable pub iterator_next : Iterator → Outcome (ℕ × Iterator)
iterator_next it =
    if add64 it.base it.offset == last_address
    then ok (0, it)
    else elim (it.offset == it.current_bit) [
      | true ↦ do
        (found, moved) ← find_next_true_node 129 it
        if found then return_address moved else ok (0, moved)
      | false ↦ return_address it
    ]

-- The loop of `address_bdd_size`
unfoldable pub count_from : ℕ → Iterator → Outcome ℕ
count_from zero it = fault out_of_fuel
count_from (suc fuel) it = do
  (address, moved) ← iterator_next it
  elim (address == 0) [ true ↦ ok 0 | false ↦ do n ← count_from fuel moved; ok (suc n) ]

-- `address_bdd_size`; the fuel is for one more address than the set has.
unfoldable pub address_bdd_size : ℕ → AddressBdd → Outcome ℕ
address_bdd_size fuel b = count_from fuel (address_bdd_iterator b)
