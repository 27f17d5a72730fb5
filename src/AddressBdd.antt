-- ===== src/AddressBdd.antt =====
-- Sets of addresses as binary decision diagrams (src/base/address_bdd.c,
-- include/lotto/base/address_bdd.h). Every node that `_node_split` allocates is stored in one
-- place only, so the diagram is a tree, and two pointers of it are equal just when both are the
-- same terminal. The parent pointers serve the iterator only, which keeps the chain of them.

mod Blocks
mod Canonical
mod Check
pub mod Iterator
mod Sets
mod Tests
mod Update
use Prim.Native.Nat.{ℕ, zero, suc, ◌+◌, ◌-◌, ◌*◌, ◌/◌, ◌^◌}
use mathlib.Core.Path.{◌≡◌}
use mathlib.Core.Bool.{Bool, true, false, not, ◌&&◌, ◌||◌}
use mathlib.Core.List.{List, [], ◌∷◌, ◌++◌}
use mathlib.Core.Option.{Option, none, some}
use lotto.Base.{
  ◌==◌, ltb, leb, if◌then◌else◌, Outcome, ok, fault, assert, ◌>>=◌, ◌>>◌, undefined_shift,
  out_of_fuel,
}
use lotto.Base.Words.{u64_mod, add64}
use lotto.Base.Bits.{has_bit, flip_bit, set_bit, clear_bit}

-- A pointer to a node: ADDRESS_BDD_FALSE, ADDRESS_BDD_TRUE, or a node with its children for a
-- clear and for a set bit.
pub data Node : Type 0 where
  terminal : Bool → Node
  node : Node → Node → Node

pub record AddressBdd : Type 0 where
  root : Node
  max_depth : ℕ
  size_unit : ℕ

-- `~(uintptr_t)0`
abbrev pub last_address : ℕ
last_address = 0xffff_ffff_ffff_ffff

abbrev pub leading_one : ℕ
leading_one = 0x8000_0000_0000_0000

unfoldable pub node_is_terminal : Node → Bool
node_is_terminal (terminal v) = true
node_is_terminal (node zero_child one_child) = false

-- `node == (void *)value`
unfoldable pub is_value : Node → Bool → Bool
is_value (terminal true) v = v
is_value (terminal false) v = not v
is_value (node zero_child one_child) v = false

-- The children of what `_node_split` leaves behind the pointer, or of the node that stands there.
unfoldable pub split : Node → Node × Node
split (terminal v) = (terminal v, terminal v)
split (node zero_child one_child) = (zero_child, one_child)

-- The node with these children, unless the two pointers are equal.
unfoldable pub merge : Node → Node → Node
merge (terminal true) (terminal true) = terminal true
merge (terminal false) (terminal false) = terminal false
merge zero_child one_child = node zero_child one_child

-- `_address_bdd_set_range`. The recursion goes down one bit at a time; it stops where the block
-- of addresses below the node lies inside or outside the range.
unfoldable pub set_range : ℕ → Node → ℕ → ℕ → ℕ → ℕ → ℕ → Bool → Outcome Node
set_range zero t addr_start addr_end start end bit v = fault out_of_fuel
set_range (suc fuel) t addr_start addr_end start end bit v =
    elim (ltb end addr_start || ltb addr_end start || is_value t v) [
      | true ↦ ok t
      | false ↦ elim (leb addr_start start && leb end addr_end) [
        | true ↦ ok (terminal v)
        | false ↦ do
          zero_child ←
              set_range fuel (split t).0 addr_start addr_end start (flip_bit end bit) (bit / 2) v
          one_child ←
              set_range fuel (split t).1 addr_start addr_end (flip_bit start bit) end (bit / 2) v
          ok (merge zero_child one_child)
      ]
    ]

-- `_address_bdd_check_range`
unfoldable pub check_range : Node → ℕ → ℕ → ℕ → ℕ → ℕ → Bool → Bool
check_range (terminal u) addr_start addr_end start end bit v =
    ltb end addr_start || ltb addr_end start || is_value (terminal u) v
check_range (node zero_child one_child) addr_start addr_end start end bit v =
    ltb end addr_start
    || ltb addr_end start
    || (check_range zero_child addr_start addr_end start (flip_bit end bit) (bit / 2) v
        && check_range one_child addr_start addr_end (flip_bit start bit) end (bit / 2) v)

-- `_floor_address` and `_ceil_address`, where the unit is a power of two.
unfoldable pub floor_address : ℕ → ℕ → ℕ
floor_address addr unit = addr / unit * unit

unfoldable pub ceil_address : ℕ → ℕ → ℕ
ceil_address addr unit = add64 (floor_address addr unit) (unit - 1)

-- `addr + size - 1` for a size that is not zero
unfoldable pub end_address : ℕ → ℕ → ℕ
end_address addr size = add64 addr (size + last_address)

-- `address_bdd_new`: at depth 0 the unit would be `1 << 64`, which C leaves undefined.
unfoldable pub new_bdd : ℕ → Outcome AddressBdd
new_bdd max_depth =
    assert (leb max_depth 64)
    >> (if max_depth == 0
        then fault undefined_shift
        else ok (record {
          root = terminal false;
          max_depth = max_depth;
          size_unit = 2 ^ (64 - max_depth);
        }))

-- `_address_bdd_set`; 65 levels are enough for the 64 bits of an address.
unfoldable pub set_value : AddressBdd → ℕ → ℕ → Bool → Outcome AddressBdd
set_value b addr size v = if size == 0 then ok b else (do
  t ←
      set_range 65 b.root (floor_address addr b.size_unit)
        (ceil_address (end_address addr size) b.size_unit) 0 last_address leading_one v
  ok (record b { root = t }))

unfoldable pub address_bdd_set : AddressBdd → ℕ → ℕ → Outcome AddressBdd
address_bdd_set b addr size = set_value b addr size true

unfoldable pub address_bdd_unset : AddressBdd → ℕ → ℕ → Outcome AddressBdd
address_bdd_unset b addr size = set_value b addr size false

unfoldable pub get_and : AddressBdd → ℕ → ℕ → Bool
get_and b addr size =
    check_range b.root addr (end_address addr size) 0 last_address leading_one true

unfoldable pub get_or : AddressBdd → ℕ → ℕ → Bool
get_or b addr size =
    not (check_range b.root addr (end_address addr size) 0 last_address leading_one false)

-- `_get_masked`
unfoldable pub masked_below : ℕ → ℕ → Node → ℕ → ℕ
masked_below addr mask (terminal true) bit = addr
masked_below addr mask (terminal false) bit = 0
masked_below addr mask (node zero_child one_child) bit =
    let below_zero = masked_below addr mask zero_child (bit / 2) in
    let below_one = masked_below addr mask one_child (bit / 2) in
    if has_bit mask bit
    then if has_bit addr bit then below_one else below_zero
    else if not (below_one == 0)
    then set_bit below_one bit
    else clear_bit below_zero bit

unfoldable pub get_masked : AddressBdd → ℕ → ℕ → ℕ
get_masked b addr mask = masked_below addr mask b.root leading_one

-- What `_address_bdd_range_print` logs: the first and the last address of a run.
pub data Line : Type 0 where
  first : ℕ → Line
  last : ℕ → Line

unfoldable pub range_print : Node → ℕ → ℕ → ℕ → Bool → Bool → List Line × Bool
range_print (terminal u) start end bit v interval_open =
    if is_value (terminal u) v
    then (if interval_open then [] else first start ∷ [], true)
    else (if interval_open then last (start - 1) ∷ [] else [], false)
range_print (node zero_child one_child) start end bit v interval_open =
    let (lines, still_open) =
      range_print zero_child start (flip_bit end bit) (bit / 2) v interval_open in
    let (more, open_at_end) =
      range_print one_child (flip_bit start bit) end (bit / 2) v still_open in
    (lines ++ more, open_at_end)

-- `address_bdd_print`
unfoldable pub print_bdd : AddressBdd → List Line
print_bdd b =
    let (lines, open_at_end) = range_print b.root 0 last_address leading_one true false in
    lines ++ (if open_at_end then last last_address ∷ [] else [])
