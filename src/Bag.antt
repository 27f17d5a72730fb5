-- ===== src/Bag.antt =====
-- The linked list of items of src/base/bag.c, with its items in a heap.
--
-- A pointer is an address, 0 is NULL. `cells` are the items of the bag that are allocated: a read of
-- an address that is not among them is a read of freed memory. The addresses that `sys_calloc`
-- returns are arguments. Loops over the list run on fuel; a bag has no more items than cells.
use lotto.Base.{
  ℕ, zero, suc, ◌+◌, ◌-◌, Bool, true, false, not, none, some, List, [], ◌∷◌, ◌==◌, if◌then◌else◌,
  length, Outcome, ok, fault, freed_memory, out_of_fuel, out_of_bounds, ◌>>=◌, ◌>>◌, assert,
}
use lotto.Map.{lookup, unlink, write}
pub mod Chain
pub mod Remove
mod Tests

abbrev pub null : ℕ
null = 0

-- `payload` is what follows the fields of `bagitem_t`.
pub record Item : Type 0 where
  pub next : ℕ
  pub payload : List ℕ

pub record Bag : Type 0 where
  pub cells : List (ℕ × Item)
  pub tail : ℕ
  pub nitems : ℕ

-- The memory of a new bag has no items.
unfoldable pub init : Bag
init = record { cells = []; tail = null; nitems = 0 }

unfoldable pub load : List (ℕ × Item) → ℕ → Outcome Item
unfolding lookup
load cells addr = elim (lookup addr cells) [ none ↦ fault freed_memory | some i ↦ ok i ]

-- `addr` is what `sys_calloc` returns, and `zeroed` the payload there.
unfoldable pub add : Bag → ℕ → List ℕ → Outcome Bag
add b addr zeroed = do
  assert (not (addr == null))
  ok (record {
    cells = (addr, record { next = b.tail; payload = zeroed }) ∷ b.cells;
    tail = addr;
    nitems = b.nitems + 1;
  })

-- The inner loop of `bag_remove`: the item in front of `i`, from `prev` on.
unfoldable pub find_prev : ℕ → List (ℕ × Item) → ℕ → ℕ → Outcome ℕ
unfolding load
find_prev zero cells i prev = fault out_of_fuel
find_prev (suc fuel) cells i prev = do
  p ← load cells prev
  let rest = find_prev fuel cells i p.next
  if p.next == i then ok prev else rest

-- The item `i` leaves the list and is freed.
unfoldable pub drop_item : ℕ → Bag → ℕ → Outcome Bag
unfolding load find_prev write unlink
drop_item fuel b i = do
  item ← load b.cells i
  b' ← if b.tail == i then ok (record b { tail = item.next }) else (do
    prev ← find_prev fuel b.cells i b.tail
    ok (record b { cells = write prev (λ p. record p { next = item.next }) b.cells }))
  ok (record b' { cells = unlink i b'.cells; nitems = b.nitems - 1 })

-- The outer loop: it goes on from the item that it has dropped.
unfoldable pub remove_loop : ℕ → Bag → ℕ → ℕ → Outcome Bag
unfolding load drop_item
remove_loop zero b i it = fault out_of_fuel
remove_loop (suc fuel) b i it = if it == null then ok b else (do
  b' ← if it == i then drop_item (length b.cells) b i else ok b
  here ← load b'.cells it
  remove_loop fuel b' i here.next)

unfoldable pub remove : Bag → ℕ → Outcome Bag
unfolding remove_loop
remove b i = do assert (not (i == null)); remove_loop (suc (length b.cells)) b i b.tail

-- The loop of `bag_clear`.
unfoldable pub clear_loop : ℕ → Bag → Outcome Bag
unfolding load unlink
clear_loop zero b = fault out_of_fuel
clear_loop (suc fuel) b = if b.tail == null then ok (record b { nitems = 0 }) else (do
  t ← load b.cells b.tail
  clear_loop fuel (record b { cells = unlink b.tail b.cells; tail = t.next }))

unfoldable pub clear : Bag → Outcome Bag
unfolding clear_loop
clear b = clear_loop (suc (length b.cells)) b

-- The loop of `bag_copy` from the item `it` of the source on; `addrs` are what `sys_calloc` returns.
unfoldable pub copy_loop : Bag → List (ℕ × Item) → ℕ → List ℕ → Outcome Bag
unfolding load add
copy_loop dst cells it [] = if it == null then ok dst else fault out_of_fuel
copy_loop dst cells it (addr ∷ addrs) =
    if it == null
    then ok dst
    else (do i ← load cells it; dst' ← add dst addr i.payload; copy_loop dst' cells i.next addrs)
