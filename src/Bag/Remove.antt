-- ===== src/Bag/Remove.antt =====
-- `bag_remove` of src/base/bag.c on a list that is well linked in the heap.
use lotto.Base.{
  ℕ, zero, suc, ◌-◌, ◌≤◌, ◌≡◌, ◌≢◌, ◌∙◌, true, false, none, some, List, [], ◌∷◌, ◌==◌, length, elem,
  IsDistinct, ==_refl, ok, fault, freed_memory, arith, Bool-cases, inl, inr,
}
use lotto.Map.{lookup, unlink, write}
use lotto.Map.Laws.{keys, count-unlink, lookup-none, lookup-write, keys-write}
use lotto.Bag.{Bag, Item, null, load, find_prev, drop_item, remove_loop, remove}
use lotto.Bag.Chain.{Chain, load-found, find_prev-found}

-- The heap has one cell for each address, and `addrs` are the items of the list.
pub record Holds (b : Bag) (addrs : List ℕ) : Type 0 where
  pub distinct : IsDistinct (keys b.cells)
  pub linked : Chain b.cells b.tail addrs
  pub fits : length addrs ≤ length b.cells

unlinked :
    (cells : List (ℕ × Item)) (i : ℕ) (p : Item)
    → IsDistinct (keys cells)
    → lookup i cells ≡ some p
    → load (unlink i cells) i ≡ fault freed_memory
unfolding load
unlinked cells i p d e =
    let gone : lookup i (unlink i cells) ≡ none =
      lookup-none i (unlink i cells) (ground (arith, count-unlink i i cells p e, d i, ==_refl i)) in
    ground (arith, gone)

drop_tail :
    (fuel : ℕ) (b : Bag) (i : ℕ) (p : Item)
    → load b.cells i ≡ ok p
    → (b.tail == i) ≡ true
    → drop_item fuel b i
      ≡ ok (record { cells = unlink i b.cells; tail = p.next; nitems = b.nitems - 1 })
unfolding drop_item
drop_tail fuel b i p e t = ground (arith, e)

drop_inner :
    (fuel : ℕ) (b : Bag) (i prev : ℕ) (p : Item)
    → load b.cells i ≡ ok p
    → (b.tail == i) ≡ false
    → find_prev fuel b.cells i b.tail ≡ ok prev
    → drop_item fuel b i
      ≡ ok (record b {
        cells = unlink i (write prev (λ q. record q { next = p.next }) b.cells);
        nitems = b.nitems - 1;
      })
unfolding drop_item
drop_inner fuel b i prev p e t q = ground (arith, e, q)

-- After the item is dropped its cell is gone.
drop_item-gone :
    (fuel : ℕ) (b : Bag) (addrs : List ℕ) (i : ℕ) (p : Item)
    → Holds b addrs
    → elem i addrs ≡ true
    → length addrs ≤ fuel
    → lookup i b.cells ≡ some p
    → (r : Bag) × (drop_item fuel b i ≡ ok r) × (load r.cells i ≡ fault freed_memory)
drop_item-gone fuel b addrs i p v m h e = elim (Bool-cases (b.tail == i)) [
  | inl first ↦
      (_, drop_tail fuel b i p (load-found b.cells i p e) first, unlinked b.cells i p v.distinct e)
  | inr inner ↦
      let (prev, q) = find_prev-found fuel b.cells i b.tail addrs v.linked m (ground arith) h in
      let f : Item → Item = λ x. record x { next = p.next } in
      (
        _,
        drop_inner fuel b i prev p (load-found b.cells i p e) inner q,
        elim (Bool-cases (prev == i)) [
          | inl own ↦
              unlinked (write prev f b.cells) i (f p) (rw (keys-write prev f b.cells) v.distinct)
                (ground (arith, lookup-write prev i f b.cells, e))
          | inr other ↦
              unlinked (write prev f b.cells) i p (rw (keys-write prev f b.cells) v.distinct)
                (ground (arith, lookup-write prev i f b.cells, e))
        ],
      )
]

loop_past :
    (fuel : ℕ) (b : Bag) (i it : ℕ) (p : Item)
    → it ≢ null
    → (it == i) ≡ false
    → load b.cells it ≡ ok p
    → remove_loop (suc fuel) b i it ≡ remove_loop fuel b i p.next
unfolding remove_loop
loop_past fuel b i it p n o e = ground (arith, e)

loop_at :
    (fuel : ℕ) (b : Bag) (i : ℕ) (r : Bag)
    → i ≢ null
    → drop_item (length b.cells) b i ≡ ok r
    → load r.cells i ≡ fault freed_memory
    → remove_loop (suc fuel) b i i ≡ fault freed_memory
unfolding remove_loop
loop_at fuel b i r n e g = ground (arith, e, g, ==_refl i)

module _ (b : Bag) (addrs : List ℕ) (i : ℕ) (v : Holds b addrs) (m : elem i addrs ≡ true) where
  -- From an item of the list on, while the item to remove is ahead.
  loop_freed :
      (fuel it : ℕ) (l : List ℕ)
      → Chain b.cells it l
      → elem i l ≡ true
      → length l ≤ fuel
      → remove_loop fuel b i it ≡ fault freed_memory
  loop_freed fuel it [] c h k = absurd (ground arith)
  loop_freed zero it (a ∷ l) c h k = absurd (omega arith)
  loop_freed (suc fuel) it (a ∷ l) (same, n, (p, e, c)) h k = elim (Bool-cases (it == i)) [
    | inl here ↦
        let q : it ≡ i = ground arith in
        let (r, d, g) = drop_item-gone (length b.cells) b addrs i p v m v.fits (rw (← q) e) in
        rw q (loop_at fuel b i r (rw q at n) d g)
    | inr past ↦
        loop_past fuel b i it p n past (load-found b.cells it p e)
        ∙ loop_freed fuel p.next l c (ground arith) (omega arith)
  ]

-- On a bag whose list is well linked in the heap, removing an item of the list reads freed memory:
-- the loop asks the item that it has just freed for the next one.
pub remove-freed :
    (b : Bag) (addrs : List ℕ) (i : ℕ)
    → Holds b addrs
    → elem i addrs ≡ true
    → i ≢ null
    → remove b i ≡ fault freed_memory
unfolding remove
remove-freed b addrs i v m n =
    let freed =
      loop_freed b addrs i v m (suc (length b.cells)) b.tail addrs v.linked m
        (omega (arith, v.fits)) in
    ground (arith, freed)
