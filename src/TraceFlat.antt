-- ===== src/TraceFlat.antt =====
-- The flat trace of src/base/trace_flat.c: a doubly linked queue of records on the heap.
--
-- A pointer is a number, and NULL is 0. `nodes` is the part of the heap that holds the nodes of the trace
-- and `records` the part that holds records. The address that `sys_malloc` returns is an argument, so is
-- `stream_write`. The trace pointer itself is not NULL. Loops run on fuel.
use lotto.Base.{
  ℕ, zero, suc, ◌+◌, ◌/◌, ◌%◌, Bool, true, false, not, ◌&&◌, ◌||◌, Option, none, some, List, [],
  ◌∷◌, ◌==◌, if◌then◌else◌, Outcome, ok, fault, out_of_bounds, freed_memory, out_of_fuel, fatal,
  ◌>>=◌, ◌>>◌, assert,
}
use Prim.Native.Nat.{bit_and}
pub mod Linked
pub mod Queue
pub mod Append
pub mod Pop
pub mod Forget
pub mod Search
pub mod Simulation
mod Tests

-- `record_t`: its size is the length of the data, and the field `next`, which shall not be used, is left
-- out.
pub record Record : Type 0 where
  pub id : ℕ
  pub clk : ℕ
  pub chain_id : ℕ
  pub type_id : ℕ
  pub reason : ℕ
  pub kind : ℕ
  pub pc : ℕ
  pub data_bytes : List ℕ

pub record Node : Type 0 where
  pub prev : ℕ
  pub next : ℕ
  pub item : ℕ

pub record Trace : Type 0 where
  pub nodes : ℕ → Option Node
  pub records : ℕ → Option Record
  pub head : ℕ
  pub tail : ℕ

-- Writing to the heap, and freeing.
abbrev pub update {ℓ} : {A : Type ℓ} → (ℕ → Option A) → ℕ → Option A → ℕ → Option A
update heap p v x = if p == x then v else heap x

-- Reading through a pointer.
unfoldable pub load {ℓ} : {A : Type ℓ} → (ℕ → Option A) → ℕ → Outcome A
load heap p =
    if p == 0
    then fault out_of_bounds
    else (elim (heap p) [ none ↦ fault freed_memory | some v ↦ ok v ])

abbrev pub put : Trace → ℕ → Node → Trace
put t p n = record t { nodes = update t.nodes p (some n) }

unfoldable pub free_node : Trace → ℕ → Outcome Trace
unfolding load
free_node t p = do _ ← load t.nodes p; ok (record t { nodes = update t.nodes p none })

unfoldable pub free_record : Trace → ℕ → Outcome Trace
unfolding load
free_record t p = do _ ← load t.records p; ok (record t { records = update t.records p none })

-- `trace_flat_create`
unfoldable pub create : (ℕ → Option Record) → Trace
create records = record { nodes = λ p. none; records = records; head = 0; tail = 0 }

abbrev pub make_node : Trace → ℕ → ℕ → Trace
make_node t p item = put t p (record { prev = 0; next = 0; item = item })

-- `p` is the address of the new node.
unfoldable pub append : Trace → ℕ → ℕ → Outcome Trace
unfolding load
append t p item = do
  let made = make_node t p item
  linked ←
      if made.head == 0
      then ok (record made { head = p })
      else (do last ← load made.nodes made.tail; ok (put made made.tail (record last { next = p })))
  node ← load linked.nodes p
  let back = put linked p (record node { prev = linked.tail })
  ok (record back { tail = p })

-- The new head has no node before it.
abbrev pub behead : Trace → Outcome Trace
behead t =
    if t.head == 0
    then ok t
    else (do node ← load t.nodes t.head; ok (put t t.head (record node { prev = 0 })))

unfoldable pub pop : Trace → Outcome (Trace × ℕ)
unfolding load free_node
pop t = if t.head == 0 then ok (t, 0) else (do
  head ← load t.nodes t.head
  moved ← behead (record t { head = head.next })
  let ended = record moved { tail = if moved.tail == t.head then moved.head else moved.tail }
  popped ← load ended.nodes t.head
  freed ← free_node ended t.head
  ok (freed, popped.item))

unfoldable pub advance : Trace → Outcome Trace
unfolding pop free_record
advance t = do (t', item) ← pop t; if item == 0 then ok t' else free_record t' item

-- `(kind & filter) == 0` is false.
abbrev pub selects : ℕ → ℕ → Bool
selects kind filter = not (bit_and kind filter == 0)

-- `RECORD_ANY`
abbrev pub record_any : ℕ
record_any = 4294967295

unfoldable pub next : ℕ → Trace → ℕ → Outcome (Trace × ℕ)
unfolding load advance
next zero t filter = fault out_of_fuel
next (suc fuel) t filter = if t.head == 0 then ok (t, 0) else (do
  node ← load t.nodes t.head
  r ← load t.records node.item
  if selects r.kind filter then ok (t, node.item) else (do t' ← advance t; next fuel t' filter))

-- The loop of `_clear`.
unfoldable pub clear_all : ℕ → Trace → Outcome Trace
unfolding next advance
clear_all zero t = fault out_of_fuel
clear_all (suc fuel) t = do
  (t', item) ← next (suc fuel) t record_any
  if item == 0 then ok t' else (do t'' ← advance t'; clear_all fuel t'')

unfoldable pub clear : ℕ → Trace → Outcome Trace
unfolding clear_all
clear fuel t = do
  t' ← if t.head == 0 then ok t else clear_all fuel t
  assert (t'.head == 0)
  assert (t'.tail == 0)
  ok t'

unfoldable pub last : Trace → Outcome ℕ
unfolding load
last t = if t.tail == 0 then ok 0 else (do node ← load t.nodes t.tail; ok node.item)

-- The tail is taken off the queue.
abbrev pub cut_tail : Trace → Outcome Trace
cut_tail t = if t.tail == t.head then ok (record t { head = 0; tail = 0 }) else (do
  tail ← load t.nodes t.tail
  before ← load t.nodes tail.prev
  let cut = record t { tail = tail.prev }
  ok (put cut cut.tail (record before { next = 0 })))

unfoldable pub forget : Trace → Outcome Trace
unfolding load free_record free_node
forget t = if t.tail == 0 then ok t else (do
  cut ← cut_tail t
  tail ← load cut.nodes t.tail
  freed ← free_record cut tail.item
  free_node freed t.tail)

-- The loop of `_save_to`: `write` is the stream's `stream_write`, with the number of bytes it wrote.
unfoldable pub save_from {ℓ} : {S : Type ℓ} → (S → Record → S × ℕ) → ℕ → Trace → ℕ → S → Outcome S
unfolding load
save_from write zero t p out = fault out_of_fuel
save_from write (suc fuel) t p out = if p == 0 then ok out else (do
  node ← load t.nodes p
  r ← load t.records node.item
  let (out', written) = write out r
  if written == 0 then fault fatal else save_from write fuel t node.next out')

unfoldable pub save_to {ℓ} : {S : Type ℓ} → (S → Record → S × ℕ) → ℕ → Trace → S → Outcome S
unfolding save_from
save_to write fuel t out = save_from write fuel t t.head out
