-- ===== src/Tidset.antt =====
-- The growable array of distinct task ids of src/base/tidset.c.
--
-- `tasks` holds the slots below `size`, in order, so `size` is its length; slots from `size` to
-- `capacity` are never read before they are written. `allocated` says that the pointer `tasks` is
-- not NULL. Memory is granted when asked for, and the arguments of a call do not alias.
use lotto.Base.{
  ℕ, zero, suc, ◌+◌, Bool, true, false, not, ◌&&◌, ◌||◌, Option, none, some, List, [], ◌∷◌, ◌++◌,
  ltb, leb, ◌==◌, if◌then◌else◌, length, get_or, set, elem, swap_remove, compacted, Outcome, ok,
  fault, assert_failed, ◌>>=◌, ◌>>◌, assert, in_bounds, take, drop, out_of_bounds,
}
use lotto.Base.Words.{no_task, mul64, add64}
pub mod Loops
pub mod Valid
pub mod Members
pub mod Slots
pub mod Keys
pub mod Image
mod Tests

pub record Tidset : Type 0 where
  pub allocated : Bool
  pub tasks : List ℕ
  pub capacity : ℕ

abbrev pub tidset_init_size : ℕ
tidset_init_size = 4

unfoldable pub init_cap : ℕ → Tidset
init_cap cap = record { allocated = true; tasks = []; capacity = cap }

unfoldable pub init : Tidset
unfolding init_cap
init = init_cap tidset_init_size

-- The memory is freed and the structure zeroed.
unfoldable pub fini : Tidset → Tidset
fini t = record { allocated = false; tasks = []; capacity = 0 }

abbrev pub size : Tidset → ℕ
size t = length t.tasks

unfoldable pub clear : Tidset → Tidset
clear t = record t { tasks = [] }

unfoldable pub get : Tidset → ℕ → Outcome ℕ
get t idx =
    if size t == 0
    then ok no_task
    else (do assert t.allocated; ok (if leb (size t) idx then no_task else get_or t.tasks idx 0))

-- The loop of `set`: the first slot other than `idx` that holds `id` takes `old`. `i` is the slot
-- of the head.
unfoldable pub displace : ℕ → ℕ → ℕ → ℕ → List ℕ → List ℕ
displace i idx id old [] = []
displace i idx id old (x ∷ xs) =
    let rest = displace (suc i) idx id old xs in
    if (x == id) && not (i == idx) then old ∷ xs else x ∷ rest

unfoldable pub set_at : Tidset → ℕ → ℕ → Outcome Tidset
set_at t idx id = if size t == 0 then ok t else (do
  assert t.allocated
  assert (not (id == no_task))
  ok (
      if leb (size t) idx
      then t
      else record t { tasks = set (displace 0 idx id (get_or t.tasks idx 0) t.tasks) idx id }))

-- The first slot from `i` on that holds `id`.
unfoldable pub index_from : ℕ → ℕ → List ℕ → Option ℕ
index_from i id [] = none
index_from i id (x ∷ xs) = let rest = index_from (suc i) id xs in if x == id then some i else rest

unfoldable pub remove : Tidset → ℕ → Outcome (Tidset × Bool)
remove t id = do
  assert ((size t == 0) || t.allocated)
  ok (elim (index_from 0 id t.tasks) [
    | none ↦ (t, false)
    | some i ↦ (record t { tasks = swap_remove i t.tasks }, true)
  ])

abbrev pub has : Tidset → ℕ → Bool
has t id = elem id t.tasks

-- `memcpy` of the old slots into the new array.
unfoldable pub expand : Tidset → ℕ → Outcome Tidset
unfolding init_cap
expand t cap =
    let cap' = if cap == 0 then tidset_init_size else cap in
    if t.allocated
    then (do in_bounds (leb (size t) cap'); ok (record t { capacity = cap' }))
    else ok (init_cap cap')

unfoldable pub insert : Tidset → ℕ → Outcome (Tidset × Bool)
insert t id = do
  assert ((size t == 0) || t.allocated)
  if has t id then ok (t, false) else (do
    t' ← if ltb t.capacity (add64 (size t) 1) then expand t (mul64 t.capacity 2) else ok t
    in_bounds (t'.allocated && ltb (size t') t'.capacity)
    ok (record t' { tasks = t'.tasks ++ id ∷ [] }, true))

unfoldable pub copy : Tidset → Tidset → Outcome Tidset
copy dst src = do
  dst' ← if ltb dst.capacity src.capacity then expand dst src.capacity else ok dst
  in_bounds (leb (size src) dst'.capacity)
  in_bounds ((size src == 0) || dst'.allocated)
  ok (record dst' { tasks = src.tasks })

unfoldable pub filter : Tidset → (ℕ → Bool) → Tidset
filter t predicate = record t { tasks = compacted predicate t.tasks }

unfoldable pub intersect : Tidset → Tidset → Tidset
intersect t₁ t₂ = record t₁ { tasks = compacted (has t₂) t₁.tasks }

unfoldable pub subtract : Tidset → Tidset → Tidset
subtract t₁ t₂ = record t₁ { tasks = compacted (λ x. not (has t₂ x)) t₁.tasks }

-- The loop of `tidset_union` over the slots of the second set.
unfoldable pub insert_all : Tidset → List ℕ → Outcome Tidset
insert_all t [] = ok t
insert_all t (x ∷ xs) = do (t', _) ← insert t x; insert_all t' xs

unfoldable pub union : Tidset → Tidset → Outcome Tidset
unfolding insert_all
union t₁ t₂ = insert_all t₁ t₂.tasks

unfoldable pub has_all : Tidset → List ℕ → Bool
has_all t [] = true
has_all t (x ∷ xs) = let rest = has_all t xs in if not (has t x) then false else rest

unfoldable pub contains_all : Tidset → Tidset → Bool
unfolding has_all
contains_all t₁ t₂ =
    if size t₂ == 0 then true else (if size t₁ == 0 then false else has_all t₁ t₂.tasks)

unfoldable pub equals : Tidset → Tidset → Bool
unfolding contains_all
equals t₁ t₂ = contains_all t₁ t₂ && contains_all t₂ t₁

unfoldable pub make_first : Tidset → ℕ → Outcome Tidset
make_first t id = elim (index_from 0 id t.tasks) [
  | none ↦ fault assert_failed
  | some i ↦
      ok (if i == 0 then t else record t { tasks = set (set t.tasks i (get_or t.tasks 0 0)) 0 id })
]

-- The comparators of `tidset_sort`, as the `int` that they return.
unfoldable pub cmp_lt : ℕ → ℕ → ℕ
cmp_lt ta tb = if ltb ta tb then 1 else 0

unfoldable pub cmp_gt : ℕ → ℕ → ℕ
cmp_gt ta tb = if ltb tb ta then 1 else 0

-- What `marshal` writes, as 64-bit words: the fields `capacity`, `size` and `tasks` (the address
-- `ptr`), then the slots.
unfoldable pub marshal : Tidset → ℕ → List ℕ
marshal t ptr = t.capacity ∷ size t ∷ ptr ∷ t.tasks

unfoldable pub msize : Tidset → ℕ
msize t = 3 + size t

-- Reads such an image into `t`, and returns what follows it. Slots are not written through NULL.
unfoldable pub unmarshal : Tidset → List ℕ → Outcome (Tidset × List ℕ)
unmarshal t (cap ∷ n ∷ _ ∷ rest) = do
  assert (leb n cap)
  let allocated = if ltb t.capacity cap then true else t.allocated
  in_bounds (leb n (length rest))
  in_bounds ((n == 0) || allocated)
  ok (
    record {
      allocated = allocated;
      tasks = take n rest;
      capacity = if ltb t.capacity cap then cap else t.capacity;
    },
    drop n rest,
  )
unmarshal t _ = fault out_of_bounds
