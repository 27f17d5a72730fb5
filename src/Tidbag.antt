-- ===== src/Tidbag.antt =====
-- The growable array of task ids, with repetition, of src/base/tidbag.c.
--
-- The representation is that of the task set: `tasks` holds the slots below `size`, in order;
-- `allocated` says that the pointer `tasks` is not NULL. Memory is granted when asked for, and the
-- arguments of a call do not alias.
use lotto.Base.{
  ℕ, zero, suc, ◌+◌, Bool, true, false, not, ◌&&◌, ◌||◌, Option, none, some, List, [], ◌∷◌, ◌++◌,
  ltb, leb, ◌==◌, if◌then◌else◌, length, get_or, set, elem, swap_remove, compacted, Outcome, ok,
  fault, assert_failed, ◌>>=◌, ◌>>◌, assert, in_bounds, take, drop, out_of_bounds,
}
use lotto.Base.Words.{no_task, mul64, add64}
pub mod Laws
pub mod Image
mod Tests

pub record Tidbag : Type 0 where
  pub allocated : Bool
  pub tasks : List ℕ
  pub capacity : ℕ

abbrev pub tidbag_init_size : ℕ
tidbag_init_size = 4

unfoldable pub init_cap : ℕ → Tidbag
init_cap cap = record { allocated = true; tasks = []; capacity = cap }

unfoldable pub init : Tidbag
unfolding init_cap
init = init_cap tidbag_init_size

unfoldable pub fini : Tidbag → Tidbag
fini b = record { allocated = false; tasks = []; capacity = 0 }

abbrev pub size : Tidbag → ℕ
size b = length b.tasks

unfoldable pub clear : Tidbag → Tidbag
clear b = record b { tasks = [] }

unfoldable pub get : Tidbag → ℕ → Outcome ℕ
get b idx =
    if size b == 0
    then ok no_task
    else (do assert b.allocated; ok (if leb (size b) idx then no_task else get_or b.tasks idx 0))

unfoldable pub set_at : Tidbag → ℕ → ℕ → Outcome Tidbag
set_at b idx id = if size b == 0 then ok b else (do
  assert b.allocated
  assert (not (id == no_task))
  ok (if leb (size b) idx then b else record b { tasks = set b.tasks idx id }))

-- The first slot from `i` on that holds `id`.
unfoldable pub index_from : ℕ → ℕ → List ℕ → Option ℕ
index_from i id [] = none
index_from i id (x ∷ xs) = let rest = index_from (suc i) id xs in if x == id then some i else rest

unfoldable pub remove : Tidbag → ℕ → Outcome Tidbag
remove b id = do
  assert ((size b == 0) || b.allocated)
  ok (elim (index_from 0 id b.tasks) [
    | none ↦ b
    | some i ↦ record b { tasks = swap_remove i b.tasks }
  ])

abbrev pub has : Tidbag → ℕ → Bool
has b id = elem id b.tasks

-- A request below the size in use changes nothing.
unfoldable pub expand : Tidbag → ℕ → Outcome Tidbag
unfolding init_cap
expand b cap =
    let cap' = if cap == 0 then tidbag_init_size else cap in
    if b.allocated
    then ok (if ltb cap' (size b) then b else record b { capacity = cap' })
    else ok (init_cap cap')

unfoldable pub insert : Tidbag → ℕ → Outcome Tidbag
insert b id = do
  assert ((size b == 0) || b.allocated)
  b' ← if ltb b.capacity (add64 (size b) 1) then expand b (mul64 b.capacity 2) else ok b
  in_bounds (b'.allocated && ltb (size b') b'.capacity)
  ok (record b' { tasks = b'.tasks ++ id ∷ [] })

unfoldable pub copy : Tidbag → Tidbag → Outcome Tidbag
copy dst src = do
  dst' ← if ltb dst.capacity src.capacity then expand dst src.capacity else ok dst
  in_bounds (leb (size src) dst'.capacity)
  in_bounds ((size src == 0) || dst'.allocated)
  ok (record dst' { tasks = src.tasks })

unfoldable pub filter : Tidbag → (ℕ → Bool) → Tidbag
filter b predicate = record b { tasks = compacted predicate b.tasks }

unfoldable pub has_all : Tidbag → List ℕ → Bool
has_all b [] = true
has_all b (x ∷ xs) = let rest = has_all b xs in if not (has b x) then false else rest

unfoldable pub equals : Tidbag → Tidbag → Bool
unfolding has_all
equals b₁ b₂ =
    if not (size b₂ == size b₁)
    then false
    else (if (size b₂ == 0) && (size b₁ == 0) then true else has_all b₁ b₂.tasks)

-- `marshable_t` stands in front of the fields: six 64-bit words.
abbrev pub header_words : ℕ
header_words = 6

-- What `marshal` writes, as 64-bit words: the whole structure, `header` for `marshable_t` and
-- `ptr` for the address in `tasks`, then the slots.
unfoldable pub marshal : Tidbag → List ℕ → ℕ → List ℕ
marshal b header ptr = header ++ b.capacity ∷ size b ∷ ptr ∷ b.tasks

unfoldable pub msize : Tidbag → ℕ
msize b = header_words + 3 + size b

pub record Unmarshalled : Type 0 where
  pub bag : Tidbag
  -- the address that the call frees
  pub freed : Option ℕ
  pub rest : List ℕ

unfoldable pub unmarshal_payload : List ℕ → Outcome Unmarshalled
unmarshal_payload (cap ∷ n ∷ ptr ∷ rest) = do
  assert (leb n cap)
  in_bounds (leb n (length rest))
  ok (record {
    bag = record { allocated = true; tasks = take n rest; capacity = cap };
    freed = if not (ptr == 0) then some ptr else none;
    rest = drop n rest;
  })
unmarshal_payload _ = fault out_of_bounds

-- All fields are overwritten, `tasks` too, before the array is freed and a new one taken.
unfoldable pub unmarshal : Tidbag → List ℕ → Outcome Unmarshalled
unfolding unmarshal_payload
unmarshal b image = unmarshal_payload (drop header_words image)
