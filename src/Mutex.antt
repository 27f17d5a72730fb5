-- ===== src/Mutex.antt =====
-- The mutex handler of modules/mutex/src/handler.c: who owns each mutex, who waits for it, and which
-- tasks the sequencer may not pick.
--
-- The state is the static `_state`; a pointer to a `struct mtx` is its key in the map. `count` is
-- an `int` whose 2^31 nested acquisitions are out of reach. Log lines are left out.
use lotto.Base.{
  ℕ, zero, suc, ◌+◌, ◌-◌, Bool, true, false, not, ◌&&◌, ◌||◌, Option, none, some, List, [], ◌∷◌,
  ltb, ◌==◌, if◌then◌else◌, Outcome, ok, fault, assert_failed, out_of_bounds, fatal, out_of_fuel,
  ◌>>=◌, ◌>>◌, assert,
}
use lotto.Base.Words.{no_task}
use lotto.Map
use lotto.Map.{Map, register, deregister, modify, find, tid_find}
use lotto.Tidset
use lotto.Tidset.{Tidset, has, subtract, insert, remove, size, fini}
pub mod Handle
pub mod Find
pub mod Valid
pub mod Effects
pub mod Owner
pub mod Try
pub mod Verdict
pub mod Capture
pub mod Waiting
pub mod Steps
mod Tests

pub record Mtx : Type 0 where
  pub waiters : Tidset
  pub owner : ℕ
  pub count : ℕ

-- A `calloc`ed item: its waiter set has no array yet.
abbrev pub zeroed : Mtx
zeroed = record {
  waiters = record { allocated = false; tasks = []; capacity = 0 };
  owner = no_task;
  count = 0;
}

pub record State : Type 0 where
  pub mutexes : Map Mtx
  pub waiters : Tidset

unfoldable pub initial : State
unfolding Map.init Tidset.init
initial = record { mutexes = Map.init; waiters = Tidset.init }

-- Reading through the pointer to an item.
abbrev pub at : State → ℕ → Outcome Mtx
at s addr = elim (find s.mutexes addr) [ none ↦ fault out_of_bounds | some m ↦ ok m ]

-- Writing the item.
abbrev pub put : State → ℕ → Mtx → State
put s addr m = record s { mutexes = modify s.mutexes addr (λ _. m) }

abbrev pub fresh : Mtx
fresh = record { waiters = Tidset.init; owner = no_task; count = 0 }

unfoldable pub mutex_init : State → ℕ → Outcome State
mutex_init s addr = elim (find s.mutexes addr) [
  | none ↦ do m ← register s.mutexes zeroed addr; ok (put (record s { mutexes = m }) addr fresh)
  | some _ ↦ ok s
]

-- `errno.h`
abbrev pub ebusy : ℕ
ebusy = 16

unfoldable pub posthandle_tryacquire : State → ℕ → ℕ → Outcome (State × ℕ)
unfolding mutex_init
posthandle_tryacquire s id addr = do
  assert (not (has s.waiters id))
  s' ← mutex_init s addr
  m ← at s' addr
  assert (not (m.owner == no_task) || (m.count == 0))
  let owner = if m.owner == no_task then id else m.owner
  ok (
      if owner == id
      then (put s' addr (record m { owner = owner; count = m.count + 1 }), 0)
      else (put s' addr (record m { owner = owner }), ebusy))

unfoldable pub handle_acquire : State → ℕ → ℕ → Outcome State
unfolding mutex_init
handle_acquire s id addr = do
  assert (not (has s.waiters id))
  s' ← mutex_init s addr
  m ← at s' addr
  if m.owner == id then ok s' else (do
    (w, added) ← insert m.waiters id
    assert added
    ok (put s' addr (record m { waiters = w })))

-- The free branch of `posthandle_acquire`: the task leaves the waiters and owns the mutex.
unfoldable pub take_free : Mtx → ℕ → Outcome Mtx
take_free m id = do
  assert (m.count == 0)
  (w, removed) ← remove m.waiters id
  assert removed
  ok (record m { waiters = w; owner = id })

unfoldable pub posthandle_acquire : State → ℕ → ℕ → Outcome State
unfolding mutex_init take_free
posthandle_acquire s id addr = do
  assert (not (has s.waiters id))
  s' ← mutex_init s addr
  m ← at s' addr
  m' ← if m.owner == no_task then take_free m id else ok m
  assert (m'.owner == id)
  ok (put s' addr (record m' { count = m'.count + 1 }))

-- Lowering the count of an item in the map, and dropping the item if nobody is left.
unfoldable pub release_item : State → ℕ → Mtx → Outcome State
release_item s addr m = do
  assert (ltb 0 m.count)
  ok (
      if ltb 0 (m.count - 1)
      then put s addr (record m { count = m.count - 1 })
      else (if size m.waiters == 0
          then record s { mutexes = deregister s.mutexes addr }
          else put s addr (record m { count = m.count - 1; owner = no_task })))

-- A release by a task that is not the owner is only logged.
unfoldable pub posthandle_release : Bool → State → ℕ → ℕ → Outcome State
unfolding release_item
posthandle_release strict s id addr = elim (find s.mutexes addr) [
  | none ↦ if strict then fault fatal else ok s
  | some m ↦ release_item s addr m
]

unfoldable pub strict_check_release : Bool → State → ℕ → Outcome (Unit {0})
strict_check_release strict s addr =
    if not strict then ok tt else elim (find s.mutexes addr) [ none ↦ fault fatal | some _ ↦ ok tt ]

-- The loop of `remove_waiters` over the items.
unfoldable pub remove_waiters_of : List (ℕ × Mtx) → Tidset → ℕ → Tidset × Bool
remove_waiters_of [] tset self = (tset, false)
remove_waiters_of ((k, m) ∷ l) tset self =
    let tset' = if m.owner == no_task then tset else subtract tset m.waiters in
    let (out, later) = remove_waiters_of l tset' self in
    (out, (not (m.owner == no_task) && has m.waiters self) || later)

unfoldable pub remove_waiters : State → Tidset → ℕ → Tidset × Bool
unfolding remove_waiters_of
remove_waiters s tset self = remove_waiters_of s.mutexes.items tset self

unfoldable pub should_wait_in : List (ℕ × Mtx) → ℕ → Bool
should_wait_in [] id = false
should_wait_in ((k, m) ∷ l) id =
    let rest = should_wait_in l id in
    if m.owner == no_task then rest else (if has m.waiters id then true else rest)

unfoldable pub should_wait : State → ℕ → Bool
unfolding should_wait_in
should_wait s id = should_wait_in s.mutexes.items id

-- The first mutex that has `id` among its waiters.
unfoldable pub waits_at : List (ℕ × Mtx) → ℕ → Option ℕ
waits_at [] id = none
waits_at ((k, m) ∷ l) id = let rest = waits_at l id in if has m.waiters id then some k else rest

-- On fuel: the code recurs along the chain of owners.
unfoldable pub check_deadlock : ℕ → State → ℕ → ℕ → ℕ → Outcome Bool
check_deadlock zero s waiter key cycle = fault out_of_fuel
check_deadlock (suc fuel) s waiter key cycle = do
  assert (not (waiter == no_task))
  elim (cycle == waiter) [
    | true ↦ ok true
    | false ↦ do
      m ← at s key
      assert (not (m.owner == no_task))
      assert (not (m.owner == waiter))
      elim (has s.waiters m.owner) [
        | false ↦ ok false
        | true ↦ elim (waits_at s.mutexes.items m.owner) [
          | none ↦ fault assert_failed
          | some k ↦ check_deadlock fuel s m.owner k (if cycle == no_task then waiter else cycle)
        ]
      ]
  ]

-- The queries `mutex_owner` and `lotto_dbg_mutex_owner`.
unfoldable pub owner_of : State → ℕ → ℕ
owner_of s addr = elim (find s.mutexes addr) [ none ↦ no_task | some m ↦ m.owner ]

unfoldable pub waiters_of : State → ℕ → Option Tidset
waiters_of s addr = elim (find s.mutexes addr) [ none ↦ none | some m ↦ some m.waiters ]
