-- ===== src/Join.antt =====
-- The handler of joined threads of modules/join/src/handler.c: which tasks wait for which to end.
--
-- The state is the static `_state`. Pointers into the program's memory are numbers, and what is written
-- through them is part of the result. The loop of `_join` runs on fuel.
use lotto.Base.{
  ℕ, zero, suc, Bool, true, false, not, ◌&&◌, ◌||◌, Option, none, some, List, [], ◌∷◌, ◌++◌, ltb,
  ◌==◌, if◌then◌else◌, Outcome, ok, fault, out_of_fuel, out_of_bounds, assert_failed, ◌>>=◌, ◌>>◌,
  assert,
}
use lotto.Base.Words.{no_task}
use lotto.Event.{Decision}
use lotto.Map
use lotto.Map.{Map, find, register, deregister, modify, tid_find, tid_register, tid_deregister}
use lotto.Tidset
use lotto.Tidset.{Tidset, insert}
use lotto.Tidset.Keys.{remove_all_keys}
pub mod Handle
pub mod Waits
pub mod Steps
pub mod Joining
pub mod Runs
pub mod Again
mod Tests

-- `pthread_task_t`
pub record Pthread : Type 0 where
  pub pthread : ℕ
  pub value_ptr : ℕ
  pub waiters : Tidset
  pub terminated : Bool
  pub detached : Bool

-- `waitee_t`
pub record Waitee : Type 0 where
  pub waitee : ℕ
  pub value_ptr : ℕ
  pub ret : ℕ

-- The items of `tasks` hold just a task id.
pub record State : Type 0 where
  pub pthreads : Map Pthread
  pub tasks : Map ℕ
  pub waitees : Map Waitee

unfoldable pub initial : State
unfolding Map.init
initial = record { pthreads = Map.init; tasks = Map.init; waitees = Map.init }

-- An address and what is written to it.
abbrev pub Write : Type 0
Write = ℕ × ℕ

-- `errno.h`
abbrev pub esrch : ℕ
esrch = 3

abbrev pub edeadlk : ℕ
edeadlk = 35

abbrev pub einval : ℕ
einval = 22

abbrev empty : Tidset
empty = record { allocated = false; tasks = []; capacity = 0 }

-- `calloc`ed items.
abbrev zeroed_pthread : Pthread
zeroed_pthread = record {
  pthread = 0;
  value_ptr = 0;
  waiters = empty;
  terminated = false;
  detached = false;
}

abbrev pub zeroed_waitee : Waitee
zeroed_waitee = record { waitee = 0; value_ptr = 0; ret = 0 }

-- `ASSERT(item)` on what a find returned.
abbrev pub known {ℓ} : {A : Type ℓ} → Option A → Outcome A
known none = fault assert_failed
known (some v) = ok v

-- A read through a pointer that may be NULL.
abbrev pub deref {ℓ} : {A : Type ℓ} → Option A → Outcome A
deref none = fault out_of_bounds
deref (some v) = ok v

abbrev or_register : Map ℕ → ℕ → Outcome (Map ℕ)
or_register tasks pthread = elim (find tasks pthread) [
  | none ↦ register tasks 0 pthread
  | some _ ↦ ok tasks
]

-- `_init`
unfoldable pub start : State → ℕ → ℕ → Bool → Outcome State
unfolding tid_register register modify
start s tid pthread detached = do
  registered ← tid_register s.pthreads zeroed_pthread tid
  let pt : Pthread = record {
    pthread = pthread;
    value_ptr = 0;
    waiters = Tidset.init;
    terminated = false;
    detached = detached;
  }
  tasks ← or_register s.tasks pthread
  ok (record s {
    pthreads = modify registered tid (λ _. pt);
    tasks = modify tasks pthread (λ _. tid);
  })

-- The loop of `_join` from `task` on: whether it comes to `tid`.
unfoldable pub reaches : ℕ → Map Waitee → ℕ → ℕ → Outcome Bool
unfolding tid_find
reaches zero waitees tid task = fault out_of_fuel
reaches (suc fuel) waitees tid task = if task == tid then ok true else (do
  found ← tid_find waitees task
  elim found [ none ↦ ok false | some w ↦ reaches fuel waitees tid w.waitee ])

-- The waitee has ended. The entry of `tasks` is dropped only if it names the task that joins.
abbrev pub collect : State → ℕ → ℕ → ℕ → ℕ → ℕ → ℕ → Pthread → Outcome (State × List Write)
collect s tid pthread value_ptr ret waitee named pt = do
  pthreads ← tid_deregister s.pthreads waitee
  tasks ← if named == tid then tid_deregister s.tasks pthread else ok s.tasks
  ok (
    record s { pthreads = pthreads; tasks = tasks },
    (if value_ptr == 0 then [] else (value_ptr, pt.value_ptr) ∷ []) ++ (ret, 0) ∷ [],
  )

abbrev pub enqueue : State → ℕ → ℕ → ℕ → ℕ → Pthread → Outcome (State × List Write)
enqueue s tid value_ptr ret waitee pt = do
  (waiters, _) ← insert pt.waiters tid
  registered ← tid_register s.waitees zeroed_waitee tid
  let wee : Waitee = record { waitee = waitee; value_ptr = value_ptr; ret = ret }
  ok (
    record s {
      pthreads = modify s.pthreads waitee (λ p. record p { waiters = waiters });
      waitees = modify registered tid (λ _. wee);
    },
    [],
  )

-- `value_ptr` and `ret` are addresses.
unfoldable pub join : ℕ → State → ℕ → ℕ → ℕ → ℕ → Outcome (State × List Write)
unfolding modify
join fuel s tid pthread value_ptr ret = elim (find s.tasks pthread) [
  | none ↦ ok (s, (ret, esrch) ∷ [])
  | some waitee ↦ do
    cycle ← reaches fuel s.waitees tid waitee
    if cycle then ok (s, (ret, edeadlk) ∷ []) else (do
      found ← tid_find s.pthreads waitee
      pt ← known found
      if pt.terminated
          then collect s tid pthread value_ptr ret waitee waitee pt
          else enqueue s tid value_ptr ret waitee pt)
]

-- `_texit`
unfoldable pub exit_with : State → ℕ → ℕ → Outcome State
unfolding tid_find modify
exit_with s tid value_ptr = do
  found ← tid_find s.pthreads tid
  pt ← known found
  assert (pt.value_ptr == 0)
  ok (record s { pthreads = modify s.pthreads tid (λ p. record p { value_ptr = value_ptr }) })

-- The loop of `_fini` over the waiting tasks.
unfoldable pub release : Map Waitee → ℕ → List ℕ → Outcome (Map Waitee × List Write)
unfolding tid_find tid_deregister
release waitees value_ptr [] = ok (waitees, [])
release waitees value_ptr (waiter ∷ waiters) = do
  found ← tid_find waitees waiter
  wee ← known found
  waitees' ← tid_deregister waitees waiter
  (waitees'', writes) ← release waitees' value_ptr waiters
  ok (
    waitees'',
    (if wee.value_ptr == 0 then [] else (wee.value_ptr, value_ptr) ∷ []) ++ (wee.ret, 0) ∷ writes,
  )

-- The task leaves both maps, `tasks` only if it still names it.
abbrev pub drop_task : State → ℕ → Pthread → Option ℕ → Outcome State
drop_task s tid pt named = do
  task ← deref named
  tasks ← if task == tid then tid_deregister s.tasks pt.pthread else ok s.tasks
  pthreads ← tid_deregister s.pthreads tid
  ok (record s { tasks = tasks; pthreads = pthreads })

-- `_fini`
unfoldable pub finish : State → ℕ → Outcome (State × List Write)
unfolding tid_find tid_deregister release modify
finish s tid = do
  found ← tid_find s.pthreads tid
  pt ← known found
  let named = find s.tasks pt.pthread
  if pt.detached
      then (do s' ← drop_task s tid pt named; ok (s', []))
      else (if Tidset.size pt.waiters == 0
          then ok (
            record s { pthreads = modify s.pthreads tid (λ p. record p { terminated = true }) },
            [],
          )
          else (do
            (waitees, writes) ← release s.waitees pt.value_ptr pt.waiters.tasks
            s' ← drop_task (record s { waitees = waitees }) tid pt named
            ok (s', writes)))

abbrev pub is_none {ℓ} : {A : Type ℓ} → Option A → Bool
is_none none = true
is_none (some _) = false

-- `_detach`
unfoldable pub detach : State → ℕ → ℕ → Outcome (State × List Write)
unfolding tid_find modify
detach s pthread ret = elim (find s.tasks pthread) [
  | none ↦ ok (s, (ret, esrch) ∷ [])
  | some id ↦ do
    found ← tid_find s.pthreads id
    p ← known found
    if p.detached then ok (s, (ret, einval) ∷ []) else (do
      waits ← tid_find s.waitees id
      assert (is_none waits)
      ok (
        record s { pthreads = modify s.pthreads id (λ p. record p { detached = true }) },
        (ret, 0) ∷ [],
      ))
]
