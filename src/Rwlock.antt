-- ===== src/Rwlock.antt =====
-- The handler of reader-writer locks of modules/rwlock/src/handler.c: who holds each lock, who waits to
-- read and to write, and which tasks the sequencer may not pick.
--
-- The state is the static `_state`; a pointer to a `struct rwlock` is its key in the map. `cnt` is an
-- `int` whose 2^31 nested locks are out of reach, and the count of a registered reader is positive, so
-- that `cnt >= 0` holds and `cnt - 1` is not negative. Log lines are left out.
use lotto.Base.{
  ℕ, zero, suc, ◌+◌, ◌-◌, Bool, true, false, not, ◌&&◌, ◌||◌, Option, none, some, List, [], ◌∷◌,
  ltb, ◌==◌, if◌then◌else◌, Outcome, ok, fault, assert_failed, ◌>>=◌, ◌>>◌, assert,
}
use lotto.Base.Words.{no_task}
use lotto.Map
use lotto.Map.{Map, find, modify, tid_find, tid_register, tid_deregister}
use lotto.Map.Items.{find_or_put, read, put}
use lotto.Tidset
use lotto.Tidset.{Tidset, has, subtract, insert, remove}
pub mod Handle
pub mod Readers
pub mod Valid
pub mod Effects
pub mod Writers
pub mod Waiting
pub mod Runs
pub mod Capture
pub mod Acquire
mod Tests

-- `readers` holds for each task that reads how often it locked.
pub record Lock : Type 0 where
  pub writer : ℕ
  pub readers : Map ℕ
  pub read_waiters : Tidset
  pub write_waiters : Tidset

pub record State : Type 0 where
  pub locks : Map Lock

unfoldable pub initial : State
unfolding Map.init
initial = record { locks = Map.init }

-- A `calloc`ed item.
abbrev pub zeroed : Lock
zeroed = record {
  writer = no_task;
  readers = record { items = []; nitems = 0 };
  read_waiters = record { allocated = false; tasks = []; capacity = 0 };
  write_waiters = record { allocated = false; tasks = []; capacity = 0 };
}

unfoldable pub fresh : Lock
unfolding Map.init Tidset.init
fresh = record {
  writer = no_task;
  readers = Map.init;
  read_waiters = Tidset.init;
  write_waiters = Tidset.init;
}

unfoldable pub rwlock_init : State → ℕ → Outcome State
rwlock_init s addr = do m ← find_or_put s.locks zeroed fresh addr; ok (record { locks = m })

-- Reading and writing through the pointer to a lock.
abbrev pub at : State → ℕ → Outcome Lock
at s addr = read s.locks addr

abbrev pub put_at : State → ℕ → Lock → State
put_at s addr l = record { locks = put s.locks addr l }

unfoldable pub is_read_locked : Lock → Outcome Bool
is_read_locked l = do
  assert ((Map.size l.readers == 0) || (l.writer == no_task))
  ok (ltb 0 (Map.size l.readers))

abbrev is_there : Option ℕ → Bool
is_there none = false
is_there (some _) = true

unfoldable pub is_read_locked_by : Lock → ℕ → Outcome Bool
unfolding tid_find
is_read_locked_by l id = do found ← tid_find l.readers id; ok (is_there found)

abbrev pub is_write_locked : Lock → Bool
is_write_locked l = not (l.writer == no_task)

-- The loop of `_should_wait` over the items.
unfoldable pub should_wait_in : List (ℕ × Lock) → ℕ → Outcome Bool
unfolding is_read_locked
should_wait_in [] id = ok false
should_wait_in ((k, l) ∷ ls) id =
    let rest = should_wait_in ls id in
    if is_write_locked l
    then (if has l.write_waiters id || has l.read_waiters id then ok true else rest)
    else (do
      reading ← is_read_locked l
      if reading
          then (if has l.write_waiters id then ok true else rest)
          else (if ltb 0 (Tidset.size l.write_waiters)
              then (if has l.read_waiters id then ok true else rest)
              else rest))

unfoldable pub should_wait : State → ℕ → Outcome Bool
unfolding should_wait_in
should_wait s id = should_wait_in s.locks.items id

-- Both return `false` where the task would wait for itself; the reason is then RSRC_DEADLOCK.
unfoldable pub handle_rdlock : State → ℕ → ℕ → Outcome (State × Bool)
unfolding rwlock_init
handle_rdlock s id addr = do
  s' ← rwlock_init s addr
  l ← at s' addr
  if is_write_locked l && (l.writer == id) then ok (s', false) else (do
    (w, added) ← insert l.read_waiters id
    assert added
    ok (put_at s' addr (record l { read_waiters = w }), true))

unfoldable pub handle_wrlock : State → ℕ → ℕ → Outcome (State × Bool)
unfolding rwlock_init is_read_locked is_read_locked_by
handle_wrlock s id addr = do
  s' ← rwlock_init s addr
  l ← at s' addr
  reading ← is_read_locked l
  own ←
      if is_write_locked l && (l.writer == id)
      then ok true
      else (if reading then is_read_locked_by l id else ok false)
  if own then ok (s', false) else (do
    (w, added) ← insert l.write_waiters id
    assert added
    ok (put_at s' addr (record l { write_waiters = w }), true))

-- Finding or registering the reader, and raising its count.
unfoldable pub count_reader : Map ℕ → ℕ → Outcome (Map ℕ)
unfolding tid_find tid_register modify
count_reader readers id = do
  found ← tid_find readers id
  readers' ← elim found [ none ↦ tid_register readers 0 id | some _ ↦ ok readers ]
  ok (modify readers' id suc)

unfoldable pub posthandle_rdlock : State → ℕ → ℕ → Outcome State
unfolding rwlock_init count_reader
posthandle_rdlock s id addr = do
  s' ← rwlock_init s addr
  l ← at s' addr
  assert (not (is_write_locked l))
  if not (has l.read_waiters id) then ok s' else (do
    (w, removed) ← remove l.read_waiters id
    assert removed
    readers ← count_reader l.readers id
    ok (put_at s' addr (record l { read_waiters = w; readers = readers })))

-- `errno.h`
abbrev pub ebusy : ℕ
ebusy = 16

abbrev pub edeadlk : ℕ
edeadlk = 35

unfoldable pub posthandle_tryrdlock : State → ℕ → ℕ → Outcome (State × ℕ)
unfolding rwlock_init count_reader
posthandle_tryrdlock s id addr = do
  s' ← rwlock_init s addr
  l ← at s' addr
  if is_write_locked l
      then ok (s', if l.writer == id then edeadlk else ebusy)
      else (if ltb 0 (Tidset.size l.write_waiters) then ok (s', ebusy) else (do
        readers ← count_reader l.readers id
        ok (put_at s' addr (record l { readers = readers }), 0)))

unfoldable pub posthandle_wrlock : State → ℕ → ℕ → Outcome State
unfolding rwlock_init is_read_locked
posthandle_wrlock s id addr = do
  s' ← rwlock_init s addr
  l ← at s' addr
  reading ← is_read_locked l
  assert (not reading)
  assert (l.writer == no_task)
  if not (has l.write_waiters id) then ok s' else (do
    (w, removed) ← remove l.write_waiters id
    assert removed
    ok (put_at s' addr (record l { write_waiters = w; writer = id })))

unfoldable pub posthandle_trywrlock : State → ℕ → ℕ → Outcome (State × ℕ)
unfolding rwlock_init is_read_locked
posthandle_trywrlock s id addr = do
  s' ← rwlock_init s addr
  l ← at s' addr
  if l.writer == id then ok (s', edeadlk) else (do
    reading ← is_read_locked l
    if reading || is_write_locked l
        then ok (s', ebusy)
        else ok (put_at s' addr (record l { writer = id }), 0))

-- The reader's count falls, and the reader is dropped at 0.
unfoldable pub uncount_reader : Map ℕ → ℕ → Outcome (Map ℕ)
unfolding tid_find tid_deregister modify
uncount_reader readers id = do
  found ← tid_find readers id
  elim found [
    | none ↦ fault assert_failed
    | some cnt ↦
        if cnt - 1 == 0
        then tid_deregister (modify readers id (λ c. c - 1)) id
        else ok (modify readers id (λ c. c - 1))
  ]

-- An unlock of a lock that the task does not hold is only logged.
unfoldable pub posthandle_unlock : State → ℕ → ℕ → Outcome State
unfolding rwlock_init is_read_locked_by uncount_reader
posthandle_unlock s id addr = do
  s' ← rwlock_init s addr
  l ← at s' addr
  if is_write_locked l
      then (do assert (l.writer == id); ok (put_at s' addr (record l { writer = no_task })))
      else (do
        reads ← is_read_locked_by l id
        if reads
            then (do
              readers ← uncount_reader l.readers id
              ok (put_at s' addr (record l { readers = readers })))
            else ok s')
