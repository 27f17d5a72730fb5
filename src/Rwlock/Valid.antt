-- ===== src/Rwlock/Valid.antt =====
-- The invariant of the reader-writer locks, and what an operation may do to its lock.
use lotto.Base.{ℕ, ◌≡◌, ◌≢◌, none, some, ltb, Option, ◌==◌, ok, arith, Bool-cases, inl, inr, refl}
use lotto.Base.Words.{no_task}
use lotto.Map
use lotto.Map.{Map, find, lookup}
use lotto.Map.Laws
use lotto.Map.Items.{item, or_first, Puts, open_item}
use lotto.Tidset
use lotto.Tidset.{Tidset, has}
use lotto.Tidset.Valid
use lotto.Rwlock.{Lock, State, initial, zeroed, fresh, rwlock_init, at, put_at, is_read_locked}
use lotto.Rwlock.Readers.{AreReaders}

-- A lock that is written has no readers.
pub record IsSoundLock (l : Lock) : Type 0 where
  pub readers : AreReaders l.readers
  pub exclusive : l.writer ≢ no_task → l.readers.nitems ≡ 0
  pub readers_wait : Valid.IsValid l.read_waiters
  pub writers_wait : Valid.IsValid l.write_waiters

pub record IsSound (s : State) : Type 0 where
  pub keyed : Map.Laws.IsValid s.locks
  pub sound : (addr : ℕ) (l : Lock) → find s.locks addr ≡ some l → IsSoundLock l

empty-IsValid : Valid.IsValid Tidset.init
unfolding Tidset.init
empty-IsValid = record { distinct = λ x. omega arith; fits = omega arith; backed = λ e. cc }

none-AreReaders : AreReaders Map.init
unfolding Map.init lookup
none-AreReaders = record {
  valid = record { counted = refl; distinct = λ x. omega arith };
  positive = λ x cnt e. cc;
}

fresh-IsSoundLock : IsSoundLock fresh
unfolding fresh
fresh-IsSoundLock = record {
  readers = none-AreReaders;
  exclusive = λ e. refl;
  readers_wait = empty-IsValid;
  writers_wait = empty-IsValid;
}

pub initial-IsSound : IsSound initial
unfolding initial Map.init lookup
initial-IsSound = record {
  keyed = record { counted = refl; distinct = λ x. omega arith };
  sound = λ addr l e. cc;
}

-- The lock at an address, a fresh one where there is none.
abbrev pub lock_at : State → ℕ → Lock
lock_at s addr = item fresh s.locks addr

or_first-IsSoundLock :
    (o : Option Lock) → ((l : Lock) → o ≡ some l → IsSoundLock l) → IsSoundLock (or_first fresh o)
or_first-IsSoundLock none h = fresh-IsSoundLock
or_first-IsSoundLock (some l) h = h l refl

pub lock_at-IsSoundLock : (s : State) (addr : ℕ) → IsSound s → IsSoundLock (lock_at s addr)
lock_at-IsSoundLock s addr v = or_first-IsSoundLock (find s.locks addr) (v.sound addr)

-- An operation writes a sound lock at its address and nothing else.
abbrev pub Writes : State → ℕ → State → Type 0
Writes s addr r = (l : Lock) × Puts s.locks addr l r.locks × IsSoundLock l

pub Writes-IsSound : (s : State) (addr : ℕ) (r : State) → IsSound s → Writes s addr r → IsSound r
Writes-IsSound s addr r v (l, p, w) = record {
  keyed = p.valid;
  sound = λ x k e. elim (Bool-cases (addr == x)) [
    | inl same ↦ let q : k ≡ l = ground (arith, p.found x) in rw q w
    | inr other ↦ v.sound x k (ground (arith, p.found x))
  ];
}

-- The state in which `rwlock_init` leaves `s`, with the lock at `addr` read and written.
pub opened :
    (s : State) (addr : ℕ)
    → IsSound s
    → (r : State) × (rwlock_init s addr ≡ ok r)
      × (at r addr ≡ ok (lock_at s addr))
      × Puts s.locks addr (lock_at s addr) r.locks
      × ((l : Lock) → Puts s.locks addr l (put_at r addr l).locks)
unfolding rwlock_init
opened s addr v =
    let (m, e, here, p, puts) = open_item s.locks zeroed fresh addr v.keyed in
    (record { locks = m }, ground (arith, e), here, p, puts)

-- The assertion of `is_read_locked` holds.
pub is_read_locked-eq : (l : Lock) → IsSoundLock l → is_read_locked l ≡ ok (ltb 0 l.readers.nitems)
unfolding is_read_locked
is_read_locked-eq l w = ground (arith, w.exclusive)
