-- ===== src/Rwlock/Tests.antt =====
-- Runs of the handler of reader-writer locks, and its theorems at concrete states.
use lotto.Base.{
  ℕ, ◌<◌, ◌≡◌, ◌≢◌, ◌⊎◌, refl, Bool, true, false, not, ◌&&◌, ◌||◌, inl, inr, Option, none, some,
  List, [], ◌∷◌, ◌==◌, Outcome, ok, Returns, arith, suc,
}
use lotto.Base.Words.{no_task}
use lotto.Map
use lotto.Map.{find}
use lotto.Tidset
use lotto.Tidset.{Tidset, has}
use lotto.Tidset.Valid
use lotto.Event.{Decision}
use lotto.Reason.{unknown, rsrc_deadlock}
use lotto.Rwlock.{Lock, State, initial, should_wait, ebusy, posthandle_rdlock, posthandle_wrlock}
use lotto.Rwlock.Handle.{CapturePoint, wrlock, try_rdlock, unlock, handle, resume}
use lotto.Rwlock.Valid.{IsSound}
use lotto.Rwlock.Runs.{Reach, start, next, captured, resumed, Reach-IsSoundState, Reach-exclusive}
use lotto.Rwlock.Capture.{IsRunning, capture-Returns}
use lotto.Rwlock.Acquire.{IsQueued, Holds, waiter-acquires}

program : Unit {0}
unfolding initial handle resume posthandle_rdlock posthandle_wrlock
    lotto.Rwlock.posthandle_tryrdlock lotto.Rwlock.posthandle_unlock should_wait Tidset.insert
    Tidset.remove Tidset.subtract Map.register Map.deregister Map.modify lotto.Rwlock.handle_wrlock
    lotto.Rwlock.handle_rdlock lotto.Base.compact lotto.Base.swap_remove lotto.Map.Items.find_or_put
    lotto.Map.Items.read lotto.Rwlock.fresh Tidset.init Tidset.index_from
program = tt

-- Task 1 tries to read the lock at address 64, then task 2 wants to write it.
abbrev try_1 : CapturePoint
try_1 = record { id = 1; event = try_rdlock; addr = 64 }

abbrev write_2 : CapturePoint
write_2 = record { id = 2; event = wrlock; addr = 64 }

abbrev write_1 : CapturePoint
write_1 = record { id = 1; event = wrlock; addr = 64 }

abbrev unlock_1 : CapturePoint
unlock_1 = record { id = 1; event = unlock; addr = 64 }

abbrev tasks : List ℕ → Tidset
tasks l = record { allocated = true; tasks = l; capacity = 4 }

abbrev decision : Decision
decision = record {
  skip = false;
  is_chpt = false;
  filtered = false;
  tset = tasks (1 ∷ 2 ∷ 3 ∷ []);
  reason = unknown;
}

abbrev lock : List (ℕ × ℕ) → ℕ → Tidset → State
lock readers nitems writers = record {
  locks = record {
    items =
        (
          64,
          record {
            writer = no_task;
            readers = record { items = readers; nitems = nitems };
            read_waiters = Tidset.init;
            write_waiters = writers;
          },
        )
        ∷ [];
    nitems = 1;
  };
}

abbrev reading : State
reading = lock ((1, 1) ∷ []) 1 Tidset.init

abbrev wanted : State
wanted = lock ((1, 1) ∷ []) 1 (tasks (2 ∷ []))

abbrev released : State
released = lock [] 0 (tasks (2 ∷ []))

reads : resume initial try_1 ≡ ok (reading, some 0)
unfolding program
reads = refl

abbrev blocking : Decision
blocking = record decision { is_chpt = true; filtered = true; tset = tasks (1 ∷ 3 ∷ []) }

waits : handle reading write_2 decision ≡ ok (wanted, blocking)
unfolding program
waits = refl

itself :
    (r : State) × (handle reading write_1 decision
      ≡ ok (r, record decision { is_chpt = true; filtered = true; reason = rsrc_deadlock }))
unfolding program
itself = (reading, refl)

unlocks : resume wanted unlock_1 ≡ ok (released, none)
unfolding program
unlocks = refl

writes : (r : State) × (resume released write_2 ≡ ok (r, none))
unfolding program
writes = (_, refl)

run : Reach wanted
run =
    next (next start (resumed try_1 (some 0) (omega arith) reads))
      (captured write_2 decision blocking waits)

there : (l : Lock) × (find wanted.locks 64 ≡ some l)
unfolding program lotto.Map.lookup
there = (_, refl)

Reach-exclusive_example : (there.0.writer ≡ no_task) ⊎ (there.0.readers.nitems ≡ 0)
Reach-exclusive_example = Reach-exclusive wanted 64 there.0 run there.1

reading-IsSound : IsSound reading
reading-IsSound = Reach-IsSoundState (next start (resumed try_1 (some 0) (omega arith) reads))

running : IsRunning reading write_2
unfolding program
running = record {
  named = omega arith;
  not_reading = refl;
  not_writing = refl;
  read_room = omega arith;
  write_room = omega arith;
}

tasks-IsValid : Valid.IsValid decision.tset
tasks-IsValid = record {
  distinct = λ x. ground arith;
  fits = omega arith;
  backed = λ e. absurd (ground arith);
}

capture-Returns_example : Returns (handle reading write_2 decision) (λ r.
    IsSound r.0
    × ((x : ℕ)
        → Returns (should_wait r.0 x) (λ b. has r.1.tset x ≡ (has decision.tset x && not b))))
capture-Returns_example =
    capture-Returns reading write_2 decision reading-IsSound running refl refl tasks-IsValid

released-IsSound : IsSound released
released-IsSound = Reach-IsSoundState (next run (resumed unlock_1 none (omega arith) unlocks))

free : should_wait released 2 ≡ ok false
unfolding program
free = refl

found : (l : Lock) × (find released.locks 64 ≡ some l)
unfolding program
found = (_, refl)

queued : IsQueued found.0 2 wrlock
unfolding program found
queued = refl

waiter-acquires_example :
    Returns
      (resume released write_2)
      (λ r. (m : Lock) × (find r.0.locks 64 ≡ some m) × Holds found.0 2 wrlock m)
waiter-acquires_example =
    waiter-acquires released write_2 found.0 released-IsSound (omega arith) free found.1 queued
