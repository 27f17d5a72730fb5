-- ===== src/Join/Tests.antt =====
-- Runs of the handler of joined threads, and its theorems on them.
use lotto.Base.{
  ℕ, ◌+◌, ◌≡◌, refl, Bool, true, false, none, some, [], ◌∷◌, ok, fault, assert_failed, arith,
  Returns,
}
use lotto.Map
use lotto.Map.{Map, find}
use lotto.Tidset
use lotto.Event.{Decision}
use lotto.Reason.{unknown}
use lotto.Join.{Pthread, Waitee, State, Write, initial, reaches, join, edeadlk}
use lotto.Join.Handle.{Event, task_init, task_join, task_fini, handle}
use lotto.Join.Runs.{Reach, begun, next, Reach-reaches}
use lotto.Join.Again.{HasEnded, join-again}

program : Unit {0}
unfolding initial handle join lotto.Join.start lotto.Join.finish lotto.Join.exit_with
    lotto.Join.release lotto.Join.Handle.judge lotto.Join.Handle.on_event reaches Map.init
    Map.lookup Tidset.init Tidset.insert lotto.Tidset.Keys.remove_all_keys Map.register Map.modify
    Map.deregister
program = tt

-- The skipped decision.
abbrev skipped : Decision
skipped = record {
  skip = true;
  is_chpt = false;
  filtered = false;
  tset = record { allocated = false; tasks = []; capacity = 0 };
  reason = unknown;
}

abbrev thread : ℕ → Bool → Pthread
thread p ended = record {
  pthread = p;
  value_ptr = 0;
  waiters = Tidset.init;
  terminated = ended;
  detached = false;
}

-- Tasks 1 and 2 are the threads 101 and 102.
abbrev pair : Bool → State
pair ended = record {
  pthreads = record { items = (2, thread 102 ended) ∷ (1, thread 101 false) ∷ []; nitems = 2 };
  tasks = record { items = (102, 2) ∷ (101, 1) ∷ []; nitems = 2 };
  waitees = record { items = []; nitems = 0 };
}

abbrev lone : State
lone = record {
  pthreads = record { items = (1, thread 101 false) ∷ []; nitems = 1 };
  tasks = record { items = (101, 1) ∷ []; nitems = 1 };
  waitees = record { items = []; nitems = 0 };
}

starts_1 : handle 9 initial 1 (task_init 101 false) skipped ≡ ok (lone, [], skipped)
unfolding program
starts_1 = refl

starts_2 : handle 9 lone 2 (task_init 102 false) skipped ≡ ok (pair false, [], skipped)
unfolding program
starts_2 = refl

ends_2 : handle 9 (pair false) 2 (task_fini none) skipped ≡ ok (pair true, [], skipped)
unfolding program
ends_2 = refl

itself : join 9 (pair false) 1 101 0 4096 ≡ ok (pair false, (4096, edeadlk) ∷ [])
unfolding program
itself = refl

both : Reach (pair false)
both =
    next (next begun 9 1 (task_init 101 false) skipped (lone, [], skipped) starts_1) 9 2
      (task_init 102 false) skipped (pair false, [], skipped) starts_2

known_2 : find (pair false).tasks 102 ≡ some 2
unfolding program
known_2 = refl

Reach-reaches_example :
    (fuel : ℕ) × (b : Bool) × ((more : ℕ) → reaches (fuel + more) (pair false).waitees 1 2 ≡ ok b)
Reach-reaches_example = Reach-reaches (pair false) 1 102 2 both known_2

ended : HasEnded (pair true) 102 2 (thread 102 true)
unfolding program
ended = record {
  keyed = record { counted = refl; distinct = λ x. ground arith };
  task = refl;
  thread = refl;
  ended = refl;
  free = refl;
  named = omega arith;
}

join-again_example :
    Returns (join 9 (pair true) 1 102 0 4096) (λ r. join 9 r.0 1 102 0 4100 ≡ fault assert_failed)
join-again_example =
    join-again 8 (pair true) 1 102 0 4096 2 (thread 102 true) 1 0 4100 ended (omega arith)
      (omega arith)
