-- ===== src/Mutex/Tests.antt =====
-- Runs of the mutex handler, and its theorems at concrete states.
use lotto.Base.{
  ℕ, ◌<◌, ◌≡◌, ◌≢◌, ◌↔◌, ◌⊎◌, refl, Bool, true, false, not, ◌&&◌, ◌||◌, inl, inr, Option, none,
  some, List, [], ◌∷◌, ◌==◌, if◌then◌else◌, Outcome, ok, ◌>>=◌, Returns, arith, length, elem,
}
use lotto.Base.Words.{no_task}
use lotto.Map
use lotto.Tidset
use lotto.Tidset.{Tidset, has}
use lotto.Tidset.Valid
use lotto.Mutex.{
  State, Mtx, initial, handle_acquire, posthandle_acquire, posthandle_tryacquire,
  posthandle_release, should_wait, owner_of, ebusy, remove_waiters,
}
use lotto.Event.{CapturePoint, Decision}
use lotto.Mutex.Handle.{
  Config, handle, resume, event_mutex_acquire, event_mutex_tryacquire, event_mutex_release,
}
use lotto.Reason.{unknown}
use lotto.Mutex.Find.{item}
use lotto.Mutex.Valid.{IsSound}
use lotto.Mutex.Waiting.{IsBlocked, should_wait-IsBlocked, posthandle_acquire-Returns}
use lotto.Mutex.Owner.{
  Step, Reach, captured, resumed, start, next, Step-Handover, Reach-IsSound, Handover,
}
use lotto.Mutex.Try.{tryacquire-Returns, release-tryacquire}
use lotto.Mutex.Verdict.{handle-keeps_reason}
use lotto.Mutex.Capture.{handle-Returns, IsRunning}

program : Unit {0}
unfolding initial handle resume posthandle_acquire posthandle_tryacquire posthandle_release
    should_wait owner_of remove_waiters Tidset.insert Tidset.remove Tidset.subtract Map.register
    Map.deregister Map.modify handle_acquire lotto.Mutex.check_deadlock lotto.Base.compact
    lotto.Base.swap_remove
program = tt

abbrev config : Config
config = record { deadlock_check = true; strict = true }

-- Tasks 1 and 2 try to own the mutex at address 64.
abbrev try_1 : CapturePoint
try_1 = record { id = 1; type_id = event_mutex_tryacquire; addr = 64 }

abbrev acquire_2 : CapturePoint
acquire_2 = record { id = 2; type_id = event_mutex_acquire; addr = 64 }

abbrev tasks : List ℕ → Tidset
tasks l = record { allocated = true; tasks = l; capacity = 4 }

abbrev decision : Decision
decision = record {
  skip = false;
  is_chpt = false;
  filtered = false;
  tset = tasks (1 ∷ 2 ∷ 3 ∷ []);
  reason = unknown;
}

abbrev mutex : List ℕ → ℕ → ℕ → State
mutex waiters owner count = record {
  mutexes = record {
    items = (64, record { waiters = tasks waiters; owner = owner; count = count }) ∷ [];
    nitems = 1;
  };
  waiters = tasks [];
}

-- Task 1 owns the mutex, and then task 2 waits for it.
abbrev owned : State
owned = mutex [] 1 1

abbrev waited : State
waited = mutex (2 ∷ []) 1 1

abbrev released : State
released = mutex (2 ∷ []) no_task 0

abbrev blocking : Decision
blocking = record decision { is_chpt = true; filtered = true; tset = tasks (1 ∷ 3 ∷ []) }

takes : resume config initial try_1 ≡ ok (owned, some 0)
unfolding program
takes = refl

waits : handle config 1 owned acquire_2 decision ≡ ok (waited, blocking)
unfolding program
waits = refl

gives : posthandle_release true waited 1 64 ≡ ok released
unfolding program
gives = refl

took : Step config 1 initial owned
took = resumed try_1 (some 0) (λ e. omega arith) takes

joined : Step config 1 owned waited
joined = captured acquire_2 decision blocking waits

left : Step config 1 waited released
unfolding program
left = resumed (record try_1 { type_id = event_mutex_release }) none (λ e. omega arith) refl

run : Reach config 1 released
run = next (next (next start took) joined) left

owned-IsSound : IsSound owned
owned-IsSound = Reach-IsSound config 1 (next start took)

waited-IsSound : IsSound waited
waited-IsSound = Reach-IsSound config 1 (next (next start took) joined)

released-IsSound : IsSound released
released-IsSound = Reach-IsSound config 1 run

Reach-IsSound_example : IsSound released
Reach-IsSound_example = Reach-IsSound config 1 run

Step-Handover_example : Handover waited released 64
Step-Handover_example = Step-Handover config 1 waited released left waited-IsSound 64

owned-IsRunning : IsRunning owned acquire_2
unfolding program
owned-IsRunning = record {
  named = λ e. omega arith;
  unblocked = refl;
  outside = refl;
  roomy = omega arith;
}

decision-IsValid : Valid.IsValid decision.tset
decision-IsValid = record { distinct = λ x. ground arith; fits = omega arith; backed = λ e. cc }

handle-Returns_example :
    Returns
      (handle config 1 owned acquire_2 decision)
      (λ r. (x : ℕ) → has r.1.tset x ≡ (has decision.tset x && not (should_wait r.0 x)))
handle-Returns_example =
    handle-Returns config 0 owned acquire_2 decision owned-IsSound owned-IsRunning refl refl
      decision-IsValid (λ e. absurd (omega arith))

handle-keeps_reason_example : blocking.reason ≡ decision.reason
handle-keeps_reason_example =
    handle-keeps_reason config 1 owned acquire_2 decision waited blocking owned-IsSound waits refl

free_for_2 : should_wait released 2 ≡ false
unfolding program
free_for_2 = refl

among : has (item released 64).waiters 2 ≡ true
unfolding program
among = refl

posthandle_acquire-Returns_example :
    Returns (posthandle_acquire released 2 64) (λ r. owner_of r 64 ≡ 2)
posthandle_acquire-Returns_example =
    posthandle_acquire-Returns released 2 64 released-IsSound (λ e. omega arith) free_for_2
      (inl among)

tryacquire-Returns_example : Returns (posthandle_tryacquire waited 3 64) (λ r.
    IsSound r.0
    × (r.1 ≡ (if (owner_of waited 64 == no_task) || (owner_of waited 64 == 3) then 0 else ebusy))
    × ((x : ℕ) → owner_of r.0 x ≡ (if (64 == x) && (r.1 == 0) then 3 else owner_of waited x)))
tryacquire-Returns_example = tryacquire-Returns waited 3 64 waited-IsSound (λ e. omega arith)

owned_by_1 : owner_of waited 64 ≡ 1
unfolding program
owned_by_1 = refl

release-tryacquire_example :
    Returns
      (posthandle_tryacquire waited 1 64 >>= λ q. posthandle_release true q.0 1 64)
      (λ r. (x : ℕ) → owner_of r x ≡ owner_of waited x)
release-tryacquire_example =
    release-tryacquire true waited 1 64 waited-IsSound (λ e. omega arith) (inr owned_by_1)

should_wait-IsBlocked_example : (should_wait waited 2 ≡ true) ↔ IsBlocked waited 2
should_wait-IsBlocked_example = should_wait-IsBlocked waited 2 waited-IsSound.keyed
