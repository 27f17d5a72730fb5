-- ===== src/Switcher/Tests.antt =====
-- A run of the switcher, and its theorems on it.
use lotto.Base.{◌≡◌, inr, refl, true, false, some, [], ◌∷◌, ◌==◌, if◌then◌else◌, arith, ok, Returns}
use lotto.Base.Words.{no_task}
use lotto.Switcher.{
  Status, Switcher, initial, is_aborted, bucket, change, Turn, waits, sleeps, returns, arrive,
  recheck, rise, wake,
}
use lotto.Switcher.Runs.{
  System, begin, woken, returned, quiet, after, entered, arrives, rechecks, wakes, Run, stop, more,
}
use lotto.Switcher.Baton.{baton, Run-baton, enabled-returns}
use lotto.Switcher.Counters.{all_signalled, wake-signals}

program : Unit {0}
unfolding initial arrive recheck rise wake lotto.Switcher.must_wait lotto.Switcher.leave
    lotto.Switcher.check lotto.Switcher.signals lotto.Switcher.wake_index
program = tt

-- Tasks 1 and 129 share a bucket; they wait, and 129 is woken.
abbrev first_in : System
first_in = after (entered begin 1) 1 (arrive begin.shared 1 false)

abbrev both_in : System
both_in = after (entered first_in 129) 129 (arrive first_in.shared 129 false)

abbrev enabled : Switcher
enabled = record both_in.shared { next = 129; slack = 0 }

abbrev chosen : System
chosen = record both_in { shared = enabled }

abbrev passed : System
passed = after chosen 129 (recheck chosen.shared 129 false)

signalled : wake both_in.shared 129 0 ≡ ok (enabled, 1 ∷ [])
unfolding program
signalled = refl

in_first : Run begin (quiet ∷ []) first_in
unfolding program
in_first = more (stop refl refl) (arrives 1 false (omega arith) refl refl refl) refl

in_both : Run begin (quiet ∷ quiet ∷ []) both_in
unfolding program
in_both = more in_first (arrives 129 false (omega arith) refl refl refl) refl

woke : Run both_in (woken 129 ∷ []) chosen
woke = more (stop refl refl) (wakes 129 0 enabled (1 ∷ []) signalled refl refl) refl

-- Task 1 ends its wait first, and waits again.
abbrev tried : System
tried = after chosen 1 (recheck chosen.shared 1 false)

steps : Run chosen (quiet ∷ []) tried
unfolding program
steps = more (stop refl refl) (rechecks 1 false (omega arith) refl refl refl refl) refl

through : Run begin (returned 129 ∷ woken 129 ∷ quiet ∷ quiet ∷ []) passed
unfolding program
through =
    more (more in_both (wakes 129 0 enabled (1 ∷ []) signalled refl refl) refl)
      (rechecks 129 false (omega arith) refl refl refl refl) refl

running : is_aborted passed.shared.status ≡ false
unfolding program
running = refl

Run-baton_example : baton (returned 129 ∷ woken 129 ∷ quiet ∷ quiet ∷ []) ≡ some passed.shared.next
Run-baton_example = Run-baton (returned 129 ∷ woken 129 ∷ quiet ∷ quiet ∷ []) passed through running

enabled-returns_example :
    (status : Status) × ((recheck tried.shared 129 false).1
      ≡ (if tried.shared.slack == 0 then returns status else sleeps))
    × ((rise tried.shared 129 false).1 ≡ returns status)
enabled-returns_example =
    enabled-returns 129 chosen (quiet ∷ []) tried false (omega arith) (omega arith) refl steps refl

idle : both_in.shared.next ≡ no_task
unfolding program
idle = refl

wake-signals_example :
    Returns (wake both_in.shared 129 0) (λ r. all_signalled 129 both_in.inside r.1 ≡ true)
wake-signals_example =
    wake-signals (quiet ∷ quiet ∷ []) both_in 129 0 in_both idle (omega arith) (inr (omega arith))
