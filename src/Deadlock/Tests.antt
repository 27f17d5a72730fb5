-- ===== src/Deadlock/Tests.antt =====
-- Runs of the deadlock handler, and its theorem at a concrete state (modules/deadlock/src/handler.c).
use lotto.Base.{
  ℕ, ◌<◌, ◌≡◌, refl, Bool, true, false, List, [], ◌∷◌, Option, none, some, arith, Outcome, ok,
  Returns, swap_remove,
}
use lotto.Tidbag
use lotto.Tidbag.{Tidbag, remove, insert, get, index_from}
use lotto.Map.{lookup, write, modify, register}
use lotto.Map.Items.{read, find_or_put}
use lotto.Deadlock.{
  State, check_deadlock, check_deadlock_iter, along_tasks, task_at, other_task, along_resources,
  visit, any_other, mark_lost, mark_lost_in, rsrc_init,
}
use lotto.Deadlock.Alike.{Alike, AllRoom, total}
use lotto.Deadlock.Search.{check_deadlock-Alike}

abbrev bag : List ℕ → Tidbag
bag l = record { allocated = true; tasks = l; capacity = 4 }

-- Task 1 holds resource 200, for which task 3 waits; task 3 holds resource 100.
abbrev crossed : State
crossed = record {
  resources = record {
    items =
        (200, record { tasks = bag (1 ∷ 3 ∷ []); owner = 1 })
        ∷ (100, record { tasks = bag (3 ∷ []); owner = 3 })
        ∷ [];
    nitems = 2;
  };
  lost = record { items = []; nitems = 0 };
}

crossed-AllRoom : AllRoom crossed.resources.items
crossed-AllRoom = (
  record { fits = omega arith; small = omega arith; backed = refl },
  (record { fits = omega arith; small = omega arith; backed = refl }, tt),
)

-- Acquiring resource 100 would close the cycle.
cycle_found :
    check_deadlock 4 crossed 1 100
    ≡ ok (
      record crossed {
        resources = record {
          items =
              (200, record { tasks = bag (1 ∷ 3 ∷ []); owner = 1 })
              ∷ (100, record { tasks = bag (3 ∷ []); owner = 3 })
              ∷ [];
          nitems = 2;
        };
      },
      true,
    )
unfolding check_deadlock check_deadlock_iter along_tasks task_at other_task along_resources visit
    any_other read lookup get remove insert index_from modify write swap_remove
cycle_found = refl

small : total crossed.resources.items < 4
unfolding total
small = omega arith

check_deadlock-Alike_example :
    Returns
      (check_deadlock 4 crossed 1 100)
      (λ (t, res). Alike crossed.resources.items t.resources.items × (t.lost ≡ crossed.lost))
check_deadlock-Alike_example = check_deadlock-Alike 4 crossed 1 100 crossed-AllRoom small

-- Task 1 ends with resource 200, for which task 3 waits, and with resource 300, for which nobody waits.
abbrev leaving : State
leaving = record {
  resources = record {
    items =
        (200, record { tasks = bag (1 ∷ 3 ∷ []); owner = 1 })
        ∷ (300, record { tasks = bag (1 ∷ []); owner = 1 })
        ∷ [];
    nitems = 2;
  };
  lost = record { items = []; nitems = 0 };
}

abbrev reports : Outcome (State × Bool) → Option Bool
reports (ok (s, found)) = some found
reports _ = none

waiter_forgotten :
    reports (
      mark_lost
        (record { enabled = true; lost_resource_check = false; extra_release_check = false })
        leaving
        1)
    ≡ some false
unfolding mark_lost mark_lost_in rsrc_init find_or_put read lookup register remove insert index_from
    modify write swap_remove Tidbag.init
waiter_forgotten = refl
