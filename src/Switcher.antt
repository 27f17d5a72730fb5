-- ===== src/Switcher.antt =====
-- The switcher of src/runtime/switcher.c: tasks block in `switcher_yield` until `switcher_wake` enables
-- them.
--
-- Each definition here is one stretch of code under the switcher's mutex: `arrive` up to the first wait
-- of `switcher_yield`, `recheck` from the end of a wait, `rise` from the end of the sleep. The mutex and
-- the condition variables are a library's: a wait may end at any time, and what `vcond_signal` is called
-- on is part of the result. `refused` is the value of `any_task_filter != NULL && any_task_filter(id)`.
-- The counters are `int`s; more than 2^31 waiting tasks are out of reach.
use lotto.Base.{
  ℕ, zero, suc, ◌+◌, ◌-◌, ◌%◌, ◌^◌, Bool, true, false, not, ◌&&◌, ◌||◌, Option, none, some, List,
  [], ◌∷◌, ltb, ◌==◌, if◌then◌else◌, Outcome, ok, fault, out_of_bounds, ◌>>=◌, ◌>>◌, assert,
}
use lotto.Base.Words.{no_task, any_task}
pub mod Buckets
pub mod Runs
pub mod Turns
pub mod Steps
pub mod Baton
pub mod Counters
mod Tests

pub data Status : Type 0 where
  switcher_continue switcher_changed switcher_aborted : Status

pub record Switcher : Type 0 where
  pub counter : ℕ → ℕ
  pub next : ℕ
  pub prev : ℕ
  pub status : Status
  pub slack : ℕ

-- `_switcher` in static storage.
unfoldable pub initial : Switcher
initial = record {
  counter = λ b. 0;
  next = no_task;
  prev = no_task;
  status = switcher_continue;
  slack = 0;
}

abbrev pub nbuckets : ℕ
nbuckets = 128

abbrev pub is_aborted : Status → Bool
is_aborted switcher_aborted = true
is_aborted _ = false

abbrev pub bucket : ℕ → ℕ
bucket id = id % nbuckets

abbrev pub change : (ℕ → ℕ) → ℕ → (ℕ → ℕ) → ℕ → ℕ
change counter b f x = if b == x then f (counter x) else counter x

-- The condition of the loop.
unfoldable pub must_wait : Switcher → ℕ → Bool → Bool
must_wait s id refused =
    not (s.next == id) && (not (is_aborted s.status) && (not (s.next == any_task) || refused))

-- What a stretch of `switcher_yield` comes to: it signals a bucket and waits, sleeps or returns.
pub data Turn : Type 0 where
  waits : ℕ → Turn
  sleeps : Turn
  returns : Status → Turn

-- From the end of the loop.
unfoldable pub leave : Switcher → ℕ → Switcher × Status
leave s id =
    let s' = record s { next = no_task; counter = change s.counter (bucket id) (λ c. c - 1) } in
    if is_aborted s.status
    then (s', switcher_aborted)
    else (let status =
          if not (s.prev == id) || (s.next == any_task)
          then switcher_changed
          else switcher_continue in
        (record s' { prev = id; slack = 0; status = status }, status))

-- The test of the loop, and the signal before the next wait.
unfoldable pub check : Switcher → ℕ → Bool → Switcher × Turn
unfolding must_wait leave
check s id refused =
    if must_wait s id refused
    then (s, waits (bucket id))
    else ((leave s id).0, returns (leave s id).1)

-- `next = id` of the source is overwritten before it is read, so that the slack has no effect here.
unfoldable pub arrive : Switcher → ℕ → Bool → Switcher × Turn
unfolding check
arrive s id refused = check (record s { counter = change s.counter (bucket id) suc }) id refused

unfoldable pub recheck : Switcher → ℕ → Bool → Switcher × Turn
unfolding check
recheck s id refused = if not (s.slack == 0) then (s, sleeps) else check s id refused

unfoldable pub rise : Switcher → ℕ → Bool → Switcher × Turn
unfolding check
rise s id refused = check (record s { slack = 0 }) id refused

-- `(int)id % LOTTO_SWITCHER_NBUCKETS` as an index: the cast keeps 32 bits in two's complement, and the
-- remainder of a negative number is negative or 0.
unfoldable pub wake_index : ℕ → Option ℕ
wake_index id =
    let low = id % 2 ^ 32 in
    if ltb low (2 ^ 31)
    then some (low % nbuckets)
    else (if (2 ^ 32 - low) % nbuckets == 0 then some 0 else none)

-- The buckets from `i` on that have waiting tasks.
unfoldable pub waiting_from : (ℕ → ℕ) → ℕ → ℕ → List ℕ
waiting_from counter i zero = []
waiting_from counter i (suc n) =
    let rest = waiting_from counter (suc i) n in if ltb 0 (counter i) then i ∷ rest else rest

-- The buckets that are signalled.
unfoldable pub signals : Switcher → ℕ → Outcome (List ℕ)
unfolding wake_index
signals s id =
    if id == any_task
    then ok (waiting_from s.counter 0 nbuckets)
    else (elim (wake_index id) [ none ↦ fault out_of_bounds | some b ↦ ok (b ∷ []) ])

unfoldable pub wake : Switcher → ℕ → ℕ → Outcome (Switcher × List ℕ)
wake s id slack = do
  assert (s.next == no_task)
  assert (not (id == no_task))
  let s' = record s { next = id; slack = slack }
  signalled ← signals s' id
  ok (s', signalled)

unfoldable pub abort : Switcher → Switcher
abort s = record s { status = switcher_aborted }
