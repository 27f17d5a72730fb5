-- ===== src/Switcher/Turns.antt =====
-- What a turn of a task in `switcher_yield` does to the shared state.
use lotto.Base.{
  ℕ, ◌-◌, ◌≡◌, ◌≢◌, ◌⊎◌, refl, Bool, true, false, if◌then◌else◌, arith, Bool-cases, inl, inr,
}
use lotto.Base.Words.{no_task, any_task}
use lotto.Switcher.{
  Status, Switcher, is_aborted, bucket, change, must_wait, Turn, waits, returns, leave, check,
}

-- The turn starts in `t`: it changes nothing and does not return, or it returns, which only an aborted
-- switcher or one that enables the task lets it.
pub data Turns (t : Switcher) (id : ℕ) (r : Switcher × Turn) : Type 0 where
  stays :
      r.0 ≡ t → (t.next ≢ id) → is_aborted t.status ≡ false → r.1 ≡ waits (bucket id) → Turns t id r
  goes :
      (status : Status)
      → r.1 ≡ returns status
      → r.0.next ≡ no_task
      → r.0.counter ≡ change t.counter (bucket id) (λ c. c - 1)
      → is_aborted r.0.status ≡ is_aborted t.status
      → (is_aborted t.status ≡ true) ⊎ ((t.next ≡ id) ⊎ (t.next ≡ any_task))
      → Turns t id r

leave_lem :
    (t : Switcher) (id : ℕ)
    → ((leave t id).0.next ≡ no_task)
      × ((leave t id).0.counter ≡ change t.counter (bucket id) (λ c. c - 1))
      × (is_aborted (leave t id).0.status ≡ is_aborted t.status)
unfolding leave
leave_lem t id = elim (Bool-cases (is_aborted t.status)) [
  | inl ended ↦ rw ended (refl, refl, ended)
  | inr running ↦ rw running (refl, refl, ground arith)
]

may_go :
    (t : Switcher) (id : ℕ) (refused : Bool)
    → must_wait t id refused ≡ false
    → (is_aborted t.status ≡ true) ⊎ ((t.next ≡ id) ⊎ (t.next ≡ any_task))
unfolding must_wait
may_go t id refused free = ground arith

must_stay :
    (t : Switcher) (id : ℕ) (refused : Bool)
    → must_wait t id refused ≡ true
    → (t.next ≢ id) × (is_aborted t.status ≡ false)
unfolding must_wait
must_stay t id refused blocked = (ground arith, ground arith)

pub check-Turns : (t : Switcher) (id : ℕ) (refused : Bool) → Turns t id (check t id refused)
unfolding check
check-Turns t id refused = go (must_wait t id refused) refl
  where
    go :
        (b : Bool)
        → must_wait t id refused ≡ b
        → Turns t id
            (if b then (t, waits (bucket id)) else ((leave t id).0, returns (leave t id).1))
    go true e = let (other, running) = must_stay t id refused e in stays refl other running refl
    go false e =
        let (next, counter, status) = leave_lem t id in
        goes (leave t id).1 refl next counter status (may_go t id refused e)
