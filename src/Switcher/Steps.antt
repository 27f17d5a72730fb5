-- ===== src/Switcher/Steps.antt =====
-- What each step of the switcher does to the enabled task and to the counters.
use lotto.Base.{
  ℕ, suc, ◌≡◌, ◌≢◌, ◌⊎◌, ◌∙◌, refl, ap, subst, Bool, true, not, List, ◌==◌, ok, arith, Bool-cases,
  Outcome-cases, inl, inr,
}
use lotto.Base.Words.{no_task, any_task}
use lotto.Switcher.{
  Switcher, is_aborted, bucket, change, Turn, waits, sleeps, returns, check, arrive, recheck, rise,
  wake, signals, abort,
}
use lotto.Switcher.Turns.{Turns, stays, goes, check-Turns}
use lotto.Switcher.Runs.{
  System, Event, woken, returned, quiet, after, event_of, entered, Step, arrives, rechecks, rises,
  wakes, aborts,
}

-- What a step does to the enabled task, `next`.
pub data Passes (m : Switcher) (e : Event) (r : Switcher) : Type 0 where
  keeps :
      e ≡ quiet
      → r.next ≡ m.next
      → (is_aborted m.status ≡ true → is_aborted r.status ≡ true)
      → Passes m e r
  enables :
      (id : ℕ)
      → e ≡ woken id
      → m.next ≡ no_task
      → id ≢ no_task
      → r.next ≡ id
      → is_aborted r.status ≡ is_aborted m.status
      → Passes m e r
  takes :
      (id : ℕ)
      → e ≡ returned id
      → id ≢ no_task
      → r.next ≡ no_task
      → is_aborted r.status ≡ is_aborted m.status
      → (is_aborted m.status ≡ true) ⊎ ((m.next ≡ id) ⊎ (m.next ≡ any_task))
      → Passes m e r

pub after-shared : (s : System) (id : ℕ) (q : Switcher × Turn) → (after s id q).shared ≡ q.0
after-shared s id (w, waits b) = refl
after-shared s id (w, sleeps) = refl
after-shared s id (w, returns status) = refl

Turns-Passes :
    (m t : Switcher) (s r : System) (id : ℕ) (q : Switcher × Turn) (e : Event)
    → Turns t id q
    → id ≢ no_task
    → t.next ≡ m.next
    → t.status ≡ m.status
    → e ≡ event_of id q.1
    → r ≡ after s id q
    → Passes m e r.shared
Turns-Passes m t s r id q e (stays same other running turn) n next status event result =
    keeps (event ∙ ap (event_of id) turn)
      (ap (λ x. x.shared.next) result ∙ ap (λ x. x.next) (after-shared s id q ∙ same) ∙ next)
      (λ ended.
        ap (λ x. is_aborted x.shared.status) result
        ∙ ap (λ x. is_aborted x.status) (after-shared s id q ∙ same)
        ∙ ap is_aborted status
        ∙ ended)
Turns-Passes m t s r id q e (goes st turn none_next counter same may) n next status event result =
    takes id (event ∙ ap (event_of id) turn) n
      (ap (λ x. x.shared.next) result ∙ ap (λ x. x.next) (after-shared s id q) ∙ none_next)
      (ap (λ x. is_aborted x.shared.status) result
        ∙ ap (λ x. is_aborted x.status) (after-shared s id q)
        ∙ same
        ∙ ap is_aborted status)
      (subst (λ st. (is_aborted st ≡ true) ⊎ ((m.next ≡ id) ⊎ (m.next ≡ any_task))) status
        (subst (λ k. (is_aborted t.status ≡ true) ⊎ ((k ≡ id) ⊎ (k ≡ any_task))) next may))

-- What a call of `wake` that returns has found and done.
pub wake_lem :
    (s : Switcher) (id slack : ℕ) (w : Switcher) (signalled : List ℕ)
    → wake s id slack ≡ ok (w, signalled)
    → (s.next ≡ no_task) × (id ≢ no_task) × (w ≡ record s { next = id; slack = slack })
unfolding wake
wake_lem s id slack w signalled h =
    elim (Outcome-cases (signals (record s { next = id; slack = slack }) id)) [
      | inl (f, e) ↦ absurd (ground (arith, e))
      | inr (bs, e) ↦ (ground (arith, e), ground (arith, e), ground (arith, e))
    ]

sleep_Passes :
    (m r : System) (id : ℕ) (e : Event)
    → e ≡ quiet
    → r ≡ after m id (m.shared, sleeps)
    → Passes m.shared e r.shared
sleep_Passes m r id e event result =
    keeps event (ap (λ x. x.shared.next) result)
      (λ ended. ap (λ x. is_aborted x.shared.status) result ∙ ended)

-- The two ways a wait ends.
pub recheck-cases :
    (t : Switcher) (id : ℕ) (refused : Bool)
    → (recheck t id refused ≡ (t, sleeps)) ⊎ (recheck t id refused ≡ check t id refused)
unfolding recheck
recheck-cases t id refused = elim (Bool-cases (not (t.slack == 0))) [
  | inl e ↦ inl (rw e refl)
  | inr e ↦ inr (rw e refl)
]

pub arrive-Turns :
    (t : Switcher) (id : ℕ) (refused : Bool)
    → Turns (record t { counter = change t.counter (bucket id) suc }) id (arrive t id refused)
unfolding arrive
arrive-Turns t id refused = check-Turns _ id refused

pub rise-Turns :
    (t : Switcher) (id : ℕ) (refused : Bool) → Turns (record t { slack = 0 }) id (rise t id refused)
unfolding rise
rise-Turns t id refused = check-Turns _ id refused

abort-next : (s : Switcher) → (abort s).next ≡ s.next
unfolding abort
abort-next s = refl

abort-status : (s : Switcher) → is_aborted (abort s).status ≡ true
unfolding abort
abort-status s = refl

pub Step-Passes : (m : System) (e : Event) (r : System) → Step m e r → Passes m.shared e r.shared
Step-Passes m e r (arrives id refused n out event result) =
    Turns-Passes m.shared _ (entered m id) r id (arrive m.shared id refused) e
      (arrive-Turns m.shared id refused) n refl refl event result
Step-Passes m e r (rechecks id refused n inside awake event result) =
    elim (recheck-cases m.shared id refused) [
      | inl slept ↦
          sleep_Passes m r id e (event ∙ ap (λ q. event_of id q.1) slept)
            (result ∙ ap (after m id) slept)
      | inr checked ↦
          Turns-Passes m.shared m.shared m r id (check m.shared id refused) e
            (check-Turns m.shared id refused) n refl refl
            (event ∙ ap (λ q. event_of id q.1) checked) (result ∙ ap (after m id) checked)
    ]
Step-Passes m e r (rises id refused n inside slept event result) =
    Turns-Passes m.shared _ m r id (rise m.shared id refused) e (rise-Turns m.shared id refused) n
      refl refl event result
Step-Passes m e r (wakes id slack w signalled h event result) =
    let (idle, n, same) = wake_lem m.shared id slack w signalled h in
    enables id event idle n (ap (λ x. x.shared.next) result ∙ ap (λ x. x.next) same)
      (ap (λ x. is_aborted x.shared.status) result ∙ ap (λ x. is_aborted x.status) same)
Step-Passes m e r (aborts event result) =
    keeps event (ap (λ x. x.shared.next) result ∙ abort-next m.shared)
      (λ ended. ap (λ x. is_aborted x.shared.status) result ∙ abort-status m.shared)
