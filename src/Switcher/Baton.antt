-- ===== src/Switcher/Baton.antt =====
-- Every return from `switcher_yield` answers one call of `switcher_wake`.
use lotto.Base.{
  ℕ, ◌≡◌, ◌≢◌, ◌⊎◌, ◌∙◌, refl, sym, ap, subst, Bool, true, false, ◌||◌, Option, none, some, List,
  [], ◌∷◌, ◌==◌, if◌then◌else◌, arith, Bool-cases, inl, inr,
}
use lotto.Base.Words.{no_task, any_task}
use lotto.Switcher.{
  Status, Switcher, initial, is_aborted, returns, sleeps, leave, check, must_wait, recheck, rise,
}
use lotto.Switcher.Runs.{System, begin, Event, woken, returned, quiet, Run, stop, more}
use lotto.Switcher.Steps.{Passes, keeps, enables, takes, Step-Passes}

-- The task that the events enable, if a task is enabled only when no other is, and returns only when it
-- is enabled, itself or as any task.
abbrev pub baton : List Event → Option ℕ
baton [] = some no_task
baton (quiet ∷ l) = baton l
baton (woken id ∷ l) = elim (baton l) [
  | none ↦ none
  | some k ↦ if k == no_task then some id else none
]
baton (returned id ∷ l) = elim (baton l) [
  | none ↦ none
  | some k ↦ if (k == id) || (k == any_task) then some no_task else none
]

baton_step :
    (m : Switcher) (e : Event) (r : Switcher) (before : List Event)
    → Passes m e r
    → is_aborted r.status ≡ false
    → (is_aborted m.status ≡ false → baton before ≡ some m.next)
    → baton (e ∷ before) ≡ some r.next
baton_step m e r before (keeps event same ended) running h =
    let was : is_aborted m.status ≡ false = ground (arith, ended) in
    ap (λ x. baton (x ∷ before)) event ∙ h was ∙ ap some (sym same)
baton_step m e r before (enables id event idle n now same) running h =
    ap (λ x. baton (x ∷ before)) event
    ∙ enabled (h (sym same ∙ running) ∙ ap some idle)
    ∙ ap some (sym now)
  where
    enabled : baton before ≡ some no_task → baton (woken id ∷ before) ≡ some id
    enabled h = rw h refl
baton_step m e r before (takes id event n idle same may) running h =
    let was = sym same ∙ running in
    ap (λ x. baton (x ∷ before)) event ∙ taken (h was) (held may was) ∙ ap some (sym idle)
  where
    taken :
        baton before ≡ some m.next
        → ((m.next == id) || (m.next == any_task)) ≡ true
        → baton (returned id ∷ before) ≡ some no_task
    taken h k = rw (h, k) refl

    held :
        (is_aborted m.status ≡ true) ⊎ ((m.next ≡ id) ⊎ (m.next ≡ any_task))
        → is_aborted m.status ≡ false
        → ((m.next == id) || (m.next == any_task)) ≡ true
    held may was = ground arith

nobody : baton [] ≡ some begin.shared.next
unfolding initial
nobody = refl

-- In every run from the initial state, as long as the switcher is not aborted, the log of wakes and
-- returns is one in which a task is enabled only when no other is and returns only when it is
-- enabled, itself or as any task; the task enabled at its end is `next`.
pub Run-baton :
    (log : List Event) (r : System)
    → Run begin log r
    → is_aborted r.shared.status ≡ false
    → baton log ≡ some r.shared.next
Run-baton log r (stop no_events same) running =
    ap baton no_events ∙ nobody ∙ ap (λ x. some x.shared.next) (sym same)
Run-baton log r (more {before} {m} {e} run step events) running =
    ap baton events
    ∙ baton_step m.shared e r.shared before (Step-Passes m e r step) running
        (Run-baton before m run)

-- The task has returned.
abbrev pub has_returned : ℕ → List Event → Bool
has_returned id [] = false
has_returned id (returned x ∷ l) = (x == id) || has_returned id l
has_returned id (woken x ∷ l) = has_returned id l
has_returned id (quiet ∷ l) = has_returned id l

-- The task may go, for it is enabled or the switcher aborted.
abbrev MayGo : Switcher → ℕ → Type 0
MayGo s id = (is_aborted s.status ≡ true) ⊎ (s.next ≡ id)

not_last :
    (id : ℕ) (e : Event) (l : List Event)
    → has_returned id (e ∷ l) ≡ false
    → has_returned id l ≡ false
not_last id (returned x) l h = ground arith
not_last id (woken x) l h = h
not_last id quiet l h = h

MayGo-step :
    (id : ℕ) (m : Switcher) (e : Event) (r : Switcher) (before : List Event)
    → Passes m e r
    → id ≢ no_task
    → id ≢ any_task
    → has_returned id (e ∷ before) ≡ false
    → MayGo m id
    → MayGo r id
MayGo-step id m e r before (keeps event same ended) n a h may = ground (arith, ended)
MayGo-step id m e r before (enables x event idle k now same) n a h may = ground arith
MayGo-step id m e r before (takes x event k idle same goes) n a h may =
    let other : ((x == id) || has_returned id before) ≡ false =
      subst (λ y. has_returned id (y ∷ before) ≡ false) event h in
    ground arith

MayGo-Run :
    (id : ℕ) (s : System) (log : List Event) (r : System)
    → Run s log r
    → id ≢ no_task
    → id ≢ any_task
    → has_returned id log ≡ false
    → MayGo s.shared id
    → MayGo r.shared id
MayGo-Run id s log r (stop no_events same) n a h may = rw same may
MayGo-Run id s log r (more {before} {m} {e} run step events) n a h may =
    let h' : has_returned id (e ∷ before) ≡ false =
      subst (λ l. has_returned id l ≡ false) events h in
    MayGo-step id m.shared e r.shared before (Step-Passes m e r step) n a h'
      (MayGo-Run id s before m run n a (not_last id e before h') may)

may_pass : (t : Switcher) (id : ℕ) (refused : Bool) → MayGo t id → must_wait t id refused ≡ false
unfolding must_wait
may_pass t id refused may = ground arith

check_goes :
    (t : Switcher) (id : ℕ) (refused : Bool)
    → MayGo t id
    → (check t id refused).1 ≡ returns (leave t id).1
unfolding check
check_goes t id refused may = let passes = may_pass t id refused may in rw passes refl

rise_goes :
    (t : Switcher) (id : ℕ) (refused : Bool)
    → MayGo t id
    → (rise t id refused).1 ≡ returns (leave (record t { slack = 0 }) id).1
unfolding rise
rise_goes t id refused may = check_goes (record t { slack = 0 }) id refused may

slack_free : (t : Switcher) (id : ℕ) → (leave (record t { slack = 0 }) id).1 ≡ (leave t id).1
unfolding leave
slack_free t id = elim (Bool-cases (is_aborted t.status)) [
  | inl ended ↦ rw ended refl
  | inr running ↦ rw running refl
]

recheck_goes :
    (t : Switcher) (id : ℕ) (refused : Bool)
    → MayGo t id
    → (recheck t id refused).1 ≡ (if t.slack == 0 then returns (leave t id).1 else sleeps)
unfolding recheck
recheck_goes t id refused may = elim (Bool-cases (t.slack == 0)) [
  | inl e ↦ rw e (check_goes t id refused may)
  | inr e ↦ rw e refl
]

-- A named task that is enabled stays so in every run in which it does not return, whatever other
-- tasks do: at its end the task returns at its next turn if no slack is left, and otherwise sleeps
-- and returns at the turn after.
pub enabled-returns :
    (id : ℕ) (s : System) (log : List Event) (r : System) (refused : Bool)
    → id ≢ no_task
    → id ≢ any_task
    → s.shared.next ≡ id
    → Run s log r
    → has_returned id log ≡ false
    → (status : Status) × ((recheck r.shared id refused).1
        ≡ (if r.shared.slack == 0 then returns status else sleeps))
      × ((rise r.shared id refused).1 ≡ returns status)
enabled-returns id s log r refused n a enabled run h =
    let may = MayGo-Run id s log r run n a h (inr enabled) in
    (
      (leave r.shared id).1,
      recheck_goes r.shared id refused may,
      rise_goes r.shared id refused may ∙ ap returns (slack_free r.shared id),
    )
