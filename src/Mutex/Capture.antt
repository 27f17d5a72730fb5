-- ===== src/Mutex/Capture.antt =====
-- The capture of a running task by the mutex handler (`_mutex_handle`).
use lotto.Base.{
  ℕ, suc, ◌<◌, ◌≡◌, ◌≢◌, refl, sym, Bool, true, false, not, none, some, ◌==◌, ◌&&◌, ◌||◌, ok, arith,
  inl, inr, ◌⊎◌, Bool-cases, Option-cases, ◌∙◌, Returns, Returns_of,
}
use lotto.Base.Words.{no_task}
use lotto.Map.{find}
use lotto.Tidset.{has}
use lotto.Tidset.Valid
use lotto.Tidset.Valid.{insert-new, inserted, growth_limit}
use lotto.Mutex.{
  State, Mtx, put, handle_acquire, remove_waiters, check_deadlock, should_wait,
  strict_check_release,
}
use lotto.Event.{CapturePoint, Decision}
use lotto.Mutex.Handle.{
  Config, handle, on_event, blames, event_mutex_acquire, event_mutex_release, is_mutex_event,
}
use lotto.Mutex.Find.{item, init_put}
use lotto.Mutex.Valid.{IsSound, item-IsSoundMtx}
use lotto.Mutex.Effects.{acquire-Puts}
use lotto.Mutex.Waiting.{remove_waiters-filters, should_wait-IsBlocked}
use lotto.Mutex.Steps.{acquire-IsSound}
use lotto.Mutex.Verdict.{handle-filters}

-- The task is not waiting, and the waiter set that it may join can grow.
pub record IsRunning (s : State) (cp : CapturePoint) : Type 0 where
  pub named : cp.id ≢ no_task
  pub unblocked : should_wait s cp.id ≡ false
  pub outside : has (item s cp.addr).waiters cp.id ≡ false
  pub roomy : (item s cp.addr).waiters.capacity < growth_limit

acquire-ok :
    (s : State) (cp : CapturePoint)
    → IsSound s
    → IsRunning s cp
    → (r : State) × (handle_acquire s cp.id cp.addr ≡ ok r)
unfolding handle_acquire
acquire-ok s cp v run =
    let (q, e, same, here, p, puts) = init_put s cp.addr v.keyed in
    let m = item s cp.addr in
    let w = item-IsSoundMtx s cp.addr v in
    elim (Bool-cases (m.owner == cp.id)) [
      | inl own ↦ (q, ground (arith, v.idle cp.id))
      | inr other ↦ (
        put q cp.addr (record m { waiters = inserted m.waiters cp.id }),
        ground (arith, v.idle cp.id, insert-new m.waiters cp.id w.sets run.roomy run.outside),
      )
    ]

-- A task that the capture blocks waits for a mutex that another task owns.
blocked_by_other :
    (s : State) (cp : CapturePoint) (r : State)
    → IsSound s
    → IsRunning s cp
    → handle_acquire s cp.id cp.addr ≡ ok r
    → should_wait r cp.id ≡ true
    → (m : Mtx) × (find r.mutexes cp.addr ≡ some m) × (m.owner ≢ no_task) × (m.owner ≢ cp.id)
blocked_by_other s cp r v run h b =
    let (m, p, owner, _, _, members) = acquire-Puts s cp.id cp.addr r v h in
    let w = acquire-IsSound s cp.id cp.addr r v h in
    let (x, n, there, owned, waits) = (should_wait-IsBlocked r cp.id w.keyed).0 b in
    elim (Bool-cases (cp.addr == x)) [
      | inl same ↦ (
        m,
        ground (arith, p.found cp.addr),
        ground (arith, p.found x, there, owned),
        ground (arith, p.found x, there, owned, waits, members cp.id, owner, run.outside),
      )
      | inr other ↦ absurd (
          ground (
            arith,
            run.unblocked,
            (should_wait-IsBlocked s cp.id v.keyed).1
                (x, n, ground (arith, p.found x, there), owned, waits),
          ))
    ]

check_deadlock-ok :
    (fuel : ℕ) (s : State) (waiter key : ℕ) (m : Mtx)
    → ((x : ℕ) → has s.waiters x ≡ false)
    → waiter ≢ no_task
    → find s.mutexes key ≡ some m
    → m.owner ≢ no_task
    → m.owner ≢ waiter
    → check_deadlock (suc fuel) s waiter key no_task ≡ ok false
unfolding check_deadlock
check_deadlock-ok fuel s waiter key m idle n e o other = ground (arith, idle m.owner)

blames-ok :
    (config : Config) (fuel : ℕ) (s : State) (cp : CapturePoint) (waits : Bool)
    → (waits ≡ true
        → (cp.type_id ≡ event_mutex_acquire)
          × (check_deadlock fuel s cp.id cp.addr no_task ≡ ok false))
    → blames config fuel s cp waits ≡ ok false
unfolding blames
blames-ok config fuel s cp true h = ground (arith, h refl)
blames-ok config fuel s cp false h = ground arith

-- A capture of a running task returns if a strict release names a known mutex.
capture-ok :
    (config : Config) (fuel : ℕ) (s : State) (cp : CapturePoint) (e : Decision) (r : State)
    (d : Decision)
    → e.skip ≡ false
    → cp.id ≢ no_task
    → on_event s cp e ≡ ok (r, d)
    → ((cp.type_id ≡ event_mutex_release) → strict_check_release config.strict r cp.addr ≡ ok tt)
    → blames config fuel r cp (remove_waiters r d.tset cp.id).1 ≡ ok false
    → (e' : Decision) × (handle config fuel s cp e ≡ ok (r, e'))
unfolding handle
capture-ok config fuel s cp e r d k n h strict b =
    (record d { tset = (remove_waiters r d.tset cp.id).0 }, ground (arith, strict))

on_acquire :
    (s : State) (cp : CapturePoint) (e : Decision) (r : State)
    → cp.type_id ≡ event_mutex_acquire
    → e.filtered ≡ false
    → handle_acquire s cp.id cp.addr ≡ ok r
    → on_event s cp e ≡ ok (r, record e { filtered = true; is_chpt = true })
unfolding on_event
on_acquire s cp e r t f h = ground arith

on_other :
    (s : State) (cp : CapturePoint) (e : Decision)
    → cp.type_id ≢ event_mutex_acquire
    → on_event s cp e ≡ ok (s, record e { is_chpt = is_mutex_event cp.type_id || e.is_chpt })
unfolding on_event
on_other s cp e n = ground arith

strict_check-ok :
    (strict : Bool) (s : State) (addr : ℕ)
    → (strict ≡ false) ⊎ (find s.mutexes addr ≢ none)
    → strict_check_release strict s addr ≡ ok tt
unfolding strict_check_release
strict_check-ok strict s addr (inl lax) = ground arith
strict_check-ok strict s addr (inr known) = elim (Option-cases (find s.mutexes addr)) [
  | inl e ↦ absurd (known e)
  | inr (m, e) ↦ ground (arith, e)
]

capture_acquire :
    (config : Config) (fuel : ℕ) (s : State) (cp : CapturePoint) (e : Decision)
    → IsSound s
    → IsRunning s cp
    → e.skip ≡ false
    → e.filtered ≡ false
    → Valid.IsValid e.tset
    → cp.type_id ≡ event_mutex_acquire
    → (r : State) × (e' : Decision) × (handle config (suc fuel) s cp e ≡ ok (r, e'))
capture_acquire config fuel s cp e v run k f valid t =
    let (r, h) = acquire-ok s cp v run in
    let w = acquire-IsSound s cp.id cp.addr r v h in
    let (_, _, waits) = remove_waiters-filters r e.tset cp.id valid in
    let d : Decision = record e { filtered = true; is_chpt = true } in
    let (e', done) =
      capture-ok config (suc fuel) s cp e r d k run.named (on_acquire s cp e r t f h)
        (λ release. absurd (omega arith))
        (blames-ok config (suc fuel) r cp _ (λ b.
          let (m, there, owned, other) = blocked_by_other s cp r v run h (sym waits ∙ b) in
          (t, check_deadlock-ok fuel r cp.id cp.addr m w.idle run.named there owned other))) in
    (r, e', done)

capture_other :
    (config : Config) (fuel : ℕ) (s : State) (cp : CapturePoint) (e : Decision)
    → IsRunning s cp
    → e.skip ≡ false
    → Valid.IsValid e.tset
    → cp.type_id ≢ event_mutex_acquire
    → (cp.type_id ≡ event_mutex_release → (config.strict ≡ false) ⊎ (find s.mutexes cp.addr ≢ none))
    → (r : State) × (e' : Decision) × (handle config fuel s cp e ≡ ok (r, e'))
capture_other config fuel s cp e run k valid n known =
    let (_, _, waits) = remove_waiters-filters s e.tset cp.id valid in
    let (e', done) =
      capture-ok config fuel s cp e s _ k run.named (on_other s cp e n)
        (λ release. strict_check-ok config.strict s cp.addr (known release))
        (blames-ok config fuel s cp _ (λ b. absurd (ground (arith, waits, b, run.unblocked)))) in
    (s, e', done)

-- In a sound state, the capture of a task that is running (named, not waiting, with room in the
-- waiter set) returns, with fuel 1 or more, if the decision is not skipped, has no filter yet and
-- has a well-formed set, and if a strict release names a known mutex. The sequencer's set then has
-- just those of its tasks that do not wait for an owned mutex.
pub handle-Returns :
    (config : Config) (fuel : ℕ) (s : State) (cp : CapturePoint) (e : Decision)
    → IsSound s
    → IsRunning s cp
    → e.skip ≡ false
    → e.filtered ≡ false
    → Valid.IsValid e.tset
    → (cp.type_id ≡ event_mutex_release → (config.strict ≡ false) ⊎ (find s.mutexes cp.addr ≢ none))
    → Returns
        (handle config (suc fuel) s cp e)
        (λ r. (x : ℕ) → has r.1.tset x ≡ (has e.tset x && not (should_wait r.0 x)))
handle-Returns config fuel s cp e v run k f valid known =
    let (r, e', h) = result in
    Returns_of (λ q. (x : ℕ) → has q.1.tset x ≡ (has e.tset x && not (should_wait q.0 x)))
      {m = handle config (suc fuel) s cp e} (r, e') h
      (handle-filters config (suc fuel) s cp e r e' h k valid).1
  where
    result : (r : State) × (e' : Decision) × (handle config (suc fuel) s cp e ≡ ok (r, e'))
    result = elim (Bool-cases (cp.type_id == event_mutex_acquire)) [
      | inl t ↦ capture_acquire config fuel s cp e v run k f valid (ground arith)
      | inr n ↦ capture_other config (suc fuel) s cp e run k valid (λ q. ground arith) known
    ]
