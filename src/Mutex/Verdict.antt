-- ===== src/Mutex/Verdict.antt =====
-- What a capture by the mutex handler leaves of the decision.
use lotto.Base.{ℕ, zero, suc, ◌≡◌, Bool, false, not, ◌&&◌, ok, arith, inl, inr, Outcome-cases}
use lotto.Base.Words.{no_task}
use lotto.Tidset.{has}
use lotto.Tidset.Valid
use lotto.Mutex.{State, at, remove_waiters, check_deadlock, should_wait}
use lotto.Event.{CapturePoint, Decision}
use lotto.Mutex.Handle.{Config, handle, blames}
use lotto.Mutex.Valid.{IsSound}
use lotto.Mutex.Waiting.{remove_waiters-filters}
use lotto.Mutex.Owner.{captured, Step-IsSound, on_event_keeps}
use lotto.Mutex.Steps.{handle_parts}

-- After a capture that is not skipped the sequencer's set has just those of its tasks that do not
-- wait for an owned mutex.
pub handle-filters :
    (config : Config) (fuel : ℕ) (s : State) (cp : CapturePoint) (e : Decision) (r : State)
    (e' : Decision)
    → handle config fuel s cp e ≡ ok (r, e')
    → e.skip ≡ false
    → Valid.IsValid e.tset
    → Valid.IsValid e'.tset × ((x : ℕ) → has e'.tset x ≡ (has e.tset x && not (should_wait r x)))
handle-filters config fuel s cp e r e' h k v =
    let (d, deadlock, _, goes, _, tset, _) = handle_parts config fuel s cp e r e' h k in
    let (_, same, _) = on_event_keeps s cp e r d goes in
    let (valid, members, _) = remove_waiters-filters r d.tset cp.id (rw same v) in
    (rw tset valid, λ x. ground (arith, members x, same, tset))

-- With the handler's waiter set empty the search gives up at the first owner.
check_deadlock-blind :
    (fuel : ℕ) (s : State) (waiter key : ℕ) (b : Bool)
    → ((x : ℕ) → has s.waiters x ≡ false)
    → check_deadlock fuel s waiter key no_task ≡ ok b
    → b ≡ false
unfolding check_deadlock
check_deadlock-blind zero s waiter key b idle h = cc
check_deadlock-blind (suc fuel) s waiter key b idle h = elim (Outcome-cases (at s key)) [
  | inl (f, dangling) ↦ ground arith
  | inr (m, found) ↦ ground (arith, idle m.owner)
]

blames-blind :
    (config : Config) (fuel : ℕ) (s : State) (cp : CapturePoint) (waits b : Bool)
    → ((x : ℕ) → has s.waiters x ≡ false)
    → blames config fuel s cp waits ≡ ok b
    → b ≡ false
unfolding blames
blames-blind config fuel s cp waits b idle h =
    ground (arith, check_deadlock-blind fuel s cp.id cp.addr b idle)

-- The deadlock search never reports: from a sound state, a capture that is not skipped and returns
-- leaves the reason of the decision as it was, whatever the configuration and the fuel.
pub handle-keeps_reason :
    (config : Config) (fuel : ℕ) (s : State) (cp : CapturePoint) (e : Decision) (r : State)
    (e' : Decision)
    → IsSound s
    → handle config fuel s cp e ≡ ok (r, e')
    → e.skip ≡ false
    → e'.reason ≡ e.reason
handle-keeps_reason config fuel s cp e r e' v h k =
    let (d, deadlock, _, goes, found, _, reason) = handle_parts config fuel s cp e r e' h k in
    let (_, _, same) = on_event_keeps s cp e r d goes in
    let w = Step-IsSound config fuel s r (captured cp e e' h) v in
    let never =
      blames-blind config fuel r cp (remove_waiters r d.tset cp.id).1 deadlock w.idle found in
    ground (arith, reason, same, never)
