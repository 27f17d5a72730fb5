-- ===== src/Rwlock/Capture.antt =====
-- The capture of a running task by the handler of reader-writer locks (`_rwlock_handle`).
use lotto.Base.{
  ℕ, ◌<◌, ◌≡◌, ◌≢◌, refl, Bool, true, false, not, ◌==◌, ◌&&◌, ◌⊎◌, ok, arith, inl, inr, Bool-cases,
  ltb, Returns, Returns_of, Option-cases, ◌||◌, if◌then◌else◌,
}
use lotto.Base.Words.{no_task}
use lotto.Reason.{rsrc_deadlock}
use lotto.Event.{Decision}
use lotto.Map
use lotto.Map.{find, tid_find}
use lotto.Tidset.{has}
use lotto.Tidset.Valid
use lotto.Tidset.Valid.{insert-new, inserted, growth_limit}
use lotto.Rwlock.{
  Lock, State, put_at, is_write_locked, is_read_locked_by, handle_rdlock, handle_wrlock,
  should_wait,
}
use lotto.Rwlock.Handle.{
  CapturePoint, Event, rdlock, timed_rdlock, wrlock, timed_wrlock, other, on_event, handle,
}
use lotto.Rwlock.Valid.{
  IsSound, lock_at, lock_at-IsSoundLock, opened, is_read_locked-eq, Writes-IsSound,
}
use lotto.Rwlock.Effects.{rdlock-Writes, wrlock-Writes}
use lotto.Rwlock.Waiting.{waits, should_wait-eq, filter-filters}
use lotto.Rwlock.Runs.{Event-cases, IsQuiet}

-- The task waits for no lock at the address, and the waiter sets can grow.
pub record IsRunning (s : State) (cp : CapturePoint) : Type 0 where
  pub named : cp.id ≢ no_task
  pub not_reading : has (lock_at s cp.addr).read_waiters cp.id ≡ false
  pub not_writing : has (lock_at s cp.addr).write_waiters cp.id ≡ false
  pub read_room : (lock_at s cp.addr).read_waiters.capacity < growth_limit
  pub write_room : (lock_at s cp.addr).write_waiters.capacity < growth_limit

rdlock-ok :
    (s : State) (cp : CapturePoint)
    → IsSound s
    → IsRunning s cp
    → (r : State) × (b : Bool) × (handle_rdlock s cp.id cp.addr ≡ ok (r, b))
unfolding handle_rdlock
rdlock-ok s cp v run =
    let (q, e, here, p, puts) = opened s cp.addr v in
    let l = lock_at s cp.addr in
    let w = lock_at-IsSoundLock s cp.addr v in
    elim (Bool-cases (is_write_locked l && (l.writer == cp.id))) [
      | inl own ↦ (q, false, ground arith)
      | inr free ↦ (
        put_at q cp.addr (record l { read_waiters = inserted l.read_waiters cp.id }),
        true,
        ground
            (arith, insert-new l.read_waiters cp.id w.readers_wait run.read_room run.not_reading),
      )
    ]

reads_by : (l : Lock) (id : ℕ) → id ≢ no_task → (b : Bool) × (is_read_locked_by l id ≡ ok b)
unfolding is_read_locked_by tid_find
reads_by l id n = elim (Option-cases (find l.readers id)) [
  | inl e ↦ (false, ground (arith, e))
  | inr (c, e) ↦ (true, ground (arith, e))
]

wrlock-ok :
    (s : State) (cp : CapturePoint)
    → IsSound s
    → IsRunning s cp
    → (r : State) × (b : Bool) × (handle_wrlock s cp.id cp.addr ≡ ok (r, b))
unfolding handle_wrlock
wrlock-ok s cp v run =
    let (q, e, here, p, puts) = opened s cp.addr v in
    let l = lock_at s cp.addr in
    let w = lock_at-IsSoundLock s cp.addr v in
    let reads = is_read_locked-eq l w in
    let (mine, told) = reads_by l cp.id run.named in
    let joins = insert-new l.write_waiters cp.id w.writers_wait run.write_room run.not_writing in
    let queued : State =
      put_at q cp.addr (record l { write_waiters = inserted l.write_waiters cp.id }) in
    elim (Bool-cases (is_write_locked l && (l.writer == cp.id))) [
      | inl own ↦ (q, false, ground (arith, reads))
      | inr free ↦ elim (Bool-cases (ltb 0 (Map.size l.readers) && mine)) [
        | inl own ↦ (q, false, ground (arith, reads, told))
        | inr foreign ↦ (queued, true, ground (arith, reads, told, joins))
      ]
    ]

abbrev is_other : Event → Bool
is_other other = true
is_other _ = false

-- What the capture of an event leaves of the state and the decision.
abbrev Captured : State → CapturePoint → Decision → Type 0
Captured s cp e =
    (r : State) × (d : Decision) × (on_event s cp e ≡ ok (r, d)) × (d.tset ≡ e.tset) × IsSound r

capture_read :
    (s : State) (cp : CapturePoint) (e : Decision)
    → IsSound s
    → IsRunning s cp
    → e.filtered ≡ false
    → (cp.event ≡ rdlock) ⊎ (cp.event ≡ timed_rdlock)
    → Captured s cp e
unfolding on_event
capture_read s cp e v run f k =
    let (r, b, h) = rdlock-ok s cp v run in
    let d : Decision = record e {
      reason = if b then e.reason else rsrc_deadlock;
      is_chpt = true;
      filtered = true;
    } in
    (
      r,
      d,
      ground (arith, h),
      refl,
      Writes-IsSound s cp.addr r v (rdlock-Writes s cp.id cp.addr r b v h),
    )

capture_write :
    (s : State) (cp : CapturePoint) (e : Decision)
    → IsSound s
    → IsRunning s cp
    → e.filtered ≡ false
    → (cp.event ≡ wrlock) ⊎ (cp.event ≡ timed_wrlock)
    → Captured s cp e
unfolding on_event
capture_write s cp e v run f k =
    let (r, b, h) = wrlock-ok s cp v run in
    let d : Decision = record e {
      reason = if b then e.reason else rsrc_deadlock;
      is_chpt = true;
      filtered = true;
    } in
    (
      r,
      d,
      ground (arith, h),
      refl,
      Writes-IsSound s cp.addr r v (wrlock-Writes s cp.id cp.addr r b v h),
    )

capture_quiet :
    (s : State) (cp : CapturePoint) (e : Decision) → IsSound s → IsQuiet cp.event → Captured s cp e
unfolding on_event
capture_quiet s cp e v k =
    (s, record e { is_chpt = not (is_other cp.event) || e.is_chpt }, ground arith, refl, v)

capture :
    (s : State) (cp : CapturePoint) (e : Decision)
    → IsSound s
    → IsRunning s cp
    → e.filtered ≡ false
    → Captured s cp e
capture s cp e v run f = elim (Event-cases cp.event) [
  | inl k ↦ capture_read s cp e v run f k
  | inr (inl k) ↦ capture_write s cp e v run f k
  | inr (inr k) ↦ capture_quiet s cp e v k
]

-- In a sound state, the capture of a running task (named, in neither waiter set of the lock, with
-- room in both) returns if the decision is not skipped, has no filter yet and has a well-formed
-- set. The state is then sound, and for each task the question whether it should wait returns; the
-- sequencer's set has just those of its tasks for which the answer is no.
pub capture-Returns :
    (s : State) (cp : CapturePoint) (e : Decision)
    → IsSound s
    → IsRunning s cp
    → e.skip ≡ false
    → e.filtered ≡ false
    → Valid.IsValid e.tset
    → Returns (handle s cp e) (λ r.
      IsSound r.0
      × ((x : ℕ) → Returns (should_wait r.0 x) (λ b. has r.1.tset x ≡ (has e.tset x && not b))))
unfolding handle
capture-Returns s cp e v run k f valid =
    let (r, d, h, same, sound) = capture s cp e v run f in
    let (t, filters, _, members) = filter-filters r d.tset sound (rw same valid) in
    Returns_of _ {m = handle s cp e} (r, record d { tset = t }) (ground (arith, run.named))
      (
        sound,
        λ x.
            Returns_of (λ b. has t x ≡ (has e.tset x && not b)) {m = should_wait r x} (waits r x)
              (should_wait-eq r x sound) (ground (arith, members x, same)),
      )
