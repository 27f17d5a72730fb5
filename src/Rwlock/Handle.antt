-- ===== src/Rwlock/Handle.antt =====
-- The capture handler `_rwlock_handle` of modules/rwlock/src/handler.c and the subscriber that runs when
-- the task resumes. The numbers of the events are those of a library; `Event` names the cases.
use lotto.Base.{
  ℕ, Bool, true, not, Option, none, some, List, [], ◌∷◌, ltb, ◌==◌, if◌then◌else◌, Outcome, ok,
  ◌>>=◌, ◌>>◌, assert,
}
use lotto.Base.Words.{no_task}
use lotto.Reason.{rsrc_deadlock}
use lotto.Event.{Decision}
use lotto.Tidset
use lotto.Tidset.{Tidset, subtract}
use lotto.Rwlock.{
  Lock, State, is_read_locked, is_write_locked, handle_rdlock, handle_wrlock, posthandle_rdlock,
  posthandle_tryrdlock, posthandle_wrlock, posthandle_trywrlock, posthandle_unlock,
}

pub data Event : Type 0 where
  rdlock timed_rdlock wrlock timed_wrlock try_rdlock try_wrlock unlock other : Event

-- `addr` is the address of the lock in the payload.
pub record CapturePoint : Type 0 where
  pub id : ℕ
  pub event : Event
  pub addr : ℕ

-- What both kinds of lock write to the decision.
abbrev queued_at : Decision → Bool → Outcome Decision
queued_at e queued = do
  let e' = record e { reason = if queued then e.reason else rsrc_deadlock; is_chpt = true }
  assert (not e.filtered)
  ok (record e' { filtered = true })

abbrev to_read : State → CapturePoint → Decision → Outcome (State × Decision)
to_read s cp e = do
  (s', queued) ← handle_rdlock s cp.id cp.addr
  e' ← queued_at e queued
  ok (s', e')

abbrev to_write : State → CapturePoint → Decision → Outcome (State × Decision)
to_write s cp e = do
  (s', queued) ← handle_wrlock s cp.id cp.addr
  e' ← queued_at e queued
  ok (s', e')

-- The `switch` of the handler.
unfoldable pub on_event : State → CapturePoint → Decision → Outcome (State × Decision)
on_event s cp e = elim cp.event [
  | rdlock ↦ to_read s cp e
  | timed_rdlock ↦ to_read s cp e
  | wrlock ↦ to_write s cp e
  | timed_wrlock ↦ to_write s cp e
  | other ↦ ok (s, e)
  | _ ↦ ok (s, record e { is_chpt = true })
]

-- The loop of the handler over the locks.
unfoldable pub filter_waiters : List (ℕ × Lock) → Tidset → Outcome Tidset
unfolding is_read_locked
filter_waiters [] tset = ok tset
filter_waiters ((k, l) ∷ ls) tset = do
  reading ← is_read_locked l
  filter_waiters ls (
      if reading
      then subtract tset l.write_waiters
      else (if is_write_locked l
          then subtract (subtract tset l.read_waiters) l.write_waiters
          else (if ltb 0 (Tidset.size l.write_waiters)
              then subtract tset l.read_waiters
              else tset)))

unfoldable pub handle : State → CapturePoint → Decision → Outcome (State × Decision)
unfolding on_event filter_waiters
handle s cp e = if e.skip then ok (s, e) else (do
  assert (not (cp.id == no_task))
  (s', e') ← on_event s cp e
  tset ← filter_waiters s'.locks.items e'.tset
  ok (s', record e' { tset = tset }))

abbrev pub tried : Outcome (State × ℕ) → Outcome (State × Option ℕ)
tried m = do (s, ret) ← m; ok (s, some ret)

abbrev pub done : Outcome State → Outcome (State × Option ℕ)
done m = do s ← m; ok (s, none)

-- The subscriber of the resume chain: the new state, and what it writes to `ret` of a try event.
unfoldable pub resume : State → CapturePoint → Outcome (State × Option ℕ)
resume s cp = elim cp.event [
  | rdlock ↦ done (posthandle_rdlock s cp.id cp.addr)
  | timed_rdlock ↦ done (posthandle_rdlock s cp.id cp.addr)
  | wrlock ↦ done (posthandle_wrlock s cp.id cp.addr)
  | timed_wrlock ↦ done (posthandle_wrlock s cp.id cp.addr)
  | unlock ↦ done (posthandle_unlock s cp.id cp.addr)
  | try_rdlock ↦ tried (posthandle_tryrdlock s cp.id cp.addr)
  | try_wrlock ↦ tried (posthandle_trywrlock s cp.id cp.addr)
  | other ↦ ok (s, none)
]
