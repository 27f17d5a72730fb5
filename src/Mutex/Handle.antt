-- ===== src/Mutex/Handle.antt =====
-- The capture handler `_mutex_handle` of modules/mutex/src/handler.c and the subscriber that runs
-- when the task resumes.
use lotto.Base.{
  ℕ, Bool, true, false, not, ◌&&◌, ◌||◌, Option, none, some, ◌==◌, if◌then◌else◌, Outcome, ok,
  ◌>>=◌, ◌>>◌, assert,
}
use lotto.Base.Words.{no_task}
use lotto.Reason.{rsrc_deadlock}
use lotto.Event.{CapturePoint, Decision}
use lotto.Mutex.{
  State, handle_acquire, remove_waiters, strict_check_release, check_deadlock, posthandle_acquire,
  posthandle_tryacquire, posthandle_release,
}

-- modules/mutex/include/lotto/modules/mutex/events.h
abbrev pub event_mutex_acquire : ℕ
event_mutex_acquire = 142

abbrev pub event_mutex_tryacquire : ℕ
event_mutex_tryacquire = 143

abbrev pub event_mutex_release : ℕ
event_mutex_release = 144

pub record Config : Type 0 where
  pub deadlock_check : Bool
  pub strict : Bool

abbrev pub is_mutex_event : ℕ → Bool
is_mutex_event type_id =
    (type_id == event_mutex_acquire)
    || ((type_id == event_mutex_tryacquire) || (type_id == event_mutex_release))

-- `mutex_event_addr` aborts on other events.
unfoldable pub event_addr : CapturePoint → Outcome ℕ
event_addr cp = do assert (is_mutex_event cp.type_id); ok cp.addr

-- The `switch` of the handler.
unfoldable pub on_event : State → CapturePoint → Decision → Outcome (State × Decision)
on_event s cp e =
    if cp.type_id == event_mutex_acquire
    then (do
      s' ← handle_acquire s cp.id cp.addr
      assert (not e.filtered)
      ok (s', record e { filtered = true; is_chpt = true }))
    else ok (s, record e { is_chpt = is_mutex_event cp.type_id || e.is_chpt })

-- The deadlock search: it runs only for a task that has to wait.
unfoldable pub blames : Config → ℕ → State → CapturePoint → Bool → Outcome Bool
unfolding event_addr
blames config fuel s cp waits =
    if not (cp.type_id == 0) && (waits && config.deadlock_check)
    then (do addr ← event_addr cp; check_deadlock fuel s cp.id addr no_task)
    else ok false

unfoldable pub handle : Config → ℕ → State → CapturePoint → Decision → Outcome (State × Decision)
unfolding on_event blames
handle config fuel s cp e = if e.skip then ok (s, e) else (do
  assert (not (cp.id == no_task))
  (s', e') ← on_event s cp e
  let (tset, waits) = remove_waiters s' e'.tset cp.id
  if cp.type_id == event_mutex_release then strict_check_release config.strict s' cp.addr else ok tt
  deadlock ← blames config fuel s' cp waits
  ok (s', record e' { tset = tset; reason = if deadlock then rsrc_deadlock else e'.reason }))

-- The subscriber of the resume chain: the new state, and what it writes to `ret` of a try event.
unfoldable pub resume : Config → State → CapturePoint → Outcome (State × Option ℕ)
resume config s cp =
    if cp.type_id == event_mutex_acquire
    then (do s' ← posthandle_acquire s cp.id cp.addr; ok (s', none))
    else (if cp.type_id == event_mutex_tryacquire
        then (do (s', ret) ← posthandle_tryacquire s cp.id cp.addr; ok (s', some ret))
        else (if cp.type_id == event_mutex_release
            then (do s' ← posthandle_release config.strict s cp.id cp.addr; ok (s', none))
            else ok (s, none)))
