-- ===== src/Rwlock/Runs.antt =====
-- The runs of the handler of reader-writer locks: captures and resumptions by named tasks.
use lotto.Base.{
  ℕ, ◌≡◌, ◌≢◌, some, Option, ◌⊎◌, ◌==◌, Outcome, ok, fault, arith, Bool-cases, inl, inr, refl,
  Outcome-cases,
}
use lotto.Base.Words.{no_task}
use lotto.Map.{find}
use lotto.Event.{Decision}
use lotto.Rwlock.{Lock, State, initial, handle_rdlock, handle_wrlock}
use lotto.Rwlock.Handle.{
  CapturePoint, Event, rdlock, timed_rdlock, wrlock, timed_wrlock, try_rdlock, try_wrlock, unlock,
  other, on_event, filter_waiters, handle, resume, done, tried,
}
use lotto.Rwlock.Valid.{IsSound, Writes, Writes-IsSound, initial-IsSound}
use lotto.Rwlock.Effects.{
  rdlock-Writes, wrlock-Writes, posthandle_rdlock-Writes, posthandle_tryrdlock-Writes,
}
use lotto.Rwlock.Writers.{
  posthandle_wrlock-Writes, posthandle_trywrlock-Writes, posthandle_unlock-Writes,
}

pub data Step (s : State) (r : State) : Type 0 where
  captured : (cp : CapturePoint) (e e' : Decision) → handle s cp e ≡ ok (r, e') → Step s r
  resumed :
      (cp : CapturePoint) (ret : Option ℕ) → cp.id ≢ no_task → resume s cp ≡ ok (r, ret) → Step s r

pub data Reach : State → Type 0 where
  start : Reach initial
  next : {s r : State} → Reach s → Step s r → Reach r

-- What an operation that returned has done.
abbrev Changes : State → ℕ → State → Type 0
Changes s addr r = (r ≡ s) ⊎ Writes s addr r

read_Changes :
    (s : State) (cp : CapturePoint) (e : Decision) (r : State) (d : Decision)
    → IsSound s
    → (cp.event ≡ rdlock) ⊎ (cp.event ≡ timed_rdlock)
    → on_event s cp e ≡ ok (r, d)
    → Changes s cp.addr r
unfolding on_event
read_Changes s cp e r d v k h = elim (Outcome-cases (handle_rdlock s cp.id cp.addr)) [
  | inl (f, stops) ↦ absurd (ground arith)
  | inr ((q, b), goes) ↦
      let same : q ≡ r = ground arith in
      inr (rdlock-Writes s cp.id cp.addr r b v (rw (← same) goes))
]

write_Changes :
    (s : State) (cp : CapturePoint) (e : Decision) (r : State) (d : Decision)
    → IsSound s
    → (cp.event ≡ wrlock) ⊎ (cp.event ≡ timed_wrlock)
    → on_event s cp e ≡ ok (r, d)
    → Changes s cp.addr r
unfolding on_event
write_Changes s cp e r d v k h = elim (Outcome-cases (handle_wrlock s cp.id cp.addr)) [
  | inl (f, stops) ↦ absurd (ground arith)
  | inr ((q, b), goes) ↦
      let same : q ≡ r = ground arith in
      inr (wrlock-Writes s cp.id cp.addr r b v (rw (← same) goes))
]

-- The events that queue nobody.
abbrev pub IsQuiet : Event → Type 0
IsQuiet k = ((k ≡ try_rdlock) ⊎ (k ≡ try_wrlock)) ⊎ ((k ≡ unlock) ⊎ (k ≡ other))

quiet_Changes :
    (s : State) (cp : CapturePoint) (e : Decision) (r : State) (d : Decision)
    → IsQuiet cp.event
    → on_event s cp e ≡ ok (r, d)
    → Changes s cp.addr r
unfolding on_event
quiet_Changes s cp e r d k h = inl (ground arith)

pub Event-cases :
    (k : Event)
    → ((k ≡ rdlock) ⊎ (k ≡ timed_rdlock)) ⊎ (((k ≡ wrlock) ⊎ (k ≡ timed_wrlock)) ⊎ IsQuiet k)
Event-cases rdlock = inl (inl refl)
Event-cases timed_rdlock = inl (inr refl)
Event-cases wrlock = inr (inl (inl refl))
Event-cases timed_wrlock = inr (inl (inr refl))
Event-cases try_rdlock = inr (inr (inl (inl refl)))
Event-cases try_wrlock = inr (inr (inl (inr refl)))
Event-cases unlock = inr (inr (inr (inl refl)))
Event-cases other = inr (inr (inr (inr refl)))

on_event-Changes :
    (s : State) (cp : CapturePoint) (e : Decision) (r : State) (d : Decision)
    → IsSound s
    → on_event s cp e ≡ ok (r, d)
    → Changes s cp.addr r
on_event-Changes s cp e r d v h = elim (Event-cases cp.event) [
  | inl k ↦ read_Changes s cp e r d v k h
  | inr (inl k) ↦ write_Changes s cp e r d v k h
  | inr (inr k) ↦ quiet_Changes s cp e r d k h
]

handle-Changes :
    (s : State) (cp : CapturePoint) (e : Decision) (r : State) (d : Decision)
    → IsSound s
    → handle s cp e ≡ ok (r, d)
    → Changes s cp.addr r
unfolding handle
handle-Changes s cp e r d v h = elim (Bool-cases e.skip) [
  | inl skipped ↦ inl (ground arith)
  | inr active ↦ elim (Outcome-cases (on_event s cp e)) [
    | inl (f, stops) ↦ absurd (ground arith)
    | inr ((q, e'), goes) ↦ elim (Outcome-cases (filter_waiters q.locks.items e'.tset)) [
      | inl (f, stops) ↦ absurd (ground arith)
      | inr (tset, filters) ↦
          let same : q ≡ r = ground arith in on_event-Changes s cp e r e' v (rw (← same) goes)
    ]
  ]
]

done_lem : (m : Outcome State) (r : State) (ret : Option ℕ) → done m ≡ ok (r, ret) → m ≡ ok r
done_lem (fault f) r ret h = absurd (ground arith)
done_lem (ok q) r ret h = ground arith

tried_lem :
    (m : Outcome (State × ℕ)) (r : State) (ret : Option ℕ)
    → tried m ≡ ok (r, ret)
    → (n : ℕ) × (m ≡ ok (r, n))
tried_lem (fault f) r ret h = absurd (ground arith)
tried_lem (ok (q, n)) r ret h = (n, ground arith)

resume-Changes :
    (s : State) (cp : CapturePoint) (r : State) (ret : Option ℕ)
    → IsSound s
    → cp.id ≢ no_task
    → resume s cp ≡ ok (r, ret)
    → Changes s cp.addr r
unfolding resume
resume-Changes s cp r ret v n h = go cp.event h
  where
    go : (k : Event) → resume s (record cp { event = k }) ≡ ok (r, ret) → Changes s cp.addr r
    go rdlock h = inr (posthandle_rdlock-Writes s cp.id cp.addr r v n (done_lem _ r ret h))
    go timed_rdlock h = inr (posthandle_rdlock-Writes s cp.id cp.addr r v n (done_lem _ r ret h))
    go wrlock h = inr (posthandle_wrlock-Writes s cp.id cp.addr r v (done_lem _ r ret h))
    go timed_wrlock h = inr (posthandle_wrlock-Writes s cp.id cp.addr r v (done_lem _ r ret h))
    go unlock h = inr (posthandle_unlock-Writes s cp.id cp.addr r v n (done_lem _ r ret h))
    go try_rdlock h =
        let (c, e) = tried_lem _ r ret h in
        inr (posthandle_tryrdlock-Writes s cp.id cp.addr r c v n e)
    go try_wrlock h =
        let (c, e) = tried_lem _ r ret h in
        inr (posthandle_trywrlock-Writes s cp.id cp.addr r c v e)
    go other h = inl (ground arith)

Changes-IsSound : (s : State) (addr : ℕ) (r : State) → IsSound s → Changes s addr r → IsSound r
Changes-IsSound s addr r v (inl same) = rw same v
Changes-IsSound s addr r v (inr w) = Writes-IsSound s addr r v w

Step-IsSound : {s r : State} → Step s r → IsSound s → IsSound r
Step-IsSound {s} {r} (captured cp e e' h) v =
    Changes-IsSound s cp.addr r v (handle-Changes s cp e r e' v h)
Step-IsSound {s} {r} (resumed cp ret n h) v =
    Changes-IsSound s cp.addr r v (resume-Changes s cp r ret v n h)

pub Reach-IsSoundState : {s : State} → Reach s → IsSound s
Reach-IsSoundState start = initial-IsSound
Reach-IsSoundState (next run step) = Step-IsSound step (Reach-IsSoundState run)

-- In every state that captures, and resumptions by named tasks, reach from the initial one, each
-- lock has no writer or no readers.
pub Reach-exclusive :
    (s : State) (addr : ℕ) (l : Lock)
    → Reach s
    → find s.locks addr ≡ some l
    → (l.writer ≡ no_task) ⊎ (l.readers.nitems ≡ 0)
Reach-exclusive s addr l run e =
    let w = (Reach-IsSoundState run).sound addr l e in
    elim (Bool-cases (l.writer == no_task)) [
      | inl free ↦ inl (ground arith)
      | inr written ↦ inr (w.exclusive (ground arith))
    ]
