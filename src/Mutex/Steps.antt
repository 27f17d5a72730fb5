-- ===== src/Mutex/Steps.antt =====
-- The mutex handler as a transition system: each step is a capture or a resumption that returns.
use lotto.Base.{
  ℕ, ◌≡◌, ◌≢◌, refl, Bool, false, if◌then◌else◌, ok, arith, inl, inr, Bool-cases, Outcome-cases,
}
use lotto.Base.Words.{no_task}
use lotto.Map
use lotto.Map.{Map, find, lookup}
use lotto.Tidset
use lotto.Tidset.{Tidset, has}
use lotto.Mutex.{
  State, initial, handle_acquire, posthandle_acquire, posthandle_tryacquire, posthandle_release,
  remove_waiters,
}
use lotto.Event.{CapturePoint, Decision}
use lotto.Mutex.Handle.{Config, handle, on_event, blames}
use lotto.Reason.{rsrc_deadlock}
use lotto.Mutex.Find.{item}
use lotto.Mutex.Valid.{IsSound, item-IsSoundMtx, Puts-IsSound, Drops-IsSound}
use lotto.Mutex.Effects.{
  unknown, forgotten, lowered, may_take, taken, tryacquire-Puts, acquire-Puts,
  posthandle_acquire-Puts, release-Released,
}

pub initial-IsSound : IsSound initial
unfolding initial Map.init Tidset.init Map.lookup
initial-IsSound = record {
  keyed = record { counted = refl; distinct = λ x. omega arith };
  sound = λ addr m e. cc;
  idle = λ x. refl;
}

pub acquire-IsSound :
    (s : State) (id addr : ℕ) (r : State) → IsSound s → handle_acquire s id addr ≡ ok r → IsSound r
acquire-IsSound s id addr r v h =
    let (m, p, owner, count, sets, members) = acquire-Puts s id addr r v h in
    let w = item-IsSoundMtx s addr v in
    Puts-IsSound s addr m r v
      (record {
        sets = sets;
        owned = λ e. ground (arith, w.owned);
        counted = λ e. ground (arith, w.counted);
      })
      p

pub posthandle_acquire-IsSound :
    (s : State) (id addr : ℕ) (r : State)
    → IsSound s
    → id ≢ no_task
    → posthandle_acquire s id addr ≡ ok r
    → IsSound r
posthandle_acquire-IsSound s id addr r v n h =
    let (may, (m, p, owner, count, sets)) = posthandle_acquire-Puts s id addr r v n h in
    Puts-IsSound s addr m r v
      (record { sets = sets; owned = λ e. ground arith; counted = λ e. ground arith }) p

pub tryacquire-IsSound :
    (s : State) (id addr : ℕ) (r : State) (ret : ℕ)
    → IsSound s
    → id ≢ no_task
    → posthandle_tryacquire s id addr ≡ ok (r, ret)
    → IsSound r
tryacquire-IsSound s id addr r ret v n h =
    let (q, e, p) = tryacquire-Puts s id addr v n in
    let w = item-IsSoundMtx s addr v in
    let q-r : q ≡ r = ground arith in
    rw (← q-r) (elim (Bool-cases (may_take s id addr)) [
      | inl may ↦
          Puts-IsSound s addr (taken (item s addr) id) q v
            (record { sets = w.sets; owned = λ z. ground arith; counted = λ z. ground arith })
            (rw may at p)
      | inr not_may ↦ Puts-IsSound s addr (item s addr) q v w (rw not_may at p)
    ])

pub release-IsSound :
    (strict : Bool) (s : State) (id addr : ℕ) (r : State)
    → IsSound s
    → posthandle_release strict s id addr ≡ ok r
    → IsSound r
release-IsSound strict s id addr r v h = elim (release-Released strict s id addr r v h) [
  | unknown e f ↦ rw e v
  | forgotten p c ↦ Drops-IsSound s addr r v p
  | lowered m p ws c o ↦
      let w = item-IsSoundMtx s addr v in
      Puts-IsSound s addr m r v
        (record {
          sets = rw ws w.sets;
          owned = λ z. ground (arith, w.owned);
          counted = λ z. ground arith;
        })
        p
]

-- A successful capture: the state after the `switch`, the set without the waiting tasks, and the
-- verdict of the search.
pub handle_parts :
    (config : Config) (fuel : ℕ) (s : State) (cp : CapturePoint) (e : Decision) (r : State)
    (e' : Decision)
    → handle config fuel s cp e ≡ ok (r, e')
    → e.skip ≡ false
    → (d : Decision) × (deadlock : Bool) × (cp.id ≢ no_task)
      × (on_event s cp e ≡ ok (r, d))
      × (blames config fuel r cp (remove_waiters r d.tset cp.id).1 ≡ ok deadlock)
      × (e'.tset ≡ (remove_waiters r d.tset cp.id).0)
      × (e'.reason ≡ (if deadlock then rsrc_deadlock else d.reason))
unfolding handle
handle_parts config fuel s cp e r e' h k = elim (Outcome-cases (on_event s cp e)) [
  | inl (f, stops) ↦ absurd (ground arith)
  | inr ((r', d), goes) ↦
      elim (Outcome-cases (blames config fuel r' cp (remove_waiters r' d.tset cp.id).1)) [
        | inl (f, stops) ↦ absurd (ground arith)
        | inr (deadlock, found) ↦
            let same : r' ≡ r = ground arith in
            (
              d,
              deadlock,
              ground arith,
              rw (← same) goes,
              rw (← same) found,
              ground arith,
              ground arith,
            )
      ]
]
