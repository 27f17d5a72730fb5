-- ===== src/Join/Runs.antt =====
-- The runs of the handler of joined threads of modules/join/src/handler.c.
use lotto.Base.{
  ℕ, ◌+◌, ◌≡◌, ◌≢◌, refl, sym, subst, Bool, true, false, not, Option, none, some, List, [], ◌∷◌,
  ◌==◌, if◌then◌else◌, Outcome, ok, fault, ◌>>=◌, ◌>>◌, assert, arith, Option-cases, Outcome-cases,
  inl, inr, ◌⊎◌, Ensures, Ensures-bind, Ensures_any, Ensures_mono, Ensures-ok,
}
use lotto.Base.Words.{no_task}
use lotto.Event.{Decision}
use lotto.Map.{find, modify, tid_find}
use lotto.Join.{
  Pthread, State, esrch, einval, is_none, Write, initial, start, reaches, exit_with, release,
  drop_task, finish, detach, known,
}
use lotto.Join.Handle.{
  Event, task_init, task_join, task_detach, task_fini, other_event, on_event, handle, judge,
}
use lotto.Tidset
use lotto.Join.Waits.{AreWaitees, Ends-reaches}
use lotto.Tidset.Keys.{remove_all_keys}
use lotto.Join.Steps.{
  IsSound, initial-IsSound, start-Ensures, release-Ensures, drop_task-Ensures, exit_with-Ensures,
}
use lotto.Join.Joining.{told, join-Ensures}

then_nothing :
    (m : Outcome State)
    → Ensures m IsSound
    → Ensures (m >>= λ s. ok (s, [])) (λ (r : State × List Write). IsSound r.0)
then_nothing (ok s) h = h
then_nothing (fault e) h = tt

finish-Ensures : (s : State) (tid : ℕ) → IsSound s → Ensures (finish s tid) (λ r. IsSound r.0)
unfolding finish
finish-Ensures s tid v =
    Ensures-bind (λ r. Unit) (λ r. IsSound r.0) (tid_find s.pthreads tid) _ (Ensures_any _)
      (λ found u.
        Ensures-bind (λ r. Unit) (λ r. IsSound r.0) (known found) _ (Ensures_any _)
          (λ pt u. go pt (find s.tasks pt.pthread) pt.detached (Tidset.size pt.waiters == 0)))
  where
    go :
        (pt : Pthread) (named : Option ℕ) (detached alone : Bool)
        → Ensures {A = State × List Write}
            (if detached
              then (do s' ← drop_task s tid pt named; ok (s', []))
              else (if alone
                  then ok (
                    record s {
                      pthreads = modify s.pthreads tid (λ p. record p { terminated = true });
                    },
                    [],
                  )
                  else (do
                    (waitees, writes) ← release s.waitees pt.value_ptr pt.waiters.tasks
                    s' ← drop_task (record s { waitees = waitees }) tid pt named
                    ok (s', writes))))
            (λ r. IsSound r.0)
    go pt named true alone =
        then_nothing (drop_task s tid pt named) (drop_task-Ensures s tid pt named v)
    go pt named false true = record { tasks = v.tasks; waitees = v.waitees }
    go pt named false false =
        Ensures-bind (λ r. AreWaitees r.0) (λ r. IsSound r.0)
          (release s.waitees pt.value_ptr pt.waiters.tasks) _
          (release-Ensures s.waitees pt.value_ptr pt.waiters.tasks v.waitees)
          (λ q h.
            Ensures-bind IsSound (λ r. IsSound r.0)
              (drop_task (record s { waitees = q.0 }) tid pt named) _
              (drop_task-Ensures (record s { waitees = q.0 }) tid pt named
                (record { tasks = v.tasks; waitees = h }))
              (λ s' k. k))

-- `_detach` once the task is found.
abbrev detaching : State → ℕ → ℕ → Outcome (State × List Write)
detaching s ret id = do
  found ← tid_find s.pthreads id
  p ← known found
  if p.detached then ok (s, (ret, einval) ∷ []) else (do
    waits ← tid_find s.waitees id
    assert (is_none waits)
    ok (
      record s { pthreads = modify s.pthreads id (λ p. record p { detached = true }) },
      (ret, 0) ∷ [],
    ))

detach-cases :
    (s : State) (pthread ret : ℕ)
    → (detach s pthread ret ≡ ok (s, (ret, esrch) ∷ []))
      ⊎ ((id : ℕ) × (detach s pthread ret ≡ detaching s ret id))
unfolding detach
detach-cases s pthread ret = elim (Option-cases (find s.tasks pthread)) [
  | inl e ↦ inl (rw (detach, e) refl)
  | inr (id, e) ↦ inr (id, rw (detach, e) refl)
]

detaching-Ensures :
    (s : State) (ret id : ℕ) → IsSound s → Ensures (detaching s ret id) (λ r. IsSound r.0)
detaching-Ensures s ret id v =
    Ensures-bind (λ r. Unit) (λ r. IsSound r.0) (tid_find s.pthreads id) _ (Ensures_any _)
      (λ found u.
        Ensures-bind (λ r. Unit) (λ r. IsSound r.0) (known found) _ (Ensures_any _)
          (λ p u. go p.detached))
  where
    go :
        (b : Bool)
        → Ensures {A = State × List Write}
            (if b then ok (s, (ret, einval) ∷ []) else (do
              waits ← tid_find s.waitees id
              assert (is_none waits)
              ok (
                record s { pthreads = modify s.pthreads id (λ p. record p { detached = true }) },
                (ret, 0) ∷ [],
              )))
            (λ r. IsSound r.0)
    go true = v
    go false =
        Ensures-bind (λ r. Unit) (λ r. IsSound r.0) (tid_find s.waitees id) _ (Ensures_any _)
          (λ waits u.
            Ensures-bind (λ r. Unit) (λ r. IsSound r.0) (assert (is_none waits)) _ (Ensures_any _)
              (λ t u. record { tasks = v.tasks; waitees = v.waitees }))

detach-Ensures :
    (s : State) (pthread ret : ℕ) → IsSound s → Ensures (detach s pthread ret) (λ r. IsSound r.0)
detach-Ensures s pthread ret v = elim (detach-cases s pthread ret) [
  | inl e ↦ subst (λ m. Ensures m (λ r. IsSound r.0)) (sym e) v
  | inr (id, e) ↦ subst (λ m. Ensures m (λ r. IsSound r.0)) (sym e) (detaching-Ensures s ret id v)
]

on_event-Ensures :
    (fuel : ℕ) (s : State) (id : ℕ) (event : Event)
    → IsSound s
    → id ≢ no_task
    → Ensures (on_event fuel s id event) (λ r. IsSound r.0)
unfolding on_event
on_event-Ensures fuel s id (task_init thread detached) v n =
    then_nothing (start s id thread detached) (start-Ensures s id thread detached v n)
on_event-Ensures fuel s id (task_join thread value_ptr ret) v n =
    join-Ensures fuel s id thread value_ptr ret v
on_event-Ensures fuel s id (task_detach thread ret) v n = detach-Ensures s thread ret v
on_event-Ensures fuel s id (task_fini none) v n = finish-Ensures s id v
on_event-Ensures fuel s id (task_fini (some value)) v n =
    Ensures-bind IsSound (λ r. IsSound r.0) (exit_with s id value) _
      (exit_with-Ensures s id value v) (λ s' w. finish-Ensures s' id w)
on_event-Ensures fuel s id other_event v n = v

judge-state :
    (s : State) (writes : List Write) (id : ℕ) (e : Decision)
    → Ensures (judge s writes id e) (λ r. r.0 ≡ s)
unfolding judge
judge-state s writes id e = elim (Outcome-cases (judge s writes id e)) [
  | inl (f, stops) ↦ subst (λ m. Ensures m (λ r. r.0 ≡ s)) (sym stops) tt
  | inr (r, judged) ↦ subst (λ m. Ensures m (λ r. r.0 ≡ s)) (sym judged) (same r judged)
]
  where
    same : (r : State × List Write × Decision) → judge s writes id e ≡ ok r → r.0 ≡ s
    same r h = elim (Outcome-cases (remove_all_keys e.tset s.waitees)) [
      | inl (f, stops) ↦ ground (arith, stops)
      | inr (tset, filters) ↦ elim (Outcome-cases (tid_find s.waitees id)) [
        | inl (f, stops) ↦ ground (arith, stops, filters)
        | inr (found, finds) ↦ ground (arith, finds, filters)
      ]
    ]

pub handle-Ensures :
    (fuel : ℕ) (s : State) (id : ℕ) (event : Event) (e : Decision)
    → IsSound s
    → Ensures (handle fuel s id event e) (λ r. IsSound r.0)
unfolding handle
handle-Ensures fuel s id event e v =
    Ensures-bind (λ u. assert (not (id == no_task)) ≡ ok u) (λ r. IsSound r.0)
      (assert (not (id == no_task))) _ (told (assert (not (id == no_task))))
      (λ u h.
        Ensures-bind (λ q. IsSound q.0) (λ r. IsSound r.0) (on_event fuel s id event) _
          (on_event-Ensures fuel s id event v (passed h))
          (λ q w.
            Ensures_mono (λ r. r.0 ≡ q.0) (λ r. IsSound r.0) (judge q.0 q.1 id e)
              (judge-state q.0 q.1 id e) (λ r same. rw same w)))
  where
    passed : {u : Unit {0}} → assert (not (id == no_task)) ≡ ok u → id ≢ no_task
    passed h = ground arith

pub data Reach : State → Type 0 where
  begun : Reach initial
  next :
      {s : State}
      → Reach s
      → (fuel id : ℕ) (event : Event) (e : Decision) (r : State × List Write × Decision)
      → handle fuel s id event e ≡ ok r
      → Reach r.0

pub Reach-IsSoundJoin : {s : State} → Reach s → IsSound s
Reach-IsSoundJoin begun = initial-IsSound
Reach-IsSoundJoin (next {s} run fuel id event e r h) =
    Ensures-ok (λ q. IsSound q.0) (handle fuel s id event e) r
      (handle-Ensures fuel s id event e (Reach-IsSoundJoin run)) h

-- In every state that the handler reaches, for every task that joins a known thread, the loop of
-- `join` along the waiting tasks comes to an end: there is a fuel with which it answers, and with
-- more fuel the answer is the same.
pub Reach-reaches :
    (s : State) (tid pthread waitee : ℕ)
    → Reach s
    → find s.tasks pthread ≡ some waitee
    → (fuel : ℕ) × (b : Bool) × ((more : ℕ) → reaches (fuel + more) s.waitees tid waitee ≡ ok b)
Reach-reaches s tid pthread waitee run e =
    let v = Reach-IsSoundJoin run in
    Ends-reaches s.waitees tid waitee v.waitees (v.tasks.named pthread waitee e)
      (v.waitees.acyclic waitee)
