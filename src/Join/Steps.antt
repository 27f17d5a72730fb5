-- ===== src/Join/Steps.antt =====
-- What the parts of the operations of modules/join/src/handler.c keep.
use lotto.Base.{
  ℕ, ◌≡◌, ◌≢◌, refl, sym, subst, Bool, true, false, not, Option, none, some, List, [], ◌∷◌, ◌==◌,
  if◌then◌else◌, Outcome, ok, fault, assert_failed, ◌>>◌, assert, arith, Bool-cases, Option-cases,
  inl, inr, ◌⊎◌, Ensures, Ensures-bind, Ensures_any,
}
use lotto.Base.Words.{no_task}
use lotto.Map
use lotto.Map.{
  Map, find, lookup, register, deregister, modify, tid_find, tid_register, tid_deregister,
}
use lotto.Map.Laws.{IsValid, register-Returns, deregister_lem, modify_lem, register-used}
use lotto.Join.{
  Waitee, Pthread, State, zeroed_pthread, initial, zeroed_waitee, start, reaches, collect, enqueue,
  exit_with, release, drop_task, or_register, known, deref,
}
use lotto.Tidset
use lotto.Join.Waits.{AreWaitees, deregister-AreWaitees, register-AreWaitees, idle}

pub record AreTasks (m : Map ℕ) : Type 0 where
  pub valid : IsValid m
  pub named : (x tid : ℕ) → find m x ≡ some tid → tid ≢ no_task

pub record IsSound (s : State) : Type 0 where
  pub tasks : AreTasks s.tasks
  pub waitees : AreWaitees s.waitees

pub initial-IsSound : IsSound initial
unfolding initial Map.init lookup
initial-IsSound = record {
  tasks = record {
    valid = record { counted = refl; distinct = λ x. omega arith };
    named = λ x tid e. cc;
  };
  waitees = record {
    valid = record { counted = refl; distinct = λ x. omega arith };
    named = λ x w e. cc;
    acyclic = λ x. idle refl;
  };
}

deregister-AreTasks : (m : Map ℕ) (key : ℕ) → AreTasks m → AreTasks (deregister m key)
deregister-AreTasks m key v =
    let (valid, found) = deregister_lem m key v.valid in
    record { valid = valid; named = λ x tid e. ground (arith, found x, v.named x tid) }

named-AreTasks :
    (m r : Map ℕ) (pthread tid : ℕ)
    → IsValid r
    → ((x : ℕ) → find r x ≡ find m x ⊎ (x ≡ pthread))
    → tid ≢ no_task
    → AreTasks m
    → AreTasks (modify r pthread (λ t. tid))
named-AreTasks m r pthread tid v f n w =
    let (valid, found) = modify_lem r pthread (λ t. tid) v in
    record { valid = valid; named = λ x k e. ground (arith, found x, f x, w.named x k) }

tasks-Ensures :
    (m : Map ℕ) (pthread tid : ℕ)
    → AreTasks m
    → tid ≢ no_task
    → Ensures (or_register m pthread) (λ r. AreTasks (modify r pthread (λ t. tid)))
tasks-Ensures m pthread tid v n = elim (Option-cases (find m pthread)) [
  | inl e ↦
      let (r, h, valid, found) = register-Returns m 0 pthread v.valid e in
      subst (λ q. Ensures q (λ r. AreTasks (modify r pthread (λ t. tid)))) (sym (fresh_task r h e))
        (named-AreTasks m r pthread tid valid (λ x. ground (arith, found x)) n v)
  | inr (k, e) ↦
      subst (λ q. Ensures q (λ r. AreTasks (modify r pthread (λ t. tid)))) (sym (old_task k e))
        (named-AreTasks m m pthread tid v.valid (λ x. inl refl) n v)
]
  where
    fresh_task :
        (r : Map ℕ)
        → register m 0 pthread ≡ ok r
        → find m pthread ≡ none
        → or_register m pthread ≡ ok r
    fresh_task r h e = ground (arith, h, e)

    old_task : (k : ℕ) → find m pthread ≡ some k → or_register m pthread ≡ ok m
    old_task k e = ground (arith, e)

-- What is dropped from a map that aborts on NO_TASK.
dropped-AreTasks : (m : Map ℕ) (key : ℕ) → AreTasks m → Ensures (tid_deregister m key) AreTasks
unfolding tid_deregister
dropped-AreTasks m key v = elim (Bool-cases (key == no_task)) [
  | inl unnamed ↦ rw unnamed tt
  | inr named ↦ rw named (deregister-AreTasks m key v)
]

dropped-AreWaitees :
    (m : Map Waitee) (key : ℕ) → AreWaitees m → Ensures (tid_deregister m key) AreWaitees
unfolding tid_deregister
dropped-AreWaitees m key v = elim (Bool-cases (key == no_task)) [
  | inl unnamed ↦ rw unnamed tt
  | inr named ↦ rw named (deregister-AreWaitees m key v)
]

pub start-Ensures :
    (s : State) (tid pthread : ℕ) (detached : Bool)
    → IsSound s
    → tid ≢ no_task
    → Ensures (start s tid pthread detached) IsSound
unfolding start
start-Ensures s tid pthread detached v n =
    Ensures-bind (λ r. Unit) IsSound (tid_register s.pthreads zeroed_pthread tid) _ (Ensures_any _)
      (λ registered u.
        Ensures-bind (λ r. AreTasks (modify r pthread (λ t. tid))) IsSound
          (or_register s.tasks pthread) _ (tasks-Ensures s.tasks pthread tid v.tasks n)
          (λ tasks h. record { tasks = h; waitees = v.waitees }))

pub collect-Ensures :
    (s : State) (tid pthread value_ptr ret waitee named : ℕ) (pt : Pthread)
    → IsSound s
    → Ensures (collect s tid pthread value_ptr ret waitee named pt) (λ r. IsSound r.0)
collect-Ensures s tid pthread value_ptr ret waitee named pt v =
    Ensures-bind (λ r. Unit) (λ r. IsSound r.0) (tid_deregister s.pthreads waitee) _ (Ensures_any _)
      (λ pthreads u.
        Ensures-bind AreTasks (λ r. IsSound r.0)
          (if named == tid then tid_deregister s.tasks pthread else ok s.tasks) _
          (either (named == tid)) (λ tasks h. record { tasks = h; waitees = v.waitees }))
  where
    either :
        (b : Bool) → Ensures (if b then tid_deregister s.tasks pthread else ok s.tasks) AreTasks
    either true = dropped-AreTasks s.tasks pthread v.tasks
    either false = v.tasks

-- A registration that returned had no entry before.
registered_new :
    (m r : Map Waitee) (tid : ℕ)
    → tid_register m zeroed_waitee tid ≡ ok r
    → (find m tid ≡ none) × (register m zeroed_waitee tid ≡ ok r)
unfolding tid_register
registered_new m r tid h = elim (Option-cases (find m tid)) [
  | inl e ↦ (e, ground arith)
  | inr (w, e) ↦ let used = register-used m zeroed_waitee tid e in absurd (refused used h)
]
  where
    refused :
        register m zeroed_waitee tid ≡ fault assert_failed
        → (assert (not (tid == no_task)) >> register m zeroed_waitee tid) ≡ ok r
        → ⊥
    refused used h = absurd (ground arith)

pub enqueue-Ensures :
    (fuel : ℕ) (s : State) (tid value_ptr ret waitee : ℕ) (pt : Pthread)
    → IsSound s
    → waitee ≢ no_task
    → reaches fuel s.waitees tid waitee ≡ ok false
    → Ensures (enqueue s tid value_ptr ret waitee pt) (λ r. IsSound r.0)
enqueue-Ensures fuel s tid value_ptr ret waitee pt v n free =
    Ensures-bind (λ r. Unit) (λ r. IsSound r.0) (Tidset.insert pt.waiters tid) _ (Ensures_any _)
      (λ q u.
        Ensures-bind (λ r. tid_register s.waitees zeroed_waitee tid ≡ ok r) (λ r. IsSound r.0)
          (tid_register s.waitees zeroed_waitee tid) _
          (told (tid_register s.waitees zeroed_waitee tid))
          (λ registered h.
            let (absent, e) = registered_new s.waitees registered tid h in
            record {
              tasks = v.tasks;
              waitees =
                  register-AreWaitees fuel s.waitees registered tid
                    (record { waitee = waitee; value_ptr = value_ptr; ret = ret }) v.waitees n
                    absent e free;
            }))
  where
    told : (m : Outcome (Map Waitee)) → Ensures m (λ r. m ≡ ok r)
    told (ok r) = refl
    told (fault e) = tt

pub release-Ensures :
    (m : Map Waitee) (value_ptr : ℕ) (waiters : List ℕ)
    → AreWaitees m
    → Ensures (release m value_ptr waiters) (λ r. AreWaitees r.0)
unfolding release
release-Ensures m value_ptr [] v = v
release-Ensures m value_ptr (waiter ∷ waiters) v =
    Ensures-bind (λ r. Unit) (λ r. AreWaitees r.0) (tid_find m waiter) _ (Ensures_any _)
      (λ found u.
        Ensures-bind (λ r. Unit) (λ r. AreWaitees r.0) (known found) _ (Ensures_any _)
          (λ wee u.
            Ensures-bind AreWaitees (λ r. AreWaitees r.0) (tid_deregister m waiter) _
              (dropped-AreWaitees m waiter v)
              (λ m' v'.
                Ensures-bind (λ r. AreWaitees r.0) (λ r. AreWaitees r.0)
                  (release m' value_ptr waiters) _ (release-Ensures m' value_ptr waiters v')
                  (λ r h. h))))

pub drop_task-Ensures :
    (s : State) (tid : ℕ) (pt : Pthread) (named : Option ℕ)
    → IsSound s
    → Ensures (drop_task s tid pt named) IsSound
drop_task-Ensures s tid pt named v =
    Ensures-bind (λ r. Unit) IsSound (deref named) _ (Ensures_any _)
      (λ task u.
        Ensures-bind AreTasks IsSound
          (if task == tid then tid_deregister s.tasks pt.pthread else ok s.tasks) _
          (either (task == tid))
          (λ tasks h.
            Ensures-bind (λ r. Unit) IsSound (tid_deregister s.pthreads tid) _ (Ensures_any _)
              (λ pthreads u. record { tasks = h; waitees = v.waitees })))
  where
    either :
        (b : Bool) → Ensures (if b then tid_deregister s.tasks pt.pthread else ok s.tasks) AreTasks
    either true = dropped-AreTasks s.tasks pt.pthread v.tasks
    either false = v.tasks

pub exit_with-Ensures :
    (s : State) (tid value_ptr : ℕ) → IsSound s → Ensures (exit_with s tid value_ptr) IsSound
unfolding exit_with
exit_with-Ensures s tid value_ptr v =
    Ensures-bind (λ r. Unit) IsSound (tid_find s.pthreads tid) _ (Ensures_any _)
      (λ found u.
        Ensures-bind (λ r. Unit) IsSound (known found) _ (Ensures_any _)
          (λ pt u.
            Ensures-bind (λ r. Unit) IsSound (assert (pt.value_ptr == 0)) _ (Ensures_any _)
              (λ u' u. record { tasks = v.tasks; waitees = v.waitees })))
