-- ===== src/Rwlock/Acquire.antt =====
-- A waiting task that the sequencer resumes takes its lock (`_posthandle_rdlock`, `_posthandle_wrlock`).
use lotto.Base.{
  ℕ, suc, ◌≡◌, ◌≢◌, refl, true, false, ◌==◌, Outcome, ok, fault, Option, none, some, List, [], ◌∷◌,
  arith, inl, inr, Bool-cases, Returns, Returns_of, Returned, sym, subst,
}
use lotto.Base.Words.{no_task}
use lotto.Map.{find, lookup}
use lotto.Tidset.{has, remove}
use lotto.Tidset.Valid.{remove-Returns}
use lotto.Rwlock.{Lock, State, put_at, should_wait, posthandle_rdlock, posthandle_wrlock}
use lotto.Rwlock.Handle.{
  CapturePoint, Event, rdlock, timed_rdlock, wrlock, timed_wrlock, try_rdlock, try_wrlock, unlock,
  other, resume, done,
}
use lotto.Rwlock.Readers.{times, count_reader-CountsIn}
use lotto.Rwlock.Valid.{IsSound, lock_at, lock_at-IsSoundLock, opened, is_read_locked-eq}
use lotto.Rwlock.Waiting.{blocks, any_blocks, should_wait-eq}

any_blocks-lookup :
    (ls : List (ℕ × Lock)) (addr : ℕ) (l : Lock) (x : ℕ)
    → lookup addr ls ≡ some l
    → any_blocks ls x ≡ false
    → blocks l x ≡ false
unfolding lookup
any_blocks-lookup [] addr l x e h = absurd (ground arith)
any_blocks-lookup ((k, m) ∷ ls) addr l x e h = elim (Bool-cases (k == addr)) [
  | inl same ↦ let q : l ≡ m = ground arith in rw q (ground (arith, h))
  | inr different ↦ any_blocks-lookup ls addr l x (ground arith) (ground (arith, h))
]

-- A lock of a task that need not wait does not block it.
unblocked :
    (s : State) (addr : ℕ) (l : Lock) (x : ℕ)
    → IsSound s
    → should_wait s x ≡ ok false
    → find s.locks addr ≡ some l
    → blocks l x ≡ false
unblocked s addr l x v h e =
    any_blocks-lookup s.locks.items addr l x e (ground (arith, should_wait-eq s x v))

here-eq : (s : State) (addr : ℕ) (l : Lock) → find s.locks addr ≡ some l → lock_at s addr ≡ l
here-eq s addr l e = rw e refl

-- A reader that has its turn.
takes_read :
    (s : State) (id addr : ℕ)
    → IsSound s
    → id ≢ no_task
    → blocks (lock_at s addr) id ≡ false
    → has (lock_at s addr).read_waiters id ≡ true
    → Returns (posthandle_rdlock s id addr) (λ r.
      (m : Lock) × (find r.locks addr ≡ some m)
      × ((m.writer ≡ no_task)
          × (find m.readers id ≡ some (suc (times (lock_at s addr).readers id)))))
unfolding posthandle_rdlock
takes_read s id addr v n free queued =
    let (q, e, here, p, puts) = opened s addr v in
    let l = lock_at s addr in
    let w = lock_at-IsSoundLock s addr v in
    let (readers, counted, counts) = count_reader-CountsIn l.readers id w.readers n in
    let ((ws, removed), done, (_, told, _)) =
      Returned _ (remove l.read_waiters id) (remove-Returns l.read_waiters id w.readers_wait) in
    let m : Lock = record l { read_waiters = ws; readers = readers } in
    Returns_of _ {m = posthandle_rdlock s id addr} (put_at q addr m) (ground (arith, counted))
      (m, ground (arith, (puts m).found addr), (ground arith, ground (arith, counts.found id)))

-- A writer that has its turn.
takes_write :
    (s : State) (id addr : ℕ)
    → IsSound s
    → blocks (lock_at s addr) id ≡ false
    → has (lock_at s addr).write_waiters id ≡ true
    → Returns (posthandle_wrlock s id addr) (λ r.
      (m : Lock) × (find r.locks addr ≡ some m) × ((m.writer ≡ id) × (m.readers.nitems ≡ 0)))
unfolding posthandle_wrlock
takes_write s id addr v free queued =
    let (q, e, here, p, puts) = opened s addr v in
    let l = lock_at s addr in
    let w = lock_at-IsSoundLock s addr v in
    let reads = is_read_locked-eq l w in
    let ((ws, removed), done, (_, told, _)) =
      Returned _ (remove l.write_waiters id) (remove-Returns l.write_waiters id w.writers_wait) in
    let m : Lock = record l { write_waiters = ws; writer = id } in
    Returns_of _ {m = posthandle_wrlock s id addr} (put_at q addr m) (ground (arith, reads))
      (m, ground (arith, (puts m).found addr), (refl, ground arith))

-- The task waits for the lock that the event asks for.
abbrev pub IsQueued : Lock → ℕ → Event → Type 0
IsQueued l id rdlock = has l.read_waiters id ≡ true
IsQueued l id timed_rdlock = has l.read_waiters id ≡ true
IsQueued l id wrlock = has l.write_waiters id ≡ true
IsQueued l id timed_wrlock = has l.write_waiters id ≡ true
IsQueued l id _ = ⊥

-- The task holds the lock, which was `l` before, in the way the event asks for.
abbrev pub Holds : Lock → ℕ → Event → Lock → Type 0
Holds l id rdlock m = (m.writer ≡ no_task) × (find m.readers id ≡ some (suc (times l.readers id)))
Holds l id timed_rdlock m =
    (m.writer ≡ no_task) × (find m.readers id ≡ some (suc (times l.readers id)))
Holds l id wrlock m = (m.writer ≡ id) × (m.readers.nitems ≡ 0)
Holds l id timed_wrlock m = (m.writer ≡ id) × (m.readers.nitems ≡ 0)
Holds l id _ m = ⊥

-- What the operation of the event leaves.
abbrev Acquires : Lock → CapturePoint → State × Option ℕ → Type 0
Acquires l cp r = (m : Lock) × (find r.0.locks cp.addr ≡ some m) × Holds l cp.id cp.event m

done_Returns :
    (P : State → Type 0) (Q : State × Option ℕ → Type 0) (m : Outcome State)
    → ((s : State) → P s → Q (s, none))
    → Returns m P
    → Returns (done m) Q
done_Returns P Q (ok s) f h = f s h
done_Returns P Q (fault e) f h = h

-- In a sound state, a named task that waits for a known lock, in the way its event asks for, and
-- need not wait, resumes without a fault. It then holds the lock: a reader is counted once more and
-- there is no writer; a writer is the writer and there are no readers.
pub waiter-acquires :
    (s : State) (cp : CapturePoint) (l : Lock)
    → IsSound s
    → cp.id ≢ no_task
    → should_wait s cp.id ≡ ok false
    → find s.locks cp.addr ≡ some l
    → IsQueued l cp.id cp.event
    → Returns
        (resume s cp)
        (λ r. (m : Lock) × (find r.0.locks cp.addr ≡ some m) × Holds l cp.id cp.event m)
unfolding resume
waiter-acquires s cp l v n free e queued =
    let same = here-eq s cp.addr l e in
    let unlocked : blocks (lock_at s cp.addr) cp.id ≡ false =
      subst (λ k. blocks k cp.id ≡ false) (sym same) (unblocked s cp.addr l cp.id v free e) in
    go cp.event (subst (λ k. IsQueued k cp.id cp.event) (sym same) queued) unlocked same
  where
    go :
        (k : Event)
        → IsQueued (lock_at s cp.addr) cp.id k
        → blocks (lock_at s cp.addr) cp.id ≡ false
        → lock_at s cp.addr ≡ l
        → Returns (resume s (record cp { event = k })) (Acquires l (record cp { event = k }))
    go rdlock q u same =
        subst
          (λ k.
            Returns (done (posthandle_rdlock s cp.id cp.addr))
              (Acquires k (record cp { event = rdlock })))
          same
          (done_Returns _ _ (posthandle_rdlock s cp.id cp.addr) (λ r h. h)
            (takes_read s cp.id cp.addr v n u q))
    go timed_rdlock q u same =
        subst
          (λ k.
            Returns (done (posthandle_rdlock s cp.id cp.addr))
              (Acquires k (record cp { event = timed_rdlock })))
          same
          (done_Returns _ _ (posthandle_rdlock s cp.id cp.addr) (λ r h. h)
            (takes_read s cp.id cp.addr v n u q))
    go wrlock q u same =
        done_Returns _ _ (posthandle_wrlock s cp.id cp.addr) (λ r h. h)
          (takes_write s cp.id cp.addr v u q)
    go timed_wrlock q u same =
        done_Returns _ _ (posthandle_wrlock s cp.id cp.addr) (λ r h. h)
          (takes_write s cp.id cp.addr v u q)
    go try_rdlock q u same = absurd q
    go try_wrlock q u same = absurd q
    go unlock q u same = absurd q
    go other q u same = absurd q
