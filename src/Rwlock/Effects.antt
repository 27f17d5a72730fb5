-- ===== src/Rwlock/Effects.antt =====
-- What the captures and the operations of readers write (modules/rwlock/src/handler.c).
use lotto.Base.{
  ℕ, ◌≡◌, ◌≢◌, Bool, ltb, ◌&&◌, ◌||◌, ◌==◌, ok, arith, Bool-cases, inl, inr, Outcome-cases,
  Returns-ok,
}
use lotto.Base.Words.{no_task}
use lotto.Tidset
use lotto.Tidset.{Tidset, has, insert, remove}
use lotto.Tidset.Valid.{insert-IsValid, remove-Returns}
use lotto.Rwlock.{
  Lock, State, put_at, is_write_locked, handle_rdlock, handle_wrlock, posthandle_rdlock,
  posthandle_tryrdlock,
}
use lotto.Rwlock.Readers.{count_reader-CountsIn}
use lotto.Rwlock.Valid.{
  IsSound, IsSoundLock, Writes, lock_at, lock_at-IsSoundLock, opened, is_read_locked-eq,
}

pub rdlock-Writes :
    (s : State) (id addr : ℕ) (r : State) (b : Bool)
    → IsSound s
    → handle_rdlock s id addr ≡ ok (r, b)
    → Writes s addr r
unfolding handle_rdlock
rdlock-Writes s id addr r b v h =
    let (q, e, here, p, puts) = opened s addr v in
    let l = lock_at s addr in
    let w = lock_at-IsSoundLock s addr v in
    elim (Bool-cases (is_write_locked l && (l.writer == id))) [
      | inl own ↦ let q-r : r ≡ q = ground arith in rw q-r (l, p, w)
      | inr other ↦ elim (Outcome-cases (insert l.read_waiters id)) [
        | inl (f, refused) ↦ absurd (ground arith)
        | inr ((ws, added), inserted) ↦
            let q-r : r ≡ put_at q addr (record l { read_waiters = ws }) = ground arith in
            rw q-r (
              record l { read_waiters = ws },
              puts _,
              record {
                readers = w.readers;
                exclusive = w.exclusive;
                readers_wait =
                    (insert-IsValid l.read_waiters id ws added w.readers_wait inserted).0;
                writers_wait = w.writers_wait;
              },
            )
      ]
    ]

pub wrlock-Writes :
    (s : State) (id addr : ℕ) (r : State) (b : Bool)
    → IsSound s
    → handle_wrlock s id addr ≡ ok (r, b)
    → Writes s addr r
unfolding handle_wrlock
wrlock-Writes s id addr r b v h =
    let (q, e, here, p, puts) = opened s addr v in
    let l = lock_at s addr in
    let w = lock_at-IsSoundLock s addr v in
    let reads = is_read_locked-eq l w in
    elim (Outcome-cases (insert l.write_waiters id)) [
      | inl (f, refused) ↦ let q-r : r ≡ q = ground (arith, reads) in rw q-r (l, p, w)
      | inr ((ws, added), inserted) ↦
          let m : Lock = record l { write_waiters = ws } in
          let sound : IsSoundLock m = record {
            readers = w.readers;
            exclusive = w.exclusive;
            readers_wait = w.readers_wait;
            writers_wait = (insert-IsValid l.write_waiters id ws added w.writers_wait inserted).0;
          } in
          elim (Bool-cases b) [
            | inl queued ↦
                let q-r : r ≡ put_at q addr m = ground (arith, reads) in rw q-r (m, puts m, sound)
            | inr own ↦ let q-r : r ≡ q = ground (arith, reads) in rw q-r (l, p, w)
          ]
    ]

pub posthandle_rdlock-Writes :
    (s : State) (id addr : ℕ) (r : State)
    → IsSound s
    → id ≢ no_task
    → posthandle_rdlock s id addr ≡ ok r
    → Writes s addr r
unfolding posthandle_rdlock
posthandle_rdlock-Writes s id addr r v n h =
    let (q, e, here, p, puts) = opened s addr v in
    let l = lock_at s addr in
    let w = lock_at-IsSoundLock s addr v in
    let (readers, counted, counts) = count_reader-CountsIn l.readers id w.readers n in
    elim (Bool-cases (has l.read_waiters id)) [
      | inr gone ↦ let q-r : r ≡ q = ground arith in rw q-r (l, p, w)
      | inl waits ↦ elim (Outcome-cases (remove l.read_waiters id)) [
        | inl (f, refused) ↦ absurd (ground arith)
        | inr ((ws, removed), done) ↦
            let m : Lock = record l { read_waiters = ws; readers = readers } in
            let q-r : r ≡ put_at q addr m = ground arith in
            rw q-r (
              m,
              puts m,
              record {
                readers = counts.sound;
                exclusive = λ written. absurd (ground arith);
                readers_wait =
                    (Returns-ok _ (ws, removed) done
                      (remove-Returns l.read_waiters id w.readers_wait)).0;
                writers_wait = w.writers_wait;
              },
            )
      ]
    ]

pub posthandle_tryrdlock-Writes :
    (s : State) (id addr : ℕ) (r : State) (ret : ℕ)
    → IsSound s
    → id ≢ no_task
    → posthandle_tryrdlock s id addr ≡ ok (r, ret)
    → Writes s addr r
unfolding posthandle_tryrdlock
posthandle_tryrdlock-Writes s id addr r ret v n h =
    let (q, e, here, p, puts) = opened s addr v in
    let l = lock_at s addr in
    let w = lock_at-IsSoundLock s addr v in
    let (readers, counted, counts) = count_reader-CountsIn l.readers id w.readers n in
    elim (Bool-cases (is_write_locked l || ltb 0 (Tidset.size l.write_waiters))) [
      | inl busy ↦ let q-r : r ≡ q = ground arith in rw q-r (l, p, w)
      | inr free ↦
          let m : Lock = record l { readers = readers } in
          let q-r : r ≡ put_at q addr m = ground (arith, counted) in
          rw q-r (
            m,
            puts m,
            record {
              readers = counts.sound;
              exclusive = λ written. absurd (ground arith);
              readers_wait = w.readers_wait;
              writers_wait = w.writers_wait;
            },
          )
    ]
