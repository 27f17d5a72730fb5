-- ===== src/Rwlock/Writers.antt =====
-- What the operations of writers and the unlock write (modules/rwlock/src/handler.c).
use lotto.Base.{
  ℕ, ◌≡◌, ◌≢◌, ltb, ◌||◌, ◌==◌, ok, arith, Option-cases, Bool-cases, inl, inr, refl, Outcome-cases,
  Returns-ok,
}
use lotto.Base.Words.{no_task}
use lotto.Map
use lotto.Map.{Map, find, lookup, tid_find}
use lotto.Tidset.{has, remove}
use lotto.Tidset.Valid.{remove-Returns}
use lotto.Rwlock.{
  Lock, State, put_at, is_write_locked, is_read_locked_by, posthandle_wrlock, posthandle_trywrlock,
  posthandle_unlock,
}
use lotto.Rwlock.Readers.{uncount_reader-AreReaders}
use lotto.Rwlock.Valid.{IsSound, Writes, lock_at, lock_at-IsSoundLock, opened, is_read_locked-eq}

pub posthandle_wrlock-Writes :
    (s : State) (id addr : ℕ) (r : State)
    → IsSound s
    → posthandle_wrlock s id addr ≡ ok r
    → Writes s addr r
unfolding posthandle_wrlock
posthandle_wrlock-Writes s id addr r v h =
    let (q, e, here, p, puts) = opened s addr v in
    let l = lock_at s addr in
    let w = lock_at-IsSoundLock s addr v in
    let reads = is_read_locked-eq l w in
    elim (Bool-cases (has l.write_waiters id)) [
      | inr gone ↦ let q-r : r ≡ q = ground (arith, reads) in rw q-r (l, p, w)
      | inl waits ↦ elim (Outcome-cases (remove l.write_waiters id)) [
        | inl (f, refused) ↦ absurd (ground (arith, reads))
        | inr ((ws, removed), done) ↦
            let m : Lock = record l { write_waiters = ws; writer = id } in
            let q-r : r ≡ put_at q addr m = ground (arith, reads) in
            rw q-r (
              m,
              puts m,
              record {
                readers = w.readers;
                exclusive = λ written. ground (arith, reads);
                readers_wait = w.readers_wait;
                writers_wait =
                    (Returns-ok _ (ws, removed) done
                      (remove-Returns l.write_waiters id w.writers_wait)).0;
              },
            )
      ]
    ]

pub posthandle_trywrlock-Writes :
    (s : State) (id addr : ℕ) (r : State) (ret : ℕ)
    → IsSound s
    → posthandle_trywrlock s id addr ≡ ok (r, ret)
    → Writes s addr r
unfolding posthandle_trywrlock
posthandle_trywrlock-Writes s id addr r ret v h =
    let (q, e, here, p, puts) = opened s addr v in
    let l = lock_at s addr in
    let w = lock_at-IsSoundLock s addr v in
    let reads = is_read_locked-eq l w in
    elim (Bool-cases ((l.writer == id) || (ltb 0 (Map.size l.readers) || is_write_locked l))) [
      | inl busy ↦ let q-r : r ≡ q = ground (arith, reads) in rw q-r (l, p, w)
      | inr free ↦
          let m : Lock = record l { writer = id } in
          let q-r : r ≡ put_at q addr m = ground (arith, reads) in
          rw q-r (
            m,
            puts m,
            record {
              readers = w.readers;
              exclusive = λ written. ground arith;
              readers_wait = w.readers_wait;
              writers_wait = w.writers_wait;
            },
          )
    ]

pub posthandle_unlock-Writes :
    (s : State) (id addr : ℕ) (r : State)
    → IsSound s
    → id ≢ no_task
    → posthandle_unlock s id addr ≡ ok r
    → Writes s addr r
unfolding posthandle_unlock is_read_locked_by tid_find
posthandle_unlock-Writes s id addr r v n h =
    let (q, e, here, p, puts) = opened s addr v in
    let l = lock_at s addr in
    let w = lock_at-IsSoundLock s addr v in
    elim (Bool-cases (is_write_locked l)) [
      | inl written ↦
          let m : Lock = record l { writer = no_task } in
          let q-r : r ≡ put_at q addr m = ground arith in
          rw q-r (
            m,
            puts m,
            record {
              readers = w.readers;
              exclusive = λ k. absurd (k refl);
              readers_wait = w.readers_wait;
              writers_wait = w.writers_wait;
            },
          )
      | inr unwritten ↦ elim (Option-cases (find l.readers id)) [
        | inl absent ↦ let q-r : r ≡ q = ground (arith, absent) in rw q-r (l, p, w)
        | inr (c, reads) ↦
            let (readers, uncounted, sound) =
              uncount_reader-AreReaders l.readers id c w.readers n reads in
            let m : Lock = record l { readers = readers } in
            let q-r : r ≡ put_at q addr m = ground (arith, reads, uncounted) in
            rw q-r (
              m,
              puts m,
              record {
                readers = sound;
                exclusive = λ written. absurd (ground arith);
                readers_wait = w.readers_wait;
                writers_wait = w.writers_wait;
              },
            )
      ]
    ]
