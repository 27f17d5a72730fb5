-- ===== src/Mutex/Valid.antt =====
-- The invariant of the mutex handler of modules/mutex/src/handler.c.
use lotto.Base.{ℕ, ◌≡◌, refl, false, Option, none, some, ◌==◌, arith, inl, inr, Bool-cases}
use lotto.Base.Words.{no_task}
use lotto.Map
use lotto.Map.{Map, find}
use lotto.Tidset
use lotto.Tidset.{Tidset, has, insert, remove, size}
use lotto.Tidset.Valid
use lotto.Tidset.Valid.{insert-IsValid, remove-Returns}
use lotto.Mutex.{State, Mtx, fresh}
use lotto.Mutex.Find.{item, or_fresh, Puts, Drops}

-- A mutex has an owner exactly while its count is positive.
pub record IsSoundMtx (m : Mtx) : Type 0 where
  pub sets : Valid.IsValid m.waiters
  pub owned : m.owner ≡ no_task → m.count ≡ 0
  pub counted : m.count ≡ 0 → m.owner ≡ no_task

pub record IsSound (s : State) : Type 0 where
  pub keyed : Map.Laws.IsValid s.mutexes
  pub sound : (addr : ℕ) (m : Mtx) → find s.mutexes addr ≡ some m → IsSoundMtx m
  -- the handler's own waiter set is never filled
  pub idle : (x : ℕ) → has s.waiters x ≡ false

fresh-IsSoundMtx : IsSoundMtx fresh
unfolding Tidset.init
fresh-IsSoundMtx = record {
  sets = record { distinct = λ x. omega arith; fits = omega arith; backed = λ e. cc };
  owned = λ e. refl;
  counted = λ e. refl;
}

or_fresh-IsSoundMtx :
    (o : Option Mtx) → ((m : Mtx) → o ≡ some m → IsSoundMtx m) → IsSoundMtx (or_fresh o)
or_fresh-IsSoundMtx none h = fresh-IsSoundMtx
or_fresh-IsSoundMtx (some m) h = h m refl

pub item-IsSoundMtx : (s : State) (addr : ℕ) → IsSound s → IsSoundMtx (item s addr)
item-IsSoundMtx s addr v = or_fresh-IsSoundMtx (find s.mutexes addr) (v.sound addr)

pub Puts-IsSound :
    (s : State) (addr : ℕ) (m : Mtx) (r : State)
    → IsSound s
    → IsSoundMtx m
    → Puts s addr m r
    → IsSound r
Puts-IsSound s addr m r v w p = record {
  keyed = p.valid;
  sound = λ x n e. elim (Bool-cases (addr == x)) [
    | inl same ↦ let q : n ≡ m = ground (arith, p.found x) in rw q w
    | inr other ↦ v.sound x n (ground (arith, p.found x))
  ];
  idle = λ x. rw p.same_waiters (v.idle x);
}

pub Drops-IsSound : (s : State) (addr : ℕ) (r : State) → IsSound s → Drops s addr r → IsSound r
Drops-IsSound s addr r v p = record {
  keyed = p.valid;
  sound = λ x n e. v.sound x n (ground (arith, p.found x));
  idle = λ x. rw p.same_waiters (v.idle x);
}
