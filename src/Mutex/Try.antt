-- ===== src/Mutex/Try.antt =====
-- Trying to acquire a mutex, and releasing it again.
use lotto.Base.{
  ℕ, ◌<◌, ◌≡◌, ◌≢◌, Bool, true, some, ◌==◌, ◌&&◌, ◌||◌, if◌then◌else◌, ok, ◌>>=◌, arith, inl, inr,
  ◌⊎◌, Bool-cases, Outcome-cases, Returns, Returns_of,
}
use lotto.Base.Words.{no_task}
use lotto.Map.{find}
use lotto.Mutex.{
  State, Mtx, posthandle_tryacquire, posthandle_release, release_item, owner_of, ebusy,
}
use lotto.Mutex.Find.{item, Puts}
use lotto.Mutex.Valid.{IsSound, item-IsSoundMtx}
use lotto.Mutex.Effects.{
  may_take, taken, tryacquire-Puts, Released, unknown, forgotten, lowered, release-Released,
}
use lotto.Mutex.Steps.{tryacquire-IsSound}
use lotto.Mutex.Owner.{owner_of-ne, owner_of-item, owner_of-Drops}

-- In a sound state a try by a named task returns a sound state. It succeeds exactly when the mutex
-- is free or the caller's, who then owns it; else it reports EBUSY. No other owner changes.
pub tryacquire-Returns :
    (s : State) (id addr : ℕ)
    → IsSound s
    → id ≢ no_task
    → Returns (posthandle_tryacquire s id addr) (λ r.
      IsSound r.0
      × (r.1 ≡ (if (owner_of s addr == no_task) || (owner_of s addr == id) then 0 else ebusy))
      × ((x : ℕ) → owner_of r.0 x ≡ (if (addr == x) && (r.1 == 0) then id else owner_of s x)))
tryacquire-Returns s id addr v n =
    let (q, e, p) = tryacquire-Puts s id addr v n in
    let w = tryacquire-IsSound s id addr q _ v n e in
    Returns_of _ _ e (
      w,
      ground (arith, owner_of-item s addr),
      λ x. elim (Bool-cases (may_take s id addr)) [
        | inl may ↦
            ground (arith, owner_of-ne s addr (taken (item s addr) id) q (rw may at p) x, may)
        | inr not_may ↦ ground (
          arith,
          owner_of-ne s addr (item s addr) q (rw not_may at p) x,
          not_may,
          owner_of-item s addr,
        )
      ],
    )

release-ok :
    (strict : Bool) (s : State) (id addr : ℕ) (m : Mtx)
    → find s.mutexes addr ≡ some m
    → 0 < m.count
    → (r : State) × (posthandle_release strict s id addr ≡ ok r)
unfolding posthandle_release release_item
release-ok strict s id addr m e h = elim (Outcome-cases (posthandle_release strict s id addr)) [
  | inl (f, stops) ↦ absurd (ground arith)
  | inr (r, done) ↦ (r, done)
]

-- After a release of what was just taken every mutex has the owner that it had before.
Released-back :
    (s : State) (id addr : ℕ) (q r : State)
    → IsSound s
    → may_take s id addr ≡ true
    → Puts s addr (taken (item s addr) id) q
    → Released q addr r
    → (x : ℕ) → owner_of r x ≡ owner_of s x
Released-back s id addr q r v may p (unknown same absent) x = absurd (ground (arith, p.found addr))
Released-back s id addr q r v may p (forgotten d c) x = ground (
  arith,
  p.found addr,
  owner_of-Drops q addr r d x,
  owner_of-ne s addr (taken (item s addr) id) q p x,
  owner_of-item s addr,
  (item-IsSoundMtx s addr v).counted,
)
Released-back s id addr q r v may p (lowered m d ws c o) x = ground (
  arith,
  p.found addr,
  owner_of-ne q addr m r d x,
  owner_of-ne s addr (taken (item s addr) id) q p x,
  owner_of-item s addr,
  (item-IsSoundMtx s addr v).counted,
  (item-IsSoundMtx s addr v).owned,
)

-- In a sound state, taking a mutex that is free or the named caller's and releasing it again
-- returns, and every mutex has the owner that it had before.
pub release-tryacquire :
    (strict : Bool) (s : State) (id addr : ℕ)
    → IsSound s
    → id ≢ no_task
    → (owner_of s addr ≡ no_task) ⊎ (owner_of s addr ≡ id)
    → Returns
        (posthandle_tryacquire s id addr >>= λ q. posthandle_release strict q.0 id addr)
        (λ r. (x : ℕ) → owner_of r x ≡ owner_of s x)
release-tryacquire strict s id addr v n may =
    let (q, e, p) = tryacquire-Puts s id addr v n in
    let takes : may_take s id addr ≡ true = ground (arith, owner_of-item s addr) in
    let p' = rw takes at p in
    let w = tryacquire-IsSound s id addr q _ v n e in
    let (r, done) =
      release-ok strict q id addr (taken (item s addr) id) (ground (arith, p'.found addr))
        (omega arith) in
    rw (e, done)
      (Released-back s id addr q r v takes p' (release-Released strict q id addr r w done))
