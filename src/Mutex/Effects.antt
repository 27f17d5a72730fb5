-- ===== src/Mutex/Effects.antt =====
-- The effect of each operation of the mutex handler on the mutex at its address.
use lotto.Base.{
  ℕ, ◌+◌, ◌-◌, ◌<◌, ◌≡◌, ◌≢◌, refl, Bool, true, not, none, some, ◌==◌, ◌&&◌, ◌||◌, if◌then◌else◌,
  ok, arith, Option-cases, inl, inr, Bool-cases, Returns-ok, Outcome-cases, ltb,
}
use lotto.Base.Words.{no_task}
use lotto.Map.{find, deregister}
use lotto.Tidset.{has, insert, remove, size}
use lotto.Tidset.Valid
use lotto.Tidset.Valid.{insert-IsValid, remove-Returns}
use lotto.Mutex.{
  State, Mtx, put, posthandle_tryacquire, handle_acquire, posthandle_acquire, posthandle_release,
  release_item, ebusy,
}
use lotto.Mutex.Find.{item, Puts, Drops, init_put, put_lem, drop_lem}
use lotto.Mutex.Valid.{IsSound, item-IsSoundMtx}

-- A task may take a mutex that is free or its own.
abbrev pub may_take : State → ℕ → ℕ → Bool
may_take s id addr = ((item s addr).owner == no_task) || ((item s addr).owner == id)

abbrev pub taken : Mtx → ℕ → Mtx
taken m id = record m { owner = id; count = m.count + 1 }

pub tryacquire-Puts :
    (s : State) (id addr : ℕ)
    → IsSound s
    → id ≢ no_task
    → (r : State) × (posthandle_tryacquire s id addr
        ≡ ok (r, if may_take s id addr then 0 else ebusy))
      × Puts s addr (if may_take s id addr then taken (item s addr) id else item s addr) r
unfolding posthandle_tryacquire
tryacquire-Puts s id addr v n =
    let (r, e, same, here, p, puts) = init_put s addr v.keyed in
    let w = item-IsSoundMtx s addr v in
    elim (Bool-cases (may_take s id addr)) [
      | inl may ↦
          (put r addr (taken (item s addr) id), ground (arith, v.idle id, w.owned), rw may (puts _))
      | inr not_may ↦ (put r addr (item s addr), ground (arith, v.idle id), rw not_may (puts _))
    ]

pub acquire-Puts :
    (s : State) (id addr : ℕ) (r : State)
    → IsSound s
    → handle_acquire s id addr ≡ ok r
    → (m : Mtx) × Puts s addr m r
      × (m.owner ≡ (item s addr).owner)
      × (m.count ≡ (item s addr).count)
      × Valid.IsValid m.waiters
      × ((x : ℕ)
          → has m.waiters x
            ≡ (((id == x) && not ((item s addr).owner == id)) || has (item s addr).waiters x))
unfolding handle_acquire
acquire-Puts s id addr r v h =
    let (q, e, same, here, p, puts) = init_put s addr v.keyed in
    let w = item-IsSoundMtx s addr v in
    elim (Bool-cases ((item s addr).owner == id)) [
      | inl own ↦ (
        item s addr,
        let q-r : r ≡ q = ground (arith, v.idle id) in rw q-r p,
        refl,
        refl,
        w.sets,
        λ x. ground arith,
      )
      | inr other ↦ elim (Outcome-cases (insert (item s addr).waiters id)) [
        | inl (f, refused) ↦ absurd (ground (arith, v.idle id))
        | inr ((ws, added), inserted) ↦
            let q-r : r ≡ put q addr (record (item s addr) { waiters = ws }) =
              ground (arith, v.idle id) in
            let (valid, new, members) =
              insert-IsValid (item s addr).waiters id ws added w.sets inserted in
            (
              record (item s addr) { waiters = ws },
              rw q-r (puts _),
              refl,
              refl,
              valid,
              λ x. ground (arith, members x),
            )
      ]
    ]

pub posthandle_acquire-Puts :
    (s : State) (id addr : ℕ) (r : State)
    → IsSound s
    → id ≢ no_task
    → posthandle_acquire s id addr ≡ ok r
    → (may_take s id addr ≡ true)
      × ((m : Mtx) × Puts s addr m r
          × (m.owner ≡ id)
          × (m.count ≡ (item s addr).count + 1)
          × Valid.IsValid m.waiters)
unfolding posthandle_acquire
posthandle_acquire-Puts s id addr r v n h =
    let (q, e, same, here, p, puts) = init_put s addr v.keyed in
    let w = item-IsSoundMtx s addr v in
    elim (Bool-cases ((item s addr).owner == no_task)) [
      | inl free ↦ elim (Outcome-cases (remove (item s addr).waiters id)) [
        | inl (f, refused) ↦ absurd (ground (arith, v.idle id))
        | inr ((ws, removed), gone) ↦
            let q-r : r
                ≡ put q addr
                    (record { waiters = ws; owner = id; count = (item s addr).count + 1 }) =
              ground (arith, v.idle id) in
            (
              ground arith,
              (
                record { waiters = ws; owner = id; count = (item s addr).count + 1 },
                rw q-r (puts _),
                refl,
                refl,
                (Returns-ok _ (ws, removed) gone
                    (remove-Returns (item s addr).waiters id w.sets)).0,
              ),
            )
      ]
      | inr held ↦
          let q-r : r ≡ put q addr (record (item s addr) { count = (item s addr).count + 1 }) =
            ground (arith, v.idle id) in
          (
            ground (arith, v.idle id),
            (
              record (item s addr) { count = (item s addr).count + 1 },
              rw q-r (puts _),
              ground (arith, v.idle id),
              refl,
              w.sets,
            ),
          )
    ]

-- What a release that returns has done: nothing to an unknown mutex; else it lowers the count, and
-- at 0 it frees the mutex, which is forgotten if nobody waits.
pub data Released (s : State) (addr : ℕ) (r : State) : Type 0 where
  unknown : r ≡ s → find s.mutexes addr ≡ none → Released s addr r
  forgotten : Drops s addr r → (item s addr).count ≡ 1 → Released s addr r
  lowered :
      (m : Mtx)
      → Puts s addr m r
      → m.waiters ≡ (item s addr).waiters
      → m.count + 1 ≡ (item s addr).count
      → m.owner ≡ (if m.count == 0 then no_task else (item s addr).owner)
      → Released s addr r

release_item-Released :
    (s : State) (addr : ℕ) (m : Mtx) (r : State)
    → IsSound s
    → find s.mutexes addr ≡ some m
    → release_item s addr m ≡ ok r
    → Released s addr r
unfolding release_item
release_item-Released s addr m r v e h =
    let here : item s addr ≡ m = ground (arith, e) in
    let positive : 0 < m.count = ground arith in
    elim (Bool-cases (ltb 0 (m.count - 1))) [
      | inl nested ↦
          let less : r ≡ put s addr (record m { count = m.count - 1 }) = ground arith in
          lowered (record m { count = m.count - 1 }) (rw less (put_lem s addr _ m v.keyed e))
            (ground arith) (ground arith) (ground arith)
      | inr last ↦ elim (Bool-cases (size m.waiters == 0)) [
        | inl nobody ↦
            let gone : r ≡ record s { mutexes = deregister s.mutexes addr } = ground arith in
            forgotten (rw gone (drop_lem s addr v.keyed)) (ground arith)
        | inr somebody ↦
            let free : r ≡ put s addr (record m { count = m.count - 1; owner = no_task }) =
              ground arith in
            lowered (record m { count = m.count - 1; owner = no_task })
              (rw free (put_lem s addr _ m v.keyed e)) (ground arith) (ground arith) (ground arith)
      ]
    ]

pub release-Released :
    (strict : Bool) (s : State) (id addr : ℕ) (r : State)
    → IsSound s
    → posthandle_release strict s id addr ≡ ok r
    → Released s addr r
unfolding posthandle_release
release-Released strict s id addr r v h = elim (Option-cases (find s.mutexes addr)) [
  | inl e ↦ unknown (ground (arith, e)) e
  | inr (m, e) ↦ release_item-Released s addr m r v e (ground (arith, e))
]
