-- ===== src/Mutex/Waiting.antt =====
-- Which tasks the mutex handler takes from the sequencer's set (`_remove_waiters`, `_should_wait`), and
-- the acquisition by a task that resumes.
use lotto.Base.{
  ℕ, ◌+◌, ◌≡◌, ◌≢◌, refl, true, false, not, some, List, [], ◌∷◌, ◌==◌, ◌&&◌, arith, Option-cases,
  inl, inr, Bool-cases, ◌∙◌, ◌↔◌, Returns, Returns-ok, Returns_of, Outcome-cases, ◌⊎◌, IsDistinct,
}
use lotto.Base.Words.{no_task}
use lotto.Map
use lotto.Map.{Map, find, lookup}
use lotto.Map.Laws.{keys, lookup-none}
use lotto.Tidset.{Tidset, has, subtract, remove}
use lotto.Tidset.Valid
use lotto.Tidset.Valid.{remove-Returns}
use lotto.Tidset.Members.{subtract_lem}
use lotto.Mutex.{
  State, Mtx, remove_waiters, remove_waiters_of, should_wait, should_wait_in, posthandle_acquire,
  owner_of, put,
}
use lotto.Mutex.Find.{item, Puts, init_put}
use lotto.Mutex.Valid.{IsSound, item-IsSoundMtx}

-- Some owned mutex has the task among its waiters.
abbrev pub IsBlocked : State → ℕ → Type 0
IsBlocked s id =
    (addr : ℕ) × (m : Mtx) × (find s.mutexes addr ≡ some m)
    × (m.owner ≢ no_task)
    × (has m.waiters id ≡ true)

should_wait_in-intro :
    (l : List (ℕ × Mtx)) (id addr : ℕ) (m : Mtx)
    → lookup addr l ≡ some m
    → m.owner ≢ no_task
    → has m.waiters id ≡ true
    → should_wait_in l id ≡ true
unfolding should_wait_in lookup
should_wait_in-intro [] id addr m e o w = cc
should_wait_in-intro ((k, n) ∷ l) id addr m e o w = ground (arith, should_wait_in-intro l id addr m)

should_wait_in-elim :
    (l : List (ℕ × Mtx)) (id : ℕ)
    → IsDistinct (keys l)
    → should_wait_in l id ≡ true
    → (addr : ℕ) × (m : Mtx) × (lookup addr l ≡ some m)
      × (m.owner ≢ no_task)
      × (has m.waiters id ≡ true)
unfolding should_wait_in lookup
should_wait_in-elim [] id d h = cc
should_wait_in-elim ((k, n) ∷ l) id d h =
    elim (Bool-cases (not (n.owner == no_task) && has n.waiters id)) [
      | inl here ↦ (k, n, ground arith, ground arith, ground arith)
      | inr past ↦
          let (addr, m, e, o, w) =
            should_wait_in-elim l id (λ x. ground (arith, d x)) (ground arith) in
          (addr, m, ground (arith, d addr, lookup-none addr l), o, w)
    ]

-- On a well-formed map, `should_wait` decides whether some mutex with an owner has the task among
-- its waiters.
pub should_wait-IsBlocked :
    (s : State) (id : ℕ) → Map.Laws.IsValid s.mutexes → (should_wait s id ≡ true) ↔ IsBlocked s id
unfolding should_wait
should_wait-IsBlocked s id v = (
  should_wait_in-elim s.mutexes.items id v.distinct,
  λ b. should_wait_in-intro s.mutexes.items id b.0 b.1 b.2 b.3 b.4,
)

remove_waiters_of-filters :
    (l : List (ℕ × Mtx)) (tset : Tidset) (self : ℕ)
    → Valid.IsValid tset
    → let (out, waits) = remove_waiters_of l tset self in
      Valid.IsValid out
      × ((x : ℕ) → has out x ≡ (has tset x && not (should_wait_in l x)))
      × (waits ≡ should_wait_in l self)
unfolding remove_waiters_of should_wait_in
remove_waiters_of-filters [] tset self v = (v, λ x. ground arith, refl)
remove_waiters_of-filters ((k, m) ∷ l) tset self v = elim (Bool-cases (m.owner == no_task)) [
  | inl free ↦
      let (valid, members, waits) = remove_waiters_of-filters l tset self v in
      rw free (valid, members, waits)
  | inr owned ↦
      let (valid', members') = subtract_lem tset m.waiters v in
      let (valid, members, waits) =
        remove_waiters_of-filters l (subtract tset m.waiters) self valid' in
      rw owned (valid, λ x. ground (arith, members x, members' x), ground (arith, waits))
]

-- `remove_waiters` drops just the tasks that should wait, and tells whether the caller is one.
pub remove_waiters-filters :
    (s : State) (tset : Tidset) (self : ℕ)
    → Valid.IsValid tset
    → let (out, waits) = remove_waiters s tset self in
      Valid.IsValid out
      × ((x : ℕ) → has out x ≡ (has tset x && not (should_wait s x)))
      × (waits ≡ should_wait s self)
unfolding remove_waiters should_wait
remove_waiters-filters s tset self v = remove_waiters_of-filters s.mutexes.items tset self v

blocked_at :
    (s : State) (id addr : ℕ)
    → Map.Laws.IsValid s.mutexes
    → (item s addr).owner ≢ no_task
    → has (item s addr).waiters id ≡ true
    → should_wait s id ≡ true
blocked_at s id addr v o w = elim (Option-cases (find s.mutexes addr)) [
  | inl e ↦ absurd (o (ground (arith, e)))
  | inr (m, e) ↦
      (should_wait-IsBlocked s id v).1 (addr, m, e, ground (arith, e, o), ground (arith, e, w))
]

owner_of-Puts :
    (s : State) (addr : ℕ) (m : Mtx) (r : State) → Puts s addr m r → owner_of r addr ≡ m.owner
unfolding owner_of
owner_of-Puts s addr m r p = ground (arith, p.found addr)

acquire_free :
    (s : State) (id addr : ℕ)
    → IsSound s
    → (item s addr).owner ≡ no_task
    → has (item s addr).waiters id ≡ true
    → Returns (posthandle_acquire s id addr) (λ r. owner_of r addr ≡ id)
unfolding posthandle_acquire
acquire_free s id addr v free waits =
    let (q, e, same, here, p, puts) = init_put s addr v.keyed in
    let w = item-IsSoundMtx s addr v in
    let removes = remove-Returns (item s addr).waiters id w.sets in
    elim (Outcome-cases (remove (item s addr).waiters id)) [
      | inl (f, refused) ↦ absurd (rw refused at removes)
      | inr ((ws, removed), gone) ↦
          let was : removed ≡ true = (Returns-ok _ (ws, removed) gone removes).1 ∙ waits in
          let m : Mtx = record { waiters = ws; owner = id; count = (item s addr).count + 1 } in
          Returns_of (λ x. owner_of x addr ≡ id) {m = posthandle_acquire s id addr} (put q addr m)
            (ground (arith, v.idle id, w.owned, was))
            (owner_of-Puts s addr m (put q addr m) (puts m))
    ]

acquire_own :
    (s : State) (id addr : ℕ)
    → IsSound s
    → id ≢ no_task
    → (item s addr).owner ≡ id
    → Returns (posthandle_acquire s id addr) (λ r. owner_of r addr ≡ id)
unfolding posthandle_acquire
acquire_own s id addr v n own =
    let (q, e, same, here, p, puts) = init_put s addr v.keyed in
    let m : Mtx = record (item s addr) { count = (item s addr).count + 1 } in
    Returns_of (λ x. owner_of x addr ≡ id) {m = posthandle_acquire s id addr} (put q addr m)
      (ground (arith, v.idle id)) (owner_of-Puts s addr m (put q addr m) (puts m) ∙ own)

-- In a sound state, a named task that waits for the mutex or owns it, and that should not wait,
-- resumes from the acquisition without an abort and owns the mutex.
pub posthandle_acquire-Returns :
    (s : State) (id addr : ℕ)
    → IsSound s
    → id ≢ no_task
    → should_wait s id ≡ false
    → (has (item s addr).waiters id ≡ true) ⊎ ((item s addr).owner ≡ id)
    → Returns (posthandle_acquire s id addr) (λ r. owner_of r addr ≡ id)
posthandle_acquire-Returns s id addr v n free (inr own) = acquire_own s id addr v n own
posthandle_acquire-Returns s id addr v n free (inl waits) =
    elim (Bool-cases ((item s addr).owner == no_task)) [
      | inl e ↦ acquire_free s id addr v (ground arith) waits
      | inr e ↦ absurd (ground (arith, blocked_at s id addr v.keyed (ground arith) waits))
    ]
