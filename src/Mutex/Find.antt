-- ===== src/Mutex/Find.antt =====
-- What the map of mutexes holds after `mutex_init` and a write through an item's pointer.
use lotto.Base.{
  ℕ, ◌≡◌, refl, Option, none, some, ◌==◌, if◌then◌else◌, ok, arith, Option-cases, inl, inr, ◌∙◌,
}
use lotto.Map
use lotto.Map.{Map, find, register, modify, deregister}
use lotto.Map.Laws.{register-Returns, modify_lem, deregister_lem}
use lotto.Mutex.{State, Mtx, at, put, fresh, zeroed, mutex_init}

-- The item at an address, an unused one where there is none.
abbrev pub or_fresh : Option Mtx → Mtx
or_fresh none = fresh
or_fresh (some m) = m

abbrev pub item : State → ℕ → Mtx
item s addr = or_fresh (find s.mutexes addr)

-- What changes no mutex but the one at `addr`, which becomes `m`.
pub record Puts (s : State) (addr : ℕ) (m : Mtx) (r : State) : Type 0 where
  pub valid : Map.Laws.IsValid r.mutexes
  pub same_waiters : r.waiters ≡ s.waiters
  pub found : (x : ℕ) → find r.mutexes x ≡ (if addr == x then some m else find s.mutexes x)

pub put_lem :
    (s : State) (addr : ℕ) (m n : Mtx)
    → Map.Laws.IsValid s.mutexes
    → find s.mutexes addr ≡ some n
    → Puts s addr m (put s addr m)
put_lem s addr m n v e =
    let (valid, found) = modify_lem s.mutexes addr (λ _. m) v in
    record { valid = valid; same_waiters = refl; found = λ x. ground (arith, found x, e) }

-- `mutex_init` returns, and from then on the map has the item that `item` names.
pub mutex_init_lem :
    (s : State) (addr : ℕ)
    → Map.Laws.IsValid s.mutexes
    → (r : State) × (mutex_init s addr ≡ ok r) × Puts s addr (item s addr) r
unfolding mutex_init
mutex_init_lem s addr v = elim (Option-cases (find s.mutexes addr)) [
  | inl e ↦
      let (m, registered, valid, found) = register-Returns s.mutexes zeroed addr v e in
      let (valid', found') = modify_lem m addr (λ _. fresh) valid in
      (
        put (record s { mutexes = m }) addr fresh,
        ground (arith, registered, e),
        record {
          valid = valid';
          same_waiters = refl;
          found = λ x. ground (arith, found x, found' x, e);
        },
      )
  | inr (m, e) ↦ (
    s,
    ground (arith, e),
    record { valid = v; same_waiters = refl; found = λ x. ground (arith, e) },
  )
]

-- Two such changes at one address make one.
pub Puts-trans :
    (s : State) (addr : ℕ) (m n : Mtx) (r t : State)
    → Puts s addr m r
    → Puts r addr n t
    → Puts s addr n t
Puts-trans s addr m n r t p q = record {
  valid = q.valid;
  same_waiters = q.same_waiters ∙ p.same_waiters;
  found = λ x. ground (arith, p.found x, q.found x);
}

-- The state in which `mutex_init` leaves `s`, with the item at `addr` written.
pub init_put :
    (s : State) (addr : ℕ)
    → Map.Laws.IsValid s.mutexes
    → (r : State) × (mutex_init s addr ≡ ok r)
      × (r.waiters ≡ s.waiters)
      × (at r addr ≡ ok (item s addr))
      × Puts s addr (item s addr) r
      × ((m : Mtx) → Puts s addr m (put r addr m))
init_put s addr v =
    let (r, e, p) = mutex_init_lem s addr v in
    let here : find r.mutexes addr ≡ some (item s addr) = ground (arith, p.found addr) in
    (
      r,
      e,
      p.same_waiters,
      ground (arith, here),
      p,
      λ m. Puts-trans s addr (item s addr) m r _ p (put_lem r addr m (item s addr) p.valid here),
    )

-- Dropping the item at `addr` leaves an unused one there.
pub record Drops (s : State) (addr : ℕ) (r : State) : Type 0 where
  pub valid : Map.Laws.IsValid r.mutexes
  pub same_waiters : r.waiters ≡ s.waiters
  pub found : (x : ℕ) → find r.mutexes x ≡ (if addr == x then none else find s.mutexes x)

pub drop_lem :
    (s : State) (addr : ℕ)
    → Map.Laws.IsValid s.mutexes
    → Drops s addr (record s { mutexes = deregister s.mutexes addr })
drop_lem s addr v =
    let (valid, found) = deregister_lem s.mutexes addr v in
    record { valid = valid; same_waiters = refl; found = found }
