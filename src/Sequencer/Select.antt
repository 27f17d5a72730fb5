-- ===== src/Sequencer/Select.antt =====
-- Which task `_dispatch_capture_event` of src/engine/sequencer.c picks.
use native.Mathlib.Nat.{mod-lt}
use lotto.Base.{
  ℕ, ◌%◌, ◌<◌, ◌≡◌, ◌≢◌, refl, true, false, ◌⊎◌, inl, inr, ◌==◌, get_or, ok, ◌>>=◌, Returns,
  Returns_of, arith, Bool-cases, elem_of_get_or,
}
use lotto.Base.Words.{no_task, any_task}
use lotto.Tidset.{Tidset, has, get, size}
use lotto.Tidset.Valid
use lotto.Sequencer.{
  CapturePoint, Decision, Selector, first, random, undefined, choose, prng_range, select, settled,
}

get-has :
    (t : Tidset) (i : ℕ)
    → Valid.IsValid t
    → i < size t
    → (id : ℕ) × (get t i ≡ ok id) × (has t id ≡ true)
unfolding get
get-has t i v h = (get_or t.tasks i 0, ground (arith, v.backed, v.fits), elem_of_get_or t.tasks i h)

prng_range-eq : (v n : ℕ) → 0 < n → prng_range v 0 n ≡ ok (v % n)
unfolding prng_range
prng_range-eq v n h = ground arith

choose_at :
    (v : ℕ) (t : Tidset)
    → Valid.IsValid t
    → 0 < size t
    → (id : ℕ) × ((prng_range v 0 (size t) >>= get t) ≡ ok id) × (has t id ≡ true)
choose_at v t w h =
    let (id, e, m) = get-has t (v % size t) w (mod-lt v h) in
    (id, rw (prng_range-eq v (size t) h) e, m)

choose-has :
    (v : ℕ) (selector : Selector) (t : Tidset)
    → Valid.IsValid t
    → 0 < size t
    → (id : ℕ) × (choose v selector t ≡ ok id) × (has t id ≡ true)
unfolding choose
choose-has v first t w h = get-has t 0 w h
choose-has v random t w h = choose_at v t w h
choose-has v undefined t w h = choose_at v t w h

-- What a pick can be: the task of the capture unless the handlers made a change point; else the
-- task that they named; else a member of their set, or ANY_TASK if the set is empty.
pub data Picks (cp : CapturePoint) (e : Decision) (id : ℕ) : Type 0 where
  stays : e.is_chpt ≡ false → id ≡ cp.id → Picks cp e id
  named : e.is_chpt ≡ true → e.next ≢ no_task → id ≡ e.next → Picks cp e id
  any : e.is_chpt ≡ true → e.next ≡ no_task → size e.tset ≡ 0 → id ≡ any_task → Picks cp e id
  member : e.is_chpt ≡ true → e.next ≡ no_task → has e.tset id ≡ true → Picks cp e id

select-chosen :
    (v : ℕ) (cp : CapturePoint) (e : Decision) (id : ℕ)
    → e.is_chpt ≡ true
    → e.next ≡ no_task
    → (size e.tset == 0) ≡ false
    → choose v e.selector e.tset ≡ ok id
    → select v cp e ≡ ok (settled e, id)
unfolding select
select-chosen v cp e id c n z h = ground (arith, h)

select_cases :
    (v : ℕ) (cp : CapturePoint) (e : Decision)
    → (e.is_chpt ≡ false → (e.next ≡ no_task) ⊎ (e.next ≡ cp.id))
    → ((r : Decision) × (id : ℕ) × (select v cp e ≡ ok (r, id)) × Picks cp e id)
      ⊎ ((e.is_chpt ≡ true) × (e.next ≡ no_task) × ((size e.tset == 0) ≡ false))
unfolding select
select_cases v cp e h = elim (Bool-cases e.is_chpt) [
  | inr fixed ↦ inl (e, cp.id, ground (arith, h fixed), stays fixed refl)
  | inl free ↦ elim (Bool-cases (e.next == no_task)) [
    | inr by_handler ↦ inl (e, e.next, ground arith, named free (ground arith) refl)
    | inl unnamed ↦ elim (Bool-cases (size e.tset == 0)) [
      | inl empty ↦ inl (e, any_task, ground arith, any free (ground arith) (ground arith) refl)
      | inr some_ ↦ inr (free, ground arith, some_)
    ]
  ]
]

-- The selection returns, whatever the random generator gives, if the decision's set is well formed
-- and no other task than that of the capture point is named without a change point. The task is
-- that of the capture point without a change point; the named one with it; a member of the set if
-- none is named; ANY_TASK if the set is empty too.
pub select-Picks :
    (v : ℕ) (cp : CapturePoint) (e : Decision)
    → Valid.IsValid e.tset
    → (e.is_chpt ≡ false → (e.next ≡ no_task) ⊎ (e.next ≡ cp.id))
    → Returns (select v cp e) (λ r. Picks cp e r.1)
select-Picks v cp e w h = elim (select_cases v cp e h) [
  | inl (r, id, q, p) ↦ Returns_of (λ r. Picks cp e r.1) {m = select v cp e} (r, id) q p
  | inr (free, unnamed, some_) ↦
      let (id, q, m) = choose-has v e.selector e.tset w (ground arith) in
      Returns_of (λ r. Picks cp e r.1) {m = select v cp e} (settled e, id)
        (select-chosen v cp e id free unnamed some_ q) (member free unnamed m)
]
