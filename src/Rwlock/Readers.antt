-- ===== src/Rwlock/Readers.antt =====
-- The readers of a lock of modules/rwlock/src/handler.c: counting a reader in and out.
use mathlib.Core.Option
use lotto.Base.{
  ℕ, suc, ◌-◌, ◌<◌, ◌≡◌, ◌≢◌, true, false, none, some, List, [], ◌∷◌, ◌==◌, if◌then◌else◌, length,
  ok, arith, Option-cases, Bool-cases, inl, inr,
}
use lotto.Base.Words.{no_task}
use lotto.Map.{Map, find, lookup, modify, register, deregister}
use lotto.Map.Laws.{IsValid, register-Returns, deregister_lem, modify_lem}
use lotto.Rwlock.{count_reader, uncount_reader}

-- Well formed, and no reader is counted 0 times.
pub record AreReaders (readers : Map ℕ) : Type 0 where
  pub valid : IsValid readers
  pub positive : (x cnt : ℕ) → find readers x ≡ some cnt → 0 < cnt

-- How often the task has locked to read.
abbrev pub times : Map ℕ → ℕ → ℕ
times readers id = Option.get_or (find readers id) 0

pub nitems_pos :
    (readers : Map ℕ) (x cnt : ℕ) → IsValid readers → find readers x ≡ some cnt → 0 < readers.nitems
unfolding lookup
nitems_pos readers x cnt v e = go readers.items v.counted e
  where
    go : (l : List (ℕ × ℕ)) → readers.nitems ≡ length l → lookup x l ≡ some cnt → 0 < readers.nitems
    go [] q e = cc
    go (a ∷ l) q e = omega arith

-- What counting a task in makes of the readers.
pub record CountsIn (readers : Map ℕ) (id : ℕ) (r : Map ℕ) : Type 0 where
  pub sound : AreReaders r
  pub some_reader : 0 < r.nitems
  pub found :
      (x : ℕ) → find r x ≡ (if id == x then some (suc (times readers id)) else find readers x)

counted_in :
    (readers m : Map ℕ) (id c : ℕ)
    → AreReaders readers
    → IsValid m
    → c ≡ times readers id
    → find m id ≡ some c
    → ((x : ℕ) → find m x ≡ (if id == x then some c else find readers x))
    → CountsIn readers id (modify m id suc)
counted_in readers m id c w v t here f =
    let (valid, found) = modify_lem m id suc v in
    let own : find (modify m id suc) id ≡ some (suc c) = ground (arith, found id, here) in
    record {
      sound = record {
        valid = valid;
        positive = λ x cnt e. ground (arith, found x, f x, w.positive x cnt);
      };
      some_reader = nitems_pos (modify m id suc) id (suc c) valid own;
      found = λ x. ground (arith, found x, f x, t);
    }

count_found :
    (readers : Map ℕ) (id c : ℕ)
    → id ≢ no_task
    → find readers id ≡ some c
    → count_reader readers id ≡ ok (modify readers id suc)
unfolding count_reader
count_found readers id c n e = ground (arith, e)

count_new :
    (readers m : Map ℕ) (id : ℕ)
    → id ≢ no_task
    → find readers id ≡ none
    → register readers 0 id ≡ ok m
    → count_reader readers id ≡ ok (modify m id suc)
unfolding count_reader
count_new readers m id n e h = ground (arith, e, h)

pub count_reader-CountsIn :
    (readers : Map ℕ) (id : ℕ)
    → AreReaders readers
    → id ≢ no_task
    → (r : Map ℕ) × (count_reader readers id ≡ ok r) × CountsIn readers id r
count_reader-CountsIn readers id w n = elim (Option-cases (find readers id)) [
  | inl e ↦
      let (m, registered, valid, found) = register-Returns readers 0 id w.valid e in
      (
        modify m id suc,
        count_new readers m id n e registered,
        counted_in readers m id 0 w valid (ground (arith, e)) (ground (arith, found id)) found,
      )
  | inr (c, e) ↦ (
    modify readers id suc,
    count_found readers id c n e,
    counted_in readers readers id c w w.valid (ground (arith, e)) e (λ x. ground (arith, e)),
  )
]

uncount_last :
    (readers : Map ℕ) (id c : ℕ)
    → id ≢ no_task
    → find readers id ≡ some c
    → (c - 1 == 0) ≡ true
    → uncount_reader readers id ≡ ok (deregister (modify readers id (λ k. k - 1)) id)
unfolding uncount_reader
uncount_last readers id c n e l = ground (arith, e)

uncount_more :
    (readers : Map ℕ) (id c : ℕ)
    → id ≢ no_task
    → find readers id ≡ some c
    → (c - 1 == 0) ≡ false
    → uncount_reader readers id ≡ ok (modify readers id (λ k. k - 1))
unfolding uncount_reader
uncount_more readers id c n e l = ground (arith, e)

-- Counting a registered reader out.
pub uncount_reader-AreReaders :
    (readers : Map ℕ) (id c : ℕ)
    → AreReaders readers
    → id ≢ no_task
    → find readers id ≡ some c
    → (r : Map ℕ) × (uncount_reader readers id ≡ ok r) × AreReaders r
uncount_reader-AreReaders readers id c w n e =
    let (valid, found) = modify_lem readers id (λ k. k - 1) w.valid in
    let (valid', found') = deregister_lem (modify readers id (λ k. k - 1)) id valid in
    elim (Bool-cases (c - 1 == 0)) [
      | inl l ↦ (
        _,
        uncount_last readers id c n e l,
        record {
          valid = valid';
          positive = λ x cnt q. ground (arith, found x, found' x, w.positive x cnt);
        },
      )
      | inr l ↦ (
        _,
        uncount_more readers id c n e l,
        record {
          valid = valid;
          positive = λ x cnt q. ground (arith, found x, e, w.positive x cnt);
        },
      )
    ]
