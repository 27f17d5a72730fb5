-- ===== src/Tidset/Keys.antt =====
-- Restricting a task set to the keys of a task map, or to the others (src/base/tidset.c). The
-- lookup aborts on NO_TASK.
use lotto.Base.{
  ℕ, zero, suc, ◌≡◌, refl, Bool, true, false, not, Option, none, some, List, ◌&&◌, ltb, ◌==◌,
  if◌then◌else◌, length, get_or, elem, arith, Outcome, ok, ◌>>=◌, Returns, compact, swap_remove,
  elem-count, elem_of_get_or, count-swap_remove, Bool-cases, inl, inr, nil_of_length,
}
use lotto.Base.Words.{no_task}
use lotto.Map.{Map, find, tid_find}
use lotto.Tidset.{Tidset, has, size, filter}
use lotto.Tidset.Valid.{IsValid, filter_lem}

module _ {V : Type 0} where
  abbrev pub is_found : Option V → Bool
  is_found none = false
  is_found (some _) = true

  -- The loop of both: a slot stays if its lookup says `wanted`.
  unfoldable pub sweep : Map V → Bool → ℕ → ℕ → List ℕ → Outcome (List ℕ)
  sweep m wanted zero i xs = ok xs
  sweep m wanted (suc fuel) i xs = elim (ltb i (length xs)) [
    | false ↦ ok xs
    | true ↦ do
      found ← tid_find m (get_or xs i 0)
      elim (if wanted then is_found found else not (is_found found)) [
        | true ↦ sweep m wanted fuel (suc i) xs
        | false ↦ sweep m wanted fuel i (swap_remove i xs)
      ]
  ]

  unfoldable pub retain_all_keys : Tidset → Map V → Outcome Tidset
  unfolding sweep
  retain_all_keys t m = do xs ← sweep m true (size t) 0 t.tasks; ok (record t { tasks = xs })

  unfoldable pub remove_all_keys : Tidset → Map V → Outcome Tidset
  unfolding sweep
  remove_all_keys t m =
      if size t == 0
      then ok t
      else (do xs ← sweep m false (size t) 0 t.tasks; ok (record t { tasks = xs }))

  abbrev keeps : Map V → Bool → ℕ → Bool
  keeps m wanted x = if wanted then is_found (find m x) else not (is_found (find m x))

  -- Without NO_TASK in the array no lookup aborts, and the loop is the compaction.
  sweep-compact :
      (m : Map V) (wanted : Bool) (fuel i : ℕ) (xs : List ℕ)
      → elem no_task xs ≡ false
      → sweep m wanted fuel i xs ≡ ok (compact (keeps m wanted) fuel i xs)
  unfolding sweep compact tid_find
  sweep-compact m wanted zero i xs h = refl
  sweep-compact m wanted (suc fuel) i xs h = ground (
    arith,
    sweep-compact m wanted fuel (suc i) xs,
    sweep-compact m wanted fuel i (swap_remove i xs),
    elem_of_get_or xs i,
    count-swap_remove no_task i xs,
    elem-count no_task xs,
    elem-count no_task (swap_remove i xs),
  )

  -- On a well-formed set without NO_TASK, `retain_all_keys` returns a well-formed set of just the
  -- members that are keys of the map.
  pub retain_all_keys-Returns :
      (t : Tidset) (m : Map V)
      → IsValid t
      → has t no_task ≡ false
      → Returns
          (retain_all_keys t m)
          (λ r. IsValid r × ((x : ℕ) → has r x ≡ (is_found (find m x) && has t x)))
  unfolding retain_all_keys filter
  retain_all_keys-Returns t m v h =
      rw (sweep-compact m true (size t) 0 t.tasks h) (filter_lem t (λ x. is_found (find m x)) v)

  -- Likewise `remove_all_keys` returns the members that are no keys.
  pub remove_all_keys-Returns :
      (t : Tidset) (m : Map V)
      → IsValid t
      → has t no_task ≡ false
      → Returns
          (remove_all_keys t m)
          (λ r. IsValid r × ((x : ℕ) → has r x ≡ (not (is_found (find m x)) && has t x)))
  unfolding remove_all_keys filter
  remove_all_keys-Returns t m v h = elim (Bool-cases (size t == 0)) [
    | inl e ↦ rw e (v, λ x. ground (arith, nil_of_length t.tasks))
    | inr e ↦
        rw (e, sweep-compact m false (size t) 0 t.tasks h)
          (filter_lem t (λ x. not (is_found (find m x))) v)
  ]
