-- ===== src/Map/Items.antt =====
-- The idiom by which the handlers open an item of a map of src/base/map.c: find it, or register it and
-- write its first value; then read and write it through the pointer.
use lotto.Base.{
  ℕ, ◌≡◌, Option, none, some, ◌==◌, if◌then◌else◌, Outcome, ok, fault, out_of_bounds, ◌>>=◌, arith,
  Option-cases, inl, inr,
}
use lotto.Map.{Map, find, register, modify, lookup}
use lotto.Map.Laws.{IsValid, register-Returns, modify_lem}

module _ {ℓ} {V : Type ℓ} where
  -- `zeroed` is what `calloc` gives, `first` what the code then writes.
  unfoldable pub find_or_put : Map V → V → V → ℕ → Outcome (Map V)
  unfolding lookup
  find_or_put m zeroed first key = elim (find m key) [
    | none ↦ do r ← register m zeroed key; ok (modify r key (λ _. first))
    | some _ ↦ ok m
  ]

  -- Reading and writing through the pointer to an item.
  unfoldable pub read : Map V → ℕ → Outcome V
  unfolding lookup
  read m key = elim (find m key) [ none ↦ fault out_of_bounds | some v ↦ ok v ]

  abbrev pub put : Map V → ℕ → V → Map V
  put m key v = modify m key (λ _. v)

  abbrev pub or_first : V → Option V → V
  or_first first none = first
  or_first first (some v) = v

  -- The item with the key, `first` where there is none.
  abbrev pub item : V → Map V → ℕ → V
  item first m key = or_first first (find m key)

  -- What changes no item but the one with the key, which becomes `v`.
  pub record Puts (m : Map V) (key : ℕ) (v : V) (r : Map V) : Type ℓ where
    pub valid : IsValid r
    pub found : (x : ℕ) → find r x ≡ (if key == x then some v else find m x)

  pub put-Puts :
      (m : Map V) (key : ℕ) (v w : V) → IsValid m → find m key ≡ some w → Puts m key v (put m key v)
  put-Puts m key v w k e =
      let (valid, found) = modify_lem m key (λ _. v) k in
      record { valid = valid; found = λ x. ground (arith, found x, e) }

  find_or_put-Puts :
      (m : Map V) (zeroed first : V) (key : ℕ)
      → IsValid m
      → (r : Map V) × (find_or_put m zeroed first key ≡ ok r) × Puts m key (item first m key) r
  unfolding find_or_put
  find_or_put-Puts m zeroed first key k = elim (Option-cases (find m key)) [
    | inl e ↦
        let (r, registered, valid, found) = register-Returns m zeroed key k e in
        let (valid', found') = modify_lem r key (λ _. first) valid in
        (
          put r key first,
          ground (arith, registered, e),
          record { valid = valid'; found = λ x. ground (arith, found x, found' x, e) },
        )
    | inr (v, e) ↦ (m, ground (arith, e), record { valid = k; found = λ x. ground (arith, e) })
  ]

  pub Puts-trans :
      (m : Map V) (key : ℕ) (v w : V) (r s : Map V)
      → Puts m key v r
      → Puts r key w s
      → Puts m key w s
  Puts-trans m key v w r s p q = record {
    valid = q.valid;
    found = λ x. ground (arith, p.found x, q.found x);
  }

  pub read-found : (m : Map V) (key : ℕ) (v : V) → find m key ≡ some v → read m key ≡ ok v
  unfolding read
  read-found m key v e = ground (arith, e)

  -- Opening an item returns; it then reads as `item`, and every write to it changes just that.
  pub open_item :
      (m : Map V) (zeroed first : V) (key : ℕ)
      → IsValid m
      → (r : Map V) × (find_or_put m zeroed first key ≡ ok r)
        × (read r key ≡ ok (item first m key))
        × Puts m key (item first m key) r
        × ((v : V) → Puts m key v (put r key v))
  open_item m zeroed first key k =
      let (r, e, p) = find_or_put-Puts m zeroed first key k in
      let here : find r key ≡ some (item first m key) = ground (arith, p.found key) in
      (
        r,
        e,
        read-found r key (item first m key) here,
        p,
        λ v.
            Puts-trans m key (item first m key) v r (put r key v) p
              (put-Puts r key v (item first m key) p.valid here),
      )
