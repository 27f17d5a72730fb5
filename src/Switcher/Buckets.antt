-- ===== src/Switcher/Buckets.antt =====
-- The buckets that `switcher_wake` signals.
use lotto.Base.{
  ℕ, zero, suc, ◌+◌, ◌-◌, ◌%◌, ◌^◌, ◌<◌, ◌≤◌, ◌≡◌, ◌↔◌, ◌⊎◌, true, some, ◌==◌, elem, arith,
  Bool-cases, inl, inr,
}
use lotto.Switcher.{bucket, wake_index, waiting_from}

mod_mod : (a : ℕ) → a % 2 ^ 32 % 128 ≡ a % 128
mod_mod a = omega arith

neg_mod : (a : ℕ) → ((2 ^ 32 - a % 2 ^ 32) % 128 == 0) ≡ (a % 128 == 0)
neg_mod a = ground arith

pub wake_index_iff :
    (id : ℕ) → (wake_index id ≡ some (bucket id)) ↔ ((id % 2 ^ 32 < 2 ^ 31) ⊎ (bucket id ≡ 0))
unfolding wake_index
wake_index_iff id = ground (arith, mod_mod id, neg_mod id)

pub elem-waiting_from :
    (counter : ℕ → ℕ) (i n x : ℕ)
    → i ≤ x
    → x < i + n
    → 0 < counter x
    → elem x (waiting_from counter i n) ≡ true
unfolding waiting_from
elem-waiting_from counter i zero x h k w = absurd (omega arith)
elem-waiting_from counter i (suc n) x h k w = elim (Bool-cases (i == x)) [
  | inl same ↦ ground arith
  | inr later ↦ ground (arith, elem-waiting_from counter (suc i) n x (ground arith) (omega arith) w)
]
