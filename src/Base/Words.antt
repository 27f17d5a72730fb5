-- ===== src/Base/Words.antt =====
-- Task ids and machine words (include/lotto/base/task_id.h).
use Prim.Native.Nat.{ℕ, ◌+◌, ◌*◌, ◌%◌, ◌<◌}
use mathlib.Core.Path.{◌≡◌}
use native.Mathlib.Omega.{arith}

-- `size_t` and `task_id` are 64-bit.
abbrev pub u64_mod : ℕ
u64_mod = 0x1_0000_0000_0000_0000

abbrev pub no_task : ℕ
no_task = 0

-- `~NO_TASK`
abbrev pub any_task : ℕ
any_task = 0xffff_ffff_ffff_ffff

-- `a * b` on `size_t`
abbrev pub mul64 : ℕ → ℕ → ℕ
mul64 a b = (a * b) % u64_mod

-- `a + b` on `uint64_t`
abbrev pub add64 : ℕ → ℕ → ℕ
add64 a b = (a + b) % u64_mod

pub add64-eq : (a b : ℕ) → a + b < u64_mod → add64 a b ≡ a + b
add64-eq a b h = omega arith

pub mul64_double : (a : ℕ) → a + a < u64_mod → mul64 a 2 ≡ a * 2
mul64_double a h = omega arith
