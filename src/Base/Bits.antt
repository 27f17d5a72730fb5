-- ===== src/Base/Bits.antt =====
-- A word `bit` with at most one bit set, against another word: `x & bit`, `x ^ bit`, `x | bit`,
-- `x & ~bit` and `bit >> 1`, by division. A word `bit` of 0 changes nothing.
use Prim.Native.Nat.{ℕ, ◌+◌, ◌-◌, ◌*◌, ◌/◌, ◌%◌, ◌<◌, bit_or, bit_xor}
use mathlib.Core.Path.{◌≡◌, refl}
use mathlib.Core.Bool.{Bool, true, false, not}
use native.Mathlib.Omega.{arith}
use lotto.Base.Tests.{◌==◌, if◌then◌else◌}

-- `x & bit`, as a test
unfoldable pub has_bit : ℕ → ℕ → Bool
has_bit x bit = not ((x / bit) % 2 == 0)

-- `x ^ bit`
unfoldable pub flip_bit : ℕ → ℕ → ℕ
flip_bit x bit = if has_bit x bit then x - bit else x + bit

-- `x | bit`
unfoldable pub set_bit : ℕ → ℕ → ℕ
set_bit x bit = if has_bit x bit then x else x + bit

-- `x & ~bit`
unfoldable pub clear_bit : ℕ → ℕ → ℕ
clear_bit x bit = if has_bit x bit then x - bit else x

quotient_at : (q r w : ℕ) → 0 < w → r < w → (q * w + r) / w ≡ q
quotient_at q r w p h = grind arith

pub has_bit-low : (q r w : ℕ) → r < w → has_bit (q * (w + w) + r) w ≡ false
unfolding has_bit
has_bit-low q r w h =
    let e : (q * (w + w) + r) / w ≡ q * 2 = grind (arith, quotient_at (q * 2) r w) in
    rw e (ground arith)

pub has_bit-high : (q r w : ℕ) → r < w → has_bit (q * (w + w) + w + r) w ≡ true
unfolding has_bit
has_bit-high q r w h =
    let e : (q * (w + w) + w + r) / w ≡ q * 2 + 1 = grind (arith, quotient_at (q * 2 + 1) r w) in
    rw e (ground arith)

-- At a multiple of `2 * w`, the bit `w` is clear.
pub flip_bit-start : (q w : ℕ) → 0 < w → flip_bit (q * (w + w)) w ≡ q * (w + w) + w
unfolding flip_bit
flip_bit-start q w p = ground (arith, has_bit-low q 0 w)

pub flip_bit-high : (q w : ℕ) → 0 < w → flip_bit (q * (w + w) + w) w ≡ q * (w + w)
unfolding flip_bit
flip_bit-high q w p = ground (arith, has_bit-high q 0 w)

-- A block of `2 * w` and its halves
pub half_bits :
    (q w start : ℕ)
    → 0 < w
    → start ≡ q * (w + w)
    → (has_bit start w ≡ false)
      × (flip_bit start w ≡ start + w)
      × (has_bit (start + w) w ≡ true)
      × (flip_bit (start + w) w ≡ start)
unfolding flip_bit
half_bits q w start pos e = ground (arith, has_bit-low q 0 w, has_bit-high q 0 w, e)

pub set_bit-start : (q w : ℕ) → 0 < w → set_bit (q * (w + w)) w ≡ q * (w + w) + w
unfolding set_bit
set_bit-start q w p = ground (arith, has_bit-low q 0 w)

-- The last word of a block of `2 * w` has the bit `w`.
pub flip_bit-end : (q w : ℕ) → 0 < w → flip_bit (q * (w + w) + (w + w) - 1) w ≡ q * (w + w) + w - 1
unfolding flip_bit
flip_bit-end q w p =
    let e : q * (w + w) + (w + w) - 1 ≡ q * (w + w) + w + (w - 1) = omega arith in
    rw e (rw (has_bit-high q (w - 1) w (omega arith)) (omega arith))

bits_runs :
    (flip_bit 12 4 ≡ bit_xor 12 4)
    × (flip_bit 3 4 ≡ bit_xor 3 4)
    × (set_bit 3 4 ≡ bit_or 3 4)
    × (clear_bit 12 4 ≡ 8)
    × (clear_bit 8 4 ≡ 8)
    × (flip_bit 12 0 ≡ 12)
    × (has_bit 12 0 ≡ false)
unfolding has_bit flip_bit set_bit clear_bit
bits_runs = (refl, refl, refl, refl, refl, refl, refl)
