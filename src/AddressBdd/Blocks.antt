-- ===== src/AddressBdd/Blocks.antt =====
-- The set of addresses that a diagram stands for (src/base/address_bdd.c): a node at level `d`
-- covers a block of `width unit d` addresses from `start` on.
use lotto.Base.{
  ℕ, zero, suc, ◌+◌, ◌-◌, ◌*◌, ◌/◌, ◌<◌, ◌≡◌, refl, Bool, true, false, ltb, if◌then◌else◌, arith,
}
use lotto.Base.Bits.{flip_bit, flip_bit-start, flip_bit-end}
use lotto.AddressBdd.{Node, terminal, node, split, merge, is_value}

abbrev pub width : ℕ → ℕ → ℕ
width unit zero = unit
width unit (suc d) = width unit d + width unit d

-- `current_bit` at a node of level `d`
abbrev pub bit_at : ℕ → ℕ → ℕ
bit_at unit zero = unit / 2
bit_at unit (suc d) = width unit d

-- The address is in the set.
unfoldable pub contains : ℕ → Node → ℕ → ℕ → ℕ → Bool
contains unit (terminal v) d start x = v
contains unit (node z o) zero start x = false
contains unit (node z o) (suc d) start x =
    if ltb x (start + width unit d)
    then contains unit z d start x
    else contains unit o d (start + width unit d) x

-- No more than `d` levels of nodes, and no node whose children are the same terminal.
abbrev pub IsReduced : Node → ℕ → Type 0
IsReduced (terminal v) d = Unit
IsReduced (node z o) zero = ⊥
IsReduced (node z o) (suc d) = (merge z o ≡ node z o) × IsReduced z d × IsReduced o d

-- What a recursive call gets: the block of a node of level `d`, and its bit.
pub record IsBlock (unit d start end bit : ℕ) : Type 0 where
  pub place : ℕ
  pub aligned : start ≡ place * width unit d
  pub full : end + 1 ≡ start + width unit d
  pub level : bit ≡ bit_at unit d

pub width_pos : (unit d : ℕ) → 0 < unit → 0 < width unit d
width_pos unit zero h = h
width_pos unit (suc d) h = omega (arith, width_pos unit d h)

bit_at_half : (unit d : ℕ) → bit_at unit (suc d) / 2 ≡ bit_at unit d
bit_at_half unit zero = refl
bit_at_half unit (suc d) = omega arith

module _ (unit : ℕ) (positive : 0 < unit) (d start end bit : ℕ)
    (b : IsBlock unit (suc d) start end bit) where
  flip_start : flip_bit start bit ≡ start + width unit d
  flip_start =
      rw (b.aligned, b.level) (flip_bit-start b.place (width unit d) (width_pos unit d positive))

  flip_end : flip_bit end bit + 1 ≡ start + width unit d
  flip_end =
      let w = width unit d in
      let pos = width_pos unit d positive in
      let e : end ≡ b.place * (w + w) + (w + w) - 1 = omega (arith, b.full, b.aligned) in
      let flipped = flip_bit-end b.place w pos in rw (e, b.level, flipped, b.aligned) (omega arith)

  pub zero-IsBlock : IsBlock unit d start (flip_bit end bit) (bit / 2)
  zero-IsBlock = record {
    place = b.place * 2;
    aligned = grind (arith, b.aligned);
    full = flip_end;
    level = rw b.level (bit_at_half unit d);
  }

  pub one-IsBlock : IsBlock unit d (flip_bit start bit) end (bit / 2)
  one-IsBlock = record {
    place = b.place * 2 + 1;
    aligned = grind (arith, b.aligned, flip_start);
    full = omega (arith, b.full, flip_start);
    level = rw b.level (bit_at_half unit d);
  }

  pub flip_bit-one : flip_bit start bit ≡ start + width unit d
  flip_bit-one = flip_start

  pub flip_bit-zero : flip_bit end bit + 1 ≡ start + width unit d
  flip_bit-zero = flip_end

pub split-IsReduced :
    (t : Node) (d : ℕ) → IsReduced t (suc d) → IsReduced (split t).0 d × IsReduced (split t).1 d
unfolding split
split-IsReduced (terminal v) d h = (tt, tt)
split-IsReduced (node z o) d h = (h.1, h.2)

pub merge-IsReduced :
    (z o : Node) (d : ℕ) → IsReduced z d → IsReduced o d → IsReduced (merge z o) (suc d)
unfolding merge
merge-IsReduced (terminal true) (terminal true) d h k = tt
merge-IsReduced (terminal false) (terminal false) d h k = tt
merge-IsReduced (terminal true) (terminal false) d h k = (refl, tt, tt)
merge-IsReduced (terminal false) (terminal true) d h k = (refl, tt, tt)
merge-IsReduced (terminal true) (node a b) d h k = (refl, tt, k)
merge-IsReduced (terminal false) (node a b) d h k = (refl, tt, k)
merge-IsReduced (node a b) o d h k = (refl, h, k)

pub contains-split :
    (unit : ℕ) (t : Node) (d start x : ℕ)
    → contains unit t (suc d) start x ≡ (
        if ltb x (start + width unit d)
        then contains unit (split t).0 d start x
        else contains unit (split t).1 d (start + width unit d) x)
unfolding split contains
contains-split unit (terminal v) d start x = ground arith
contains-split unit (node z o) d start x = refl

pub contains-merge :
    (unit : ℕ) (z o : Node) (d start x : ℕ)
    → contains unit (merge z o) (suc d) start x ≡ (
        if ltb x (start + width unit d)
        then contains unit z d start x
        else contains unit o d (start + width unit d) x)
unfolding merge contains
contains-merge unit (terminal true) (terminal true) d start x = ground arith
contains-merge unit (terminal false) (terminal false) d start x = ground arith
contains-merge unit (terminal true) (terminal false) d start x = refl
contains-merge unit (terminal false) (terminal true) d start x = refl
contains-merge unit (terminal true) (node a b) d start x = refl
contains-merge unit (terminal false) (node a b) d start x = refl
contains-merge unit (node a b) o d start x = refl

pub contains-is_value :
    (unit : ℕ) (t : Node) (v : Bool) (d start x : ℕ)
    → is_value t v ≡ true
    → contains unit t d start x ≡ v
unfolding is_value contains
contains-is_value unit (terminal true) true d start x h = refl
contains-is_value unit (terminal true) false d start x h = cc h
contains-is_value unit (terminal false) true d start x h = cc h
contains-is_value unit (terminal false) false d start x h = refl
contains-is_value unit (node z o) v d start x h = cc h
