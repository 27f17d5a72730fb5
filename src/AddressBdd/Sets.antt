-- ===== src/AddressBdd/Sets.antt =====
-- The diagrams of `address_bdd_t` (src/base/address_bdd.c): what they contain, and what setting,
-- clearing and testing a range does to the set.
use Prim.Native.Nat.{◌/◌}
use lotto.Base.{
  ℕ, zero, suc, ◌+◌, ◌-◌, ◌*◌, ◌^◌, ◌≤◌, ◌<◌, ◌≡◌, refl, ap, ◌∙◌, inl, inr, Bool, false, not, ◌&&◌,
  ltb, leb, ◌==◌, if◌then◌else◌, arith, tests, Bool-cases, ok, Returns, Returns-bind,
}
use lotto.Base.Words.{u64_mod}
use lotto.AddressBdd.{
  Node, AddressBdd, set_range, set_value, floor_address, ceil_address, end_address, last_address,
  leading_one,
}
use lotto.AddressBdd.Blocks.{width, bit_at, contains, IsReduced, IsBlock}
use lotto.AddressBdd.Update.{IsUpdate, set_range-IsUpdate, product_mono}

pub record IsBdd (b : AddressBdd) : Type 0 where
  pub shallow : b.max_depth ≤ 64
  pub deep : 0 < b.max_depth
  pub unit_size : b.size_unit ≡ 2 ^ (64 - b.max_depth)
  pub reduced : IsReduced b.root b.max_depth

unfoldable pub bdd_contains : AddressBdd → ℕ → Bool
bdd_contains b x = ltb x u64_mod && contains b.size_unit b.root b.max_depth 0 x

-- The address lies in a unit that the range from `addr` to `end` touches.
unfoldable pub touches : ℕ → ℕ → ℕ → ℕ → Bool
touches unit addr end x = leb (addr / unit) (x / unit) && leb (x / unit) (end / unit)

width_pow : (k d : ℕ) → width (2 ^ k) d ≡ 2 ^ (d + k)
width_pow k zero = ap (λ n. 2 ^ n) (omega arith)
width_pow k (suc d) =
    let e : suc d + k ≡ suc (d + k) = omega arith in rw e (omega (arith, width_pow k d))

bit_at_double : (unit d : ℕ) → 0 < d → bit_at unit d + bit_at unit d ≡ width unit d
bit_at_double unit zero h = absurd (omega arith)
bit_at_double unit (suc d) h = refl

width_multiple : (unit d : ℕ) → width unit d ≡ width 1 d * unit
width_multiple unit zero = omega arith
width_multiple unit (suc d) = omega (arith, width_multiple unit d)

pub root-width : (b : AddressBdd) → IsBdd b → width b.size_unit b.max_depth ≡ u64_mod
root-width b h =
    let total : b.max_depth + (64 - b.max_depth) ≡ 64 = omega (arith, h.shallow) in
    rw h.unit_size (width_pow (64 - b.max_depth) b.max_depth ∙ ap (λ n. 2 ^ n) total)

power_pos : (k : ℕ) → 0 < 2 ^ k
power_pos zero = omega arith
power_pos (suc k) = omega (arith, power_pos k)

pub root-IsBlock :
    (b : AddressBdd) → IsBdd b → IsBlock b.size_unit b.max_depth 0 last_address leading_one
root-IsBlock b h = record {
  place = 0;
  aligned = omega arith;
  full = omega (arith, root-width b h);
  level = omega (arith, bit_at_double b.size_unit b.max_depth h.deep, root-width b h);
}

pub unit_pos : (b : AddressBdd) → IsBdd b → 0 < b.size_unit
unit_pos b h = rw h.unit_size (power_pos (64 - b.max_depth))

next_multiple : (q n u : ℕ) → q * u < n * u → q * u + u ≤ n * u
next_multiple q n u h = elim (Bool-cases (ltb q n)) [
  | inl lt ↦ omega (arith, product_mono (suc q) n u (omega (tests, lt)))
  | inr ge ↦ absurd (omega (arith, h, product_mono n q u (ground arith)))
]

quotient_floor : (x u : ℕ) → 0 < u → x / u * u ≤ x
quotient_floor x u h = grind arith

quotient_le : (p x u : ℕ) → 0 < u → p * u ≤ x → p ≤ x / u
quotient_le p x u pos h = grind arith

quotient_ge : (p x u : ℕ) → 0 < u → p ≤ x / u → p * u ≤ x
quotient_ge p x u pos h = grind arith

-- The unit of an address ends inside the address space.
unit_fits :
    (b : AddressBdd) (end : ℕ)
    → IsBdd b
    → end < u64_mod
    → end / b.size_unit * b.size_unit + b.size_unit ≤ u64_mod
unit_fits b end h small =
    let u = b.size_unit in
    let n = width 1 b.max_depth in
    let total = root-width b h in
    let factors = width_multiple u b.max_depth in
    let fits : end / u * u < n * u =
      omega (arith, total, factors, quotient_floor end u (unit_pos b h)) in
    omega (arith, total, factors, next_multiple (end / u) n u fits)

-- The last address of the unit of `end`
ceil_address-eq :
    (b : AddressBdd) (end : ℕ)
    → IsBdd b
    → end < u64_mod
    → ceil_address end b.size_unit ≡ end / b.size_unit * b.size_unit + b.size_unit - 1
unfolding ceil_address floor_address
ceil_address-eq b end h small = omega (arith, unit_pos b h, unit_fits b end h small)

touches-eq :
    (u p r x : ℕ)
    → 0 < u
    → (leb (p * u) x && leb x (r * u + u - 1)) ≡ (leb p (x / u) && leb (x / u) r)
touches-eq u p r x pos = ground (
  arith,
  quotient_le p x u pos,
  quotient_ge p x u pos,
  quotient_le (suc r) x u pos,
  quotient_ge (suc r) x u pos,
)

-- The diagram after a range of the set has been given the value `v`.
abbrev pub Assigned : AddressBdd → ℕ → ℕ → Bool → AddressBdd → Type 0
Assigned b addr size v b' =
    IsBdd b'
    × (b'.max_depth ≡ b.max_depth)
    × (b'.size_unit ≡ b.size_unit)
    × ((x : ℕ)
        → bdd_contains b' x ≡ (
            if not (size == 0) && touches b.size_unit addr (end_address addr size) x
            then v
            else bdd_contains b x))

-- A touched unit lies below the end of the address space.
touched_small :
    (b : AddressBdd) (end x : ℕ)
    → IsBdd b
    → end < u64_mod
    → x / b.size_unit ≤ end / b.size_unit
    → x < u64_mod
touched_small b end x h small le = elim (Bool-cases (ltb x u64_mod)) [
  | inl lt ↦ omega (tests, lt)
  | inr ge ↦ absurd (
      omega (
        arith,
        le,
        quotient_le (suc (end / b.size_unit)) x b.size_unit (unit_pos b h)
            (ground (arith, unit_fits b end h small)),
      ))
]

IsUpdate-Assigned :
    (b : AddressBdd) (addr end size : ℕ) (v : Bool) (t : Node)
    → IsBdd b
    → (size == 0) ≡ false
    → end ≡ end_address addr size
    → IsUpdate b.size_unit
        (addr / b.size_unit * b.size_unit)
        (end / b.size_unit * b.size_unit + b.size_unit - 1)
        v
        b.max_depth
        0
        b.root
        t
    → Assigned b addr size v (record b { root = t })
unfolding bdd_contains touches end_address
IsUpdate-Assigned b addr end size v t h some_of e (reduced, f) = (
  record { shallow = h.shallow; deep = h.deep; unit_size = h.unit_size; reduced = reduced },
  refl,
  refl,
  λ x.
      let small = touched_small b end x h (rw e omega arith) in
      ground (
        arith,
        touches-eq b.size_unit (addr / b.size_unit) (end / b.size_unit) x (unit_pos b h),
        f x,
        root-width b h,
        small,
      ),
)

-- Setting or clearing a range on a well-formed diagram returns, with 65 levels of recursion. The
-- diagram is well formed again: no deeper than its depth, and reduced. The set changes in just the
-- units of addresses that a range of positive size touches, where it gets the value.
pub set_value-Returns :
    (b : AddressBdd) (addr size : ℕ) (v : Bool)
    → IsBdd b
    → Returns (set_value b addr size v) (Assigned b addr size v)
unfolding set_value floor_address end_address
set_value-Returns b addr size v h = elim (Bool-cases (size == 0)) [
  | inl none_of ↦ rw (set_value, none_of) (h, refl, refl, λ x. rw none_of refl)
  | inr some_of ↦
      let end = end_address addr size in
      let ceil = ceil_address-eq b end h (omega arith) in
      rw (set_value, some_of, ceil)
        (Returns-bind
          (IsUpdate b.size_unit (addr / b.size_unit * b.size_unit)
            (end / b.size_unit * b.size_unit + b.size_unit - 1) v b.max_depth 0 b.root)
          (Assigned b addr size v)
          (set_range 65 b.root (addr / b.size_unit * b.size_unit)
            (end / b.size_unit * b.size_unit + b.size_unit - 1) 0 last_address leading_one v)
          (λ t. ok (record b { root = t }))
          (set_range-IsUpdate b.size_unit (addr / b.size_unit) (end / b.size_unit) v (unit_pos b h)
            65 b.max_depth b.root 0 last_address leading_one (root-IsBlock b h) h.reduced
            (omega (arith, h.shallow)))
          (λ t u. IsUpdate-Assigned b addr end size v t h some_of refl u))
]
