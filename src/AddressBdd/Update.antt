-- ===== src/AddressBdd/Update.antt =====
-- Setting and clearing a range (src/base/address_bdd.c).
use lotto.Base.{
  ℕ, zero, suc, ◌+◌, ◌-◌, ◌*◌, ◌/◌, ◌≤◌, ◌<◌, ◌≡◌, inl, inr, Bool, true, false, ◌||◌, ◌&&◌, ltb,
  leb, if◌then◌else◌, arith, tests, Bool-cases, ok, ◌>>=◌, subst, Returns, Returns-bind,
}
use lotto.Base.Bits.{flip_bit}
use lotto.AddressBdd.{Node, terminal, split, merge, is_value, set_range}
use lotto.AddressBdd.Blocks.{
  width, contains, IsReduced, IsBlock, zero-IsBlock, one-IsBlock, flip_bit-one, split-IsReduced,
  merge-IsReduced, contains-split, contains-merge, contains-is_value,
}

-- The set after a range of it has been given the value `v`.
abbrev pub updated : Bool → ℕ → ℕ → Bool → ℕ → Bool
updated v from to old x = if leb from x && leb x to then v else old

-- `t'` is the diagram with the range set.
abbrev pub IsUpdate : ℕ → ℕ → ℕ → Bool → ℕ → ℕ → Node → Node → Type 0
IsUpdate unit from to v d start t t' =
    IsReduced t' d
    × ((x : ℕ)
        → start ≤ x
        → x < start + width unit d
        → contains unit t' d start x ≡ updated v from to (contains unit t d start x) x)

pub product_mono : (p q u : ℕ) → p ≤ q → p * u ≤ q * u
product_mono p q u h = grind arith

lower_multiple : (p q u : ℕ) → 0 < u → p * u < q * u + u → p * u ≤ q * u
lower_multiple p q u h k = elim (Bool-cases (leb p q)) [
  | inl le ↦ product_mono p q u (omega (tests, le))
  | inr gt ↦ absurd (omega (arith, k, product_mono (suc q) p u (ground arith)))
]

IsUpdate-merge :
    (unit from to : ℕ) (v : Bool) (d start : ℕ) (t z o : Node)
    → IsUpdate unit from to v d start (split t).0 z
    → IsUpdate unit from to v d (start + width unit d) (split t).1 o
    → IsUpdate unit from to v (suc d) start t (merge z o)
IsUpdate-merge unit from to v d start t z o (rz, hz) (ro, ho) = (
  merge-IsReduced z o d rz ro,
  λ x lo hi.
      ground
        (arith, contains-merge unit z o d start x, contains-split unit t d start x, hz x, ho x),
)

set_range_stops :
    (unit from to : ℕ) (v : Bool) (d : ℕ) (t : Node) (start end bit : ℕ)
    → IsBlock unit d start end bit
    → IsReduced t d
    → (ltb end from || ltb to start || is_value t v) ≡ true
    → IsUpdate unit from to v d start t t
set_range_stops unit from to v d t start end bit b h stops =
    (h, λ x lo hi. ground (arith, b.full, contains-is_value unit t v d start x))

set_range_covers :
    (unit from to : ℕ) (v : Bool) (d : ℕ) (t : Node) (start end bit : ℕ)
    → IsBlock unit d start end bit
    → (leb from start && leb end to) ≡ true
    → IsUpdate unit from to v d start t (terminal v)
unfolding contains
set_range_covers unit from to v d t start end bit b covers = (tt, λ x lo hi. ground (arith, b.full))

-- The three ways of a call; `k` is for the one that goes on to the children.
set_range_ways :
    (unit from to : ℕ) (v : Bool) (fuel d : ℕ) (t : Node) (start end bit : ℕ)
    → IsBlock unit d start end bit
    → IsReduced t d
    → ((leb from start && leb end to) ≡ false
        → (ltb end from || ltb to start || is_value t v) ≡ false
        → Returns
            (do
              z ← set_range fuel (split t).0 from to start (flip_bit end bit) (bit / 2) v
              o ← set_range fuel (split t).1 from to (flip_bit start bit) end (bit / 2) v
              ok (merge z o))
            (IsUpdate unit from to v d start t))
    → Returns (set_range (suc fuel) t from to start end bit v) (IsUpdate unit from to v d start t)
unfolding set_range
set_range_ways unit from to v fuel d t start end bit b h k =
    elim (Bool-cases (ltb end from || ltb to start || is_value t v)) [
      | inl stops ↦
          rw (set_range, stops) (set_range_stops unit from to v d t start end bit b h stops)
      | inr goes ↦ elim (Bool-cases (leb from start && leb end to)) [
        | inl covers ↦
            rw (set_range, goes, covers)
              (set_range_covers unit from to v d t start end bit b covers)
        | inr part ↦ rw (set_range, goes, part) (k part goes)
      ]
    ]

-- One unit is inside the range or outside.
unit_inside :
    (unit p r : ℕ) (v : Bool) (t : Node) (start end bit : ℕ)
    → 0 < unit
    → IsBlock unit 0 start end bit
    → (leb (p * unit) start && leb end (r * unit + unit - 1)) ≡ false
    → (ltb end (p * unit) || ltb (r * unit + unit - 1) start || is_value t v) ≡ false
    → ⊥
unit_inside unit p r v t start end bit positive b part goes = ground (
  arith,
  b.full,
  b.aligned,
  lower_multiple p b.place unit positive,
  lower_multiple b.place r unit positive,
)

-- Setting a range of whole units below a node of level `d` returns on fuel for more than `d` levels, and
-- the diagram is the reduced one of the updated set.
pub set_range-IsUpdate :
    (unit p r : ℕ) (v : Bool)
    → 0 < unit
    → (fuel d : ℕ) (t : Node) (start end bit : ℕ) → IsBlock unit d start end bit
    → IsReduced t d
    → d < fuel
    → Returns
        (set_range fuel t (p * unit) (r * unit + unit - 1) start end bit v)
        (IsUpdate unit (p * unit) (r * unit + unit - 1) v d start t)
set_range-IsUpdate unit p r v positive zero d t start end bit b h l = absurd (omega arith)
set_range-IsUpdate unit p r v positive (suc fuel) zero t start end bit b h l =
    set_range_ways unit (p * unit) (r * unit + unit - 1) v fuel zero t start end bit b h
      (λ part goes. absurd (unit_inside unit p r v t start end bit positive b part goes))
set_range-IsUpdate unit p r v positive (suc fuel) (suc d) t start end bit b h l =
    let from = p * unit in
    let to = r * unit + unit - 1 in
    let (hz, ho) = split-IsReduced t d h in
    let one_start = flip_bit-one unit positive d start end bit b in
    set_range_ways unit from to v fuel (suc d) t start end bit b h (λ part goes.
      Returns-bind (IsUpdate unit from to v d start (split t).0)
        (IsUpdate unit from to v (suc d) start t)
        (set_range fuel (split t).0 from to start (flip_bit end bit) (bit / 2) v)
        (λ z. (do
          o ← set_range fuel (split t).1 from to (flip_bit start bit) end (bit / 2) v
          ok (merge z o)))
        (set_range-IsUpdate unit p r v positive fuel d (split t).0 start (flip_bit end bit)
          (bit / 2) (zero-IsBlock unit positive d start end bit b) hz (omega arith))
        (λ z below_zero.
          Returns-bind (IsUpdate unit from to v d (flip_bit start bit) (split t).1)
            (IsUpdate unit from to v (suc d) start t)
            (set_range fuel (split t).1 from to (flip_bit start bit) end (bit / 2) v)
            (λ o. ok (merge z o))
            (set_range-IsUpdate unit p r v positive fuel d (split t).1 (flip_bit start bit) end
              (bit / 2) (one-IsBlock unit positive d start end bit b) ho (omega arith))
            (λ o below_one. IsUpdate-merge unit from to v d start t z o below_zero (
              subst (λ at_one. IsUpdate unit from to v d at_one (split t).1 o) one_start
                below_one))))
