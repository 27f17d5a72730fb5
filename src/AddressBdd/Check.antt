-- ===== src/AddressBdd/Check.antt =====
-- Testing a range (src/base/address_bdd.c).
use Prim.Native.Nat.{◌/◌}
use lotto.Base.{
  ℕ, zero, suc, ◌+◌, ◌-◌, ◌≤◌, ◌<◌, ◌≡◌, refl, inl, inr, Bool, true, false, not, ◌||◌, ◌&&◌, ltb,
  arith, Bool-cases, if◌then◌else◌, Bool_ext, tests, ◌==◌, subst, sym, ap, ◌∙◌,
}
use lotto.Base.Bits.{flip_bit}
use lotto.Base.Words.{u64_mod}
use lotto.AddressBdd.{
  Node, terminal, node, AddressBdd, is_value, check_range, get_and, get_or, end_address,
  last_address, leading_one,
}
use lotto.AddressBdd.Blocks.{
  width, contains, IsReduced, IsBlock, zero-IsBlock, one-IsBlock, flip_bit-one,
}
use lotto.AddressBdd.Sets.{IsBdd, bdd_contains, root-width, root-IsBlock, unit_pos}

-- All, or some, of the `n` addresses from `a` on pass the test.
unfoldable pub all_from : (ℕ → Bool) → ℕ → ℕ → Bool
all_from f a zero = true
all_from f a (suc n) = f a && all_from f (suc a) n

unfoldable pub any_from : (ℕ → Bool) → ℕ → ℕ → Bool
any_from f a zero = false
any_from f a (suc n) = f a || any_from f (suc a) n

pub all_from-true :
    (f : ℕ → Bool) (a n : ℕ) → ((x : ℕ) → a ≤ x → x < a + n → f x ≡ true) → all_from f a n ≡ true
unfolding all_from
all_from-true f a zero h = refl
all_from-true f a (suc n) h =
    ground (arith, h a, all_from-true f (suc a) n (λ x l u. h x (omega arith) (omega arith)))

pub all_from_at :
    (f : ℕ → Bool) (a n x : ℕ) → all_from f a n ≡ true → a ≤ x → x < a + n → f x ≡ true
unfolding all_from
all_from_at f a zero x h l u = absurd (omega arith)
all_from_at f a (suc n) x h l u = elim (Bool-cases (a == x)) [
  | inl same ↦ let e : a ≡ x = ground arith in subst (λ y. f y ≡ true) e (ground arith)
  | inr differ ↦ all_from_at f (suc a) n x (ground arith) (ground arith) (omega arith)
]

any_from-not_all : (f : ℕ → Bool) (a n : ℕ) → any_from f a n ≡ not (all_from (λ x. not (f x)) a n)
unfolding any_from all_from
any_from-not_all f a zero = refl
any_from-not_all f a (suc n) = ground (arith, any_from-not_all f (suc a) n)

-- The addresses of the block that are in the range have the value.
abbrev Agrees : ℕ → Node → ℕ → ℕ → ℕ → ℕ → Bool → Type 0
Agrees unit t d start from to v =
    (x : ℕ)
    → start ≤ x
    → x < start + width unit d
    → from ≤ x
    → x ≤ to
    → contains unit t d start x ≡ v

-- Some address of the block and the range has the other value.
abbrev Differs : ℕ → Node → ℕ → ℕ → ℕ → ℕ → Bool → Type 0
Differs unit t d start from to v =
    (x : ℕ) × (start ≤ x)
    × (x < start + width unit d)
    × (from ≤ x)
    × (x ≤ to)
    × (contains unit t d start x ≡ not v)

check_range-Agrees :
    (unit from to : ℕ) (v : Bool)
    → 0 < unit
    → (t : Node) (d start end bit : ℕ) → IsBlock unit d start end bit
    → IsReduced t d
    → check_range t from to start end bit v ≡ true
    → Agrees unit t d start from to v
unfolding check_range contains is_value
check_range-Agrees unit from to v pos (terminal true) d start end bit b h c x l u f g =
    ground (arith, b.full)
check_range-Agrees unit from to v pos (terminal false) d start end bit b h c x l u f g =
    ground (arith, b.full)
check_range-Agrees unit from to v pos (node z o) zero start end bit b h c x l u f g = absurd h
check_range-Agrees unit from to v pos (node z o) (suc d) start end bit b h c x l u f g =
    let one_start = flip_bit-one unit pos d start end bit b in
    let zeros : check_range z from to start (flip_bit end bit) (bit / 2) v ≡ true =
      ground (arith, b.full) in
    let ones : check_range o from to (flip_bit start bit) end (bit / 2) v ≡ true =
      ground (arith, b.full) in
    elim (Bool-cases (ltb x (start + width unit d))) [
      | inl lt ↦
          let below =
            check_range-Agrees unit from to v pos z d start (flip_bit end bit) (bit / 2)
              (zero-IsBlock unit pos d start end bit b) h.1 zeros x l (omega (tests, lt)) f g in
          rw lt below
      | inr ge ↦
          let below =
            subst (λ s. Agrees unit o d s from to v) one_start
              (check_range-Agrees unit from to v pos o d (flip_bit start bit) end (bit / 2)
                (one-IsBlock unit pos d start end bit b) h.2 ones) in
          rw ge (below x (ground arith) (omega arith) f g)
    ]

check_range-Differs :
    (unit from to : ℕ) (v : Bool)
    → 0 < unit
    → from ≤ to
    → (t : Node) (d start end bit : ℕ) → IsBlock unit d start end bit
    → IsReduced t d
    → check_range t from to start end bit v ≡ false
    → Differs unit t d start from to v
unfolding check_range contains is_value
check_range-Differs unit from to v pos some_of (terminal u) d start end bit b h c =
    elim (Bool-cases (ltb start from)) [
      | inl lt ↦
          (from, ground (arith, b.full), ground (arith, b.full), omega arith, some_of, ground arith)
      | inr ge ↦
          (start, omega arith, ground (arith, b.full), ground arith, ground arith, ground arith)
    ]
check_range-Differs unit from to v pos some_of (node z o) zero start end bit b h c = absurd h
check_range-Differs unit from to v pos some_of (node z o) (suc d) start end bit b h c =
    let one_start = flip_bit-one unit pos d start end bit b in
    elim (Bool-cases (check_range z from to start (flip_bit end bit) (bit / 2) v)) [
      | inl here ↦
          let other_half : check_range o from to (flip_bit start bit) end (bit / 2) v ≡ false =
            ground arith in
          let (x, l, u, f, g, e) =
            subst (λ s. Differs unit o d s from to v) one_start
              (check_range-Differs unit from to v pos some_of o d (flip_bit start bit) end (bit / 2)
                (one-IsBlock unit pos d start end bit b) h.2 other_half) in
          (x, omega arith, omega arith, f, g, ground arith)
      | inr away ↦
          let (x, l, u, f, g, e) =
            check_range-Differs unit from to v pos some_of z d start (flip_bit end bit) (bit / 2)
              (zero-IsBlock unit pos d start end bit b) h.1 away in
          (x, l, omega arith, f, g, ground arith)
    ]

check_range-eq :
    (b : AddressBdd) (addr size : ℕ) (v : Bool)
    → IsBdd b
    → 0 < size
    → addr + size ≤ u64_mod
    → check_range b.root addr (end_address addr size) 0 last_address leading_one v
      ≡ all_from (λ x. if v then bdd_contains b x else not (bdd_contains b x)) addr size
unfolding end_address bdd_contains
check_range-eq b addr size v h pos fits =
    let end_eq : end_address addr size ≡ addr + size - 1 = omega arith in
    let agrees =
      check_range-Agrees b.size_unit addr (end_address addr size) v (unit_pos b h) b.root
        b.max_depth 0 last_address leading_one (root-IsBlock b h) h.reduced in
    let differs =
      check_range-Differs b.size_unit addr (end_address addr size) v (unit_pos b h)
        (omega (arith, end_eq)) b.root b.max_depth 0 last_address leading_one (root-IsBlock b h)
        h.reduced in
    let test : ℕ → Bool = λ x. if v then bdd_contains b x else not (bdd_contains b x) in
    Bool_ext (check_range b.root addr (end_address addr size) 0 last_address leading_one v)
      (all_from test addr size)
      (λ c.
        all_from-true test addr size (λ x l u. ground (arith, agrees c x, root-width b h, end_eq)))
      (λ c.
        elim (Bool-cases
          (check_range b.root addr (end_address addr size) 0 last_address leading_one v)) [
            | inl passed ↦ passed
            | inr failed ↦
                let (x, l, u, f, g, e) = differs failed in
                let passes : test x ≡ true =
                  all_from_at test addr size x c f (omega (arith, end_eq, g)) in
                ground (arith, end_eq, root-width b h)
          ])

-- On a well-formed diagram and a range of positive size that does not wrap around, `get_and`
-- decides whether all addresses of the range are in the set, and `get_or` whether some are.
pub range_tests :
    (b : AddressBdd) (addr size : ℕ)
    → IsBdd b
    → 0 < size
    → addr + size ≤ u64_mod
    → (get_and b addr size ≡ all_from (bdd_contains b) addr size)
      × (get_or b addr size ≡ any_from (bdd_contains b) addr size)
unfolding get_and get_or
range_tests b addr size h pos fits = (
  check_range-eq b addr size true h pos fits,
  sym (
      any_from-not_all (bdd_contains b) addr size
      ∙ ap not (sym (check_range-eq b addr size false h pos fits))),
)
