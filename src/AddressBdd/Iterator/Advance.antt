-- ===== src/AddressBdd/Iterator/Advance.antt =====
-- The searches for the next TRUE node (src/base/address_bdd.c).
use Prim.Native.Nat.{◌%◌}
use lotto.Base.{
  ℕ, zero, suc, ◌+◌, ◌*◌, ◌≤◌, ◌<◌, ◌≡◌, refl, sym, ap, ◌∙◌, subst, inl, inr, Bool, true, false,
  List, [], ◌∷◌, length, ltb, ◌==◌, arith, tests, if◌then◌else◌, Option, none, some, Bool-cases,
  Outcome, ok, Returns, Returns_mono,
}
use lotto.Base.Words.{u64_mod}
use lotto.Base.Bits.{has_bit, flip_bit, set_bit, set_bit-start, half_bits}
use lotto.AddressBdd.{Node, terminal, node}
use lotto.AddressBdd.Blocks.{width, width_pos, contains, IsReduced}
use lotto.AddressBdd.Iterator.{
  Iterator, lower_bit, find_true_sub_node, find_next_true_node, one_child_of,
}
use lotto.AddressBdd.Iterator.Paths.{
  Reaches, Reaches-aligned, Reaches-inside, Reaches-contains, Reaches-IsReduced,
}

abbrev pub NoneIn : (ℕ → Bool) → ℕ → ℕ → Type 0
NoneIn f from to = (x : ℕ) → from ≤ x → x < to → f x ≡ false

pub NoneIn-join : (f : ℕ → Bool) (a b c : ℕ) → NoneIn f a b → NoneIn f b c → NoneIn f a c
NoneIn-join f a b c h k x lo hi = elim (Bool-cases (ltb x b)) [
  | inl lt ↦ h x lo (omega (tests, lt))
  | inr ge ↦ k x (ground arith) hi
]

-- The iterator stands at the start of a block that is wholly in the set; address 0 is skipped.
pub record AtTrue (unit depth : ℕ) (root : Node) (it : Iterator) : Type 0 where
  pub level : ℕ
  pub is_true : it.node ≡ terminal true
  pub reached : Reaches unit depth root it.parents (terminal true) level it.base
  pub bit : it.current_bit ≡ width unit level % u64_mod
  pub fresh : it.offset ≡ (if it.base == 0 then 1 else 0)

-- What a search below a node at `start` comes to.
abbrev pub Search : ℕ → ℕ → Node → ℕ → ℕ → Option Iterator → Type 0
Search unit depth root d start none =
    NoneIn (contains unit root depth 0) start (start + width unit d)
Search unit depth root d start (some it) =
    AtTrue unit depth root it
    × (start ≤ it.base)
    × NoneIn (contains unit root depth 0) start it.base

mod_small : (w : ℕ) → w < u64_mod → w % u64_mod ≡ w
mod_small w h = omega arith

lower_bit-width : (w : ℕ) → 0 < w → w + w ≤ u64_mod → lower_bit ((w + w) % u64_mod) ≡ w % u64_mod
unfolding lower_bit
lower_bit-width w pos fits = ground arith

Search-first :
    (unit depth : ℕ) (root : Node) (d start : ℕ) (m n : Option Iterator)
    → Search unit depth root d start m
    → Search unit depth root d (start + width unit d) n
    → Search unit depth root (suc d) start (elim m [ some found ↦ some found | none ↦ n ])
Search-first unit depth root d start (some it) n (t, le, skipped) below_one = (t, le, skipped)
Search-first unit depth root d start none none below_zero below_one = λ x lo hi.
    NoneIn-join (contains unit root depth 0) start (start + width unit d)
      (start + width unit (suc d)) below_zero (λ y l u. below_one y l (omega arith)) x lo hi
Search-first unit depth root d start none (some it) below_zero (t, le, skipped) = (
  t,
  omega arith,
  NoneIn-join (contains unit root depth 0) start (start + width unit d) it.base below_zero skipped,
)

module _ (unit depth : ℕ) (root : Node) (positive : 0 < unit)
    (total : width unit depth ≡ u64_mod) where
  pub find_true_sub_node-Search :
      (t : Node) (parents : List Node) (d start bit : ℕ)
      → Reaches unit depth root parents t d start
      → IsReduced t d
      → bit ≡ width unit d % u64_mod
      → Search unit depth root d start (find_true_sub_node t parents bit start)
  unfolding find_true_sub_node contains
  find_true_sub_node-Search (terminal true) parents d start bit r h e = (
    record { level = d; is_true = refl; reached = r; bit = e; fresh = refl },
    omega arith,
    λ x lo hi. absurd (omega arith),
  )
  find_true_sub_node-Search (terminal false) parents d start bit r h e = λ x lo hi.
      Reaches-contains unit depth root positive parents (terminal false) d start x r lo hi
  find_true_sub_node-Search (node z o) parents zero start bit r h e = absurd h
  find_true_sub_node-Search (node z o) parents (suc d) start bit r h e =
      let (q, aligned) =
        Reaches-aligned unit depth root positive parents (node z o) (suc d) start r in
      let w = width unit d in
      let inside : start + (w + w) ≤ u64_mod = omega (
        arith,
        total,
        Reaches-inside unit depth root positive parents (node z o) (suc d) start r,
      ) in
      let pos = width_pos unit d positive in
      let low : lower_bit bit ≡ w % u64_mod =
        ap lower_bit e ∙ lower_bit-width w pos (omega arith) in
      let raised : set_bit start (lower_bit bit) ≡ start + w =
        rw (low, aligned) (rw (mod_small w (omega arith)) (set_bit-start q w pos)) in
      Search-first unit depth root d start
        (find_true_sub_node z (node z o ∷ parents) (lower_bit bit) start)
        (find_true_sub_node o (node z o ∷ parents) (lower_bit bit) (set_bit start (lower_bit bit)))
        (find_true_sub_node-Search z (node z o ∷ parents) d start (lower_bit bit)
          (start, r, inl (refl, refl)) h.1 low)
        (subst
          (λ s.
            Search unit depth root d (start + w)
              (find_true_sub_node o (node z o ∷ parents) (lower_bit bit) s))
          (sym raised)
          (find_true_sub_node-Search o (node z o ∷ parents) d (start + w) (lower_bit bit)
            (start, r, inr (refl, refl)) h.2 low))

  -- What a search for the next node comes to, from the address `from` on.
  abbrev pub Advanced : ℕ → Bool × Iterator → Type 0
  Advanced from (false, it) = NoneIn (contains unit root depth 0) from u64_mod
  Advanced from (true, it) =
      AtTrue unit depth root it
      × (from ≤ it.base)
      × NoneIn (contains unit root depth 0) from it.base

  Advanced-earlier :
      (from to : ℕ)
      → from ≤ to
      → NoneIn (contains unit root depth 0) from to
      → (result : Bool × Iterator) → Advanced to result
      → Advanced from result
  Advanced-earlier from to le skipped (false, it) none_left =
      NoneIn-join (contains unit root depth 0) from to u64_mod skipped none_left
  Advanced-earlier from to le skipped (true, it) (t, low, between) =
      (t, omega arith, NoneIn-join (contains unit root depth 0) from to it.base skipped between)

  -- The node itself is found, or else the search goes on behind it.
  Advanced-or :
      (from to : ℕ) (m : Option Iterator) (n : Outcome (Bool × Iterator)) (d : ℕ)
      → to ≡ from + width unit d
      → Search unit depth root d from m
      → Returns n (Advanced to)
      → Returns (elim m [ some found ↦ ok (true, found) | none ↦ n ]) (Advanced from)
  Advanced-or from to (some it) n d e found later = found
  Advanced-or from to none n d e skipped later =
      Returns_mono (Advanced to) (Advanced from) n later
        (λ result. Advanced-earlier from to (omega arith) (rw e skipped) result)

  pub find_next_true_node-Advanced :
      (fuel : ℕ) (parents : List Node) (t : Node) (d base bit offset : ℕ)
      → Reaches unit depth root parents t d base
      → IsReduced root depth
      → bit ≡ width unit d % u64_mod
      → 0 < fuel
      → length parents + length parents + (if has_bit base bit then 0 else 1) ≤ fuel
      → Returns
          (find_next_true_node fuel (record {
            node = t;
            parents = parents;
            current_bit = bit;
            offset = offset;
            base = base;
          }))
          (Advanced (base + width unit d))
  unfolding find_next_true_node one_child_of
  find_next_true_node-Advanced zero parents t d base bit offset r h e pos l = absurd (omega arith)
  find_next_true_node-Advanced (suc fuel) [] t d base bit offset (at_root, at_depth, at_zero) h e
        some_fuel l =
      rw at_depth (λ x lo hi. absurd (omega (arith, total, at_zero)))
  find_next_true_node-Advanced (suc fuel) (terminal v ∷ above) t d base bit offset r h e some_fuel
        l =
      absurd r
  find_next_true_node-Advanced (suc fuel) (node z o ∷ above) t d base bit offset
        (up, r, inl (is_z, s)) h e some_fuel l =
      let (q, aligned) = Reaches-aligned unit depth root positive above (node z o) (suc d) up r in
      let w = width unit d in
      let inside = Reaches-inside unit depth root positive above (node z o) (suc d) up r in
      let pos = width_pos unit d positive in
      let bit_w : bit ≡ w = omega (arith, e, total, inside, pos) in
      let (low, raise, high, lower) = half_bits q w up pos aligned in
      let side : has_bit base bit ≡ false = rw (s, bit_w) low in
      let raised : flip_bit base bit ≡ up + w = rw (s, bit_w) raise in
      let at_one : Reaches unit depth root (node z o ∷ above) o d (up + w) =
        (up, r, inr (refl, refl)) in
      let below =
        find_true_sub_node-Search o (node z o ∷ above) d (up + w) bit at_one
          (Reaches-IsReduced unit depth root positive (node z o ∷ above) o d (up + w) at_one h) e in
      let high_side : has_bit (up + w) bit ≡ true = rw bit_w high in
      rw (find_next_true_node, side, raised, s)
        (Advanced-or (up + w) (up + w + w) (find_true_sub_node o (node z o ∷ above) bit (up + w))
          (find_next_true_node fuel (record {
            node = o;
            parents = node z o ∷ above;
            current_bit = bit;
            offset = offset;
            base = flip_bit base bit;
          }))
          d refl below
          (subst
            (λ b.
              Returns
                (find_next_true_node fuel (record {
                  node = o;
                  parents = node z o ∷ above;
                  current_bit = bit;
                  offset = offset;
                  base = b;
                }))
                (Advanced (up + w + w)))
            (sym raised)
            (find_next_true_node-Advanced fuel (node z o ∷ above) o d (up + w) bit offset at_one h e
              (omega (arith, l)) (rw high_side (ground (arith, side))))))
  find_next_true_node-Advanced (suc fuel) (node z o ∷ above) t d base bit offset
        (up, r, inr (is_o, s)) h e some_fuel l =
      let (q, aligned) = Reaches-aligned unit depth root positive above (node z o) (suc d) up r in
      let w = width unit d in
      let inside = Reaches-inside unit depth root positive above (node z o) (suc d) up r in
      let pos = width_pos unit d positive in
      let bit_w : bit ≡ w = omega (arith, e, total, inside, pos) in
      let (low, raise, high, lower) = half_bits q w up pos aligned in
      let side : has_bit base bit ≡ true = rw (s, bit_w) high in
      let lowered : flip_bit base bit ≡ up = rw (s, bit_w) lower in
      let end : base + w ≡ up + (w + w) = omega (arith, s) in
      rw (find_next_true_node, side, lowered, end)
        (find_next_true_node-Advanced fuel above (node z o) (suc d) up (bit * 2 % u64_mod) offset r
          h (ap (λ b. b * 2 % u64_mod) bit_w ∙ ap (λ n. n % u64_mod) (omega arith)) (ground arith)
          (ground arith))
