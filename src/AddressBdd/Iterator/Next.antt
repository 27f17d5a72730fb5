-- ===== src/AddressBdd/Iterator/Next.antt =====
-- What the iterator returns (src/base/address_bdd.c).
use Prim.Native.Nat.{◌%◌}
use lotto.Base.{
  ℕ, suc, ◌+◌, ◌-◌, ◌≤◌, ◌<◌, ◌≡◌, refl, sym, ◌∙◌, ◌⊎◌, inl, inr, Bool, true, false, not, length,
  ◌==◌, arith, if◌then◌else◌, Bool-cases, ok, Returns, Returns-bind,
}
use lotto.Base.Words.{u64_mod, add64}
use lotto.Base.Bits.{has_bit}
use lotto.AddressBdd.{terminal, AddressBdd, is_value, last_address}
use lotto.AddressBdd.Blocks.{width, width_pos, contains}
use lotto.AddressBdd.Sets.{IsBdd, bdd_contains, root-width, unit_pos}
use lotto.AddressBdd.Check.{all_from, all_from-true}
use lotto.AddressBdd.Iterator.{Iterator, find_next_true_node, return_address, iterator_next}
use lotto.AddressBdd.Iterator.Paths.{Reaches, Reaches-level, Reaches-inside, Reaches-contains}
use lotto.AddressBdd.Iterator.Advance.{NoneIn, Advanced, find_next_true_node-Advanced}

-- The iterator stands in a block of the set, or at its end; no address before `position` is left.
pub record IsIterator (b : AddressBdd) (it : Iterator) : Type 0 where
  pub level : ℕ
  pub is_true : it.node ≡ terminal true
  pub reached : Reaches b.size_unit b.max_depth b.root it.parents (terminal true) level it.base
  pub bit : it.current_bit ≡ width b.size_unit level % u64_mod
  pub within : it.offset ≤ width b.size_unit level
  pub word : it.offset ≤ last_address
  pub started : 0 < it.base + it.offset

unfoldable pub position : Iterator → ℕ
position it = it.base + it.offset

-- None of the `n` addresses from `from` on is in the set.
unfoldable pub skips : AddressBdd → ℕ → ℕ → Bool
skips b from n = all_from (λ x. not (bdd_contains b x)) from n

-- A call returns the least address of the set from `from` on, or FALSE where there is none below
-- the last address.
abbrev pub Steps : AddressBdd → ℕ → ℕ × Iterator → Type 0
Steps b from (address, it) =
    ((address ≡ 0) × (skips b from (last_address - from) ≡ true))
    ⊎ (IsIterator b it
        × (0 < address)
        × (from ≤ address)
        × (bdd_contains b address ≡ true)
        × (skips b from (address - from) ≡ true)
        × (position it ≡ suc address))

skips_of :
    (b : AddressBdd) (from to n : ℕ)
    → IsBdd b
    → to ≤ u64_mod
    → from + n ≤ to
    → NoneIn (contains b.size_unit b.root b.max_depth 0) from to
    → skips b from n ≡ true
unfolding skips bdd_contains
skips_of b from to n h le end none_in =
    all_from-true (λ x. not (bdd_contains b x)) from n (λ x lo hi. ground (arith, none_in x lo))

return_address-Steps :
    (b : AddressBdd) (it : Iterator) (from level : ℕ)
    → IsBdd b
    → it.node ≡ terminal true
    → Reaches b.size_unit b.max_depth b.root it.parents (terminal true) level it.base
    → it.current_bit ≡ width b.size_unit level % u64_mod
    → it.offset < width b.size_unit level
    → 0 < it.base + it.offset
    → it.offset < last_address
    → from ≤ it.base + it.offset
    → NoneIn (contains b.size_unit b.root b.max_depth 0) from (it.base + it.offset)
    → Returns (return_address it) (Steps b from)
unfolding return_address is_value bdd_contains contains position
return_address-Steps b it from level h t r bit small started not_last le skipped =
    let inside =
      Reaches-inside b.size_unit b.max_depth b.root (unit_pos b h) it.parents (terminal true) level
        it.base r in
    let address : add64 it.base it.offset ≡ it.base + it.offset =
      omega (arith, inside, root-width b h) in
    let further : add64 it.offset 1 ≡ it.offset + 1 = omega arith in
    let whole =
      Reaches-contains b.size_unit b.max_depth b.root (unit_pos b h) it.parents (terminal true)
        level it.base (it.base + it.offset) r (omega arith) (omega arith) in
    rw (t, address, further)
      (inr (
        record {
          level = level;
          is_true = refl;
          reached = r;
          bit = bit;
          within = omega arith;
          word = omega arith;
          started = omega arith;
        },
        started,
        le,
        ground (arith, whole, inside, root-width b h),
        skips_of b from (it.base + it.offset) (it.base + it.offset - from) h
            (omega (arith, inside, root-width b h)) (omega arith) skipped,
        omega arith,
      ))

-- The search from the end of a block, and what is returned then.
advance-Steps :
    (b : AddressBdd) (h : IsBdd b) (from : ℕ) (result : Bool × Iterator)
    → 0 < from
    → from ≤ u64_mod
    → Advanced b.size_unit b.max_depth b.root (unit_pos b h) (root-width b h) from result
    → Returns (if result.0 then return_address result.1 else ok (0, result.1)) (Steps b from)
advance-Steps b h from (false, moved) pos le none_left =
    inl
      (refl, skips_of b from u64_mod (last_address - from) h (omega arith) (omega arith) none_left)
advance-Steps b h from (true, moved) pos le (t, low, skipped) =
    let at_start : moved.offset ≡ 0 = t.fresh ∙ (ground arith) in
    let here : moved.base + moved.offset ≡ moved.base = omega (arith, at_start) in
    return_address-Steps b moved from t.level h t.is_true t.reached t.bit
      (omega (arith, at_start, width_pos b.size_unit t.level (unit_pos b h))) (omega (arith, low))
      (omega arith) (omega (arith, low)) (rw here skipped)

at_last :
    (base offset w : ℕ)
    → base + w ≤ u64_mod
    → offset ≤ w
    → (add64 base offset == last_address) ≡ true
    → last_address - (base + offset) ≡ 0
at_last base offset w total within ended = ground arith

block_open :
    (base offset w : ℕ)
    → base + w ≤ u64_mod
    → offset ≤ w
    → offset ≤ last_address
    → (add64 base offset == last_address) ≡ false
    → (offset == w % u64_mod) ≡ false
    → offset < w
block_open base offset w total within word more still_open = ground arith

not_last :
    (base offset w : ℕ)
    → base + w ≤ u64_mod
    → offset ≤ w
    → offset ≤ last_address
    → (add64 base offset == last_address) ≡ false
    → (offset == w % u64_mod) ≡ false
    → offset < last_address
not_last base offset w total within word more still_open = ground arith

block_full :
    (base offset w : ℕ)
    → base + w ≤ u64_mod
    → offset ≤ w
    → 0 < base + offset
    → (offset == w % u64_mod) ≡ true
    → offset ≡ w
block_full base offset w total within started full = ground arith

climb_fuel : (n : ℕ) (c : Bool) → n ≤ 64 → n + n + (if c then 0 else 1) ≤ 129
climb_fuel n true h = omega arith
climb_fuel n false h = omega arith

-- From a place in a well-formed diagram, the iterator returns without an abort, within 129 steps of
-- climbing. It returns the least address of the set from that place on, and stands behind it; or it
-- returns FALSE, and no address from there to the last but one is in the set.
pub iterator_next-Steps :
    (b : AddressBdd) (it : Iterator)
    → IsBdd b
    → IsIterator b it
    → Returns (iterator_next it) (Steps b (position it))
unfolding iterator_next position skips all_from
iterator_next-Steps b it h i =
    let inside =
      Reaches-inside b.size_unit b.max_depth b.root (unit_pos b h) it.parents (terminal true)
        i.level it.base i.reached in
    let w = width b.size_unit i.level in
    let total : it.base + w ≤ u64_mod = omega (arith, inside, root-width b h) in
    elim (Bool-cases (add64 it.base it.offset == last_address)) [
      | inl ended ↦
          let at_end : last_address - position it ≡ 0 =
            at_last it.base it.offset w total i.within ended in
          rw (iterator_next, ended) (inl (refl, rw at_end refl))
      | inr more ↦ elim (Bool-cases (it.offset == it.current_bit)) [
        | inl full ↦
            let offset_w : it.offset ≡ w =
              block_full it.base it.offset w total i.within i.started (rw (sym i.bit) full) in
            let end : position it ≡ it.base + w = omega (arith, offset_w) in
            rw (iterator_next, more, full, end)
              (Returns-bind
                (Advanced b.size_unit b.max_depth b.root (unit_pos b h) (root-width b h)
                  (it.base + w))
                (Steps b (it.base + w)) (find_next_true_node 129 it)
                (λ result. if result.0 then return_address result.1 else ok (0, result.1))
                (find_next_true_node-Advanced b.size_unit b.max_depth b.root (unit_pos b h)
                  (root-width b h) 129 it.parents it.node i.level it.base it.current_bit it.offset
                  (rw i.is_true i.reached) h.reduced i.bit (omega arith)
                  (climb_fuel (length it.parents) (has_bit it.base it.current_bit) (
                    omega (
                      arith,
                      h.shallow,
                      Reaches-level b.size_unit b.max_depth b.root (unit_pos b h) it.parents
                          (terminal true) i.level it.base i.reached,
                    ))))
                (λ result advanced.
                  advance-Steps b h (it.base + w) result
                    (omega (arith, width_pos b.size_unit i.level (unit_pos b h))) total advanced))
        | inr open_block ↦
            let still_open : (it.offset == w % u64_mod) ≡ false = rw (sym i.bit) open_block in
            rw (iterator_next, more, open_block)
              (return_address-Steps b it (position it) i.level h i.is_true i.reached i.bit
                (block_open it.base it.offset w total i.within i.word more still_open) i.started
                (not_last it.base it.offset w total i.within i.word more still_open) (omega arith)
                (λ x lo hi. absurd (omega arith)))
      ]
    ]
