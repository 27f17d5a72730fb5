-- ===== src/AddressBdd/Tests.antt =====
-- Runs of the address diagrams, and the theorems at concrete diagrams (src/base/address_bdd.c).
use lotto.Base.{ℕ, ◌-◌, ◌≡◌, refl, inl, true, false, [], ◌∷◌, arith, ok, ◌>>=◌, Returns}
use lotto.Base.Bits.{has_bit, flip_bit, set_bit, clear_bit}
use lotto.Base.Words.{u64_mod}
use lotto.AddressBdd.{
  terminal, node, AddressBdd, is_value, split, merge, set_range, floor_address, ceil_address,
  end_address, set_value, address_bdd_set, address_bdd_unset, get_and, get_or, get_masked,
  masked_below, range_print, print_bdd, last_address, first, last,
}
use lotto.AddressBdd.Blocks.{contains}
use lotto.AddressBdd.Sets.{IsBdd, Assigned, bdd_contains, touches, set_value-Returns}
use lotto.AddressBdd.Check.{all_from, any_from, range_tests}
use lotto.AddressBdd.Canonical.{unset-set}
use lotto.AddressBdd.Iterator.{Iterator, iterator_next, address_bdd_size}
use lotto.AddressBdd.Iterator.Next.{IsIterator, Steps, position, iterator_next-Steps}
use lotto.AddressBdd.Iterator.Count.{tally, tally_le, address_bdd_size-tally}

-- Units of a quarter of the address space; all quarters but the third are in the set.
abbrev quarters : AddressBdd
quarters = record {
  root = node (terminal true) (node (terminal false) (terminal true));
  max_depth = 2;
  size_unit = 0x4000_0000_0000_0000;
}

quarters-IsBdd : IsBdd quarters
unfolding merge
quarters-IsBdd = record {
  shallow = omega arith;
  deep = omega arith;
  unit_size = refl;
  reduced = (refl, tt, (refl, tt, tt));
}

-- The first quarter alone
abbrev first_quarter : AddressBdd
first_quarter = record {
  root = node (node (terminal true) (terminal false)) (terminal false);
  max_depth = 2;
  size_unit = 0x4000_0000_0000_0000;
}

first_quarter-IsBdd : IsBdd first_quarter
unfolding merge
first_quarter-IsBdd = record {
  shallow = omega arith;
  deep = omega arith;
  unit_size = refl;
  reduced = (refl, (refl, tt, tt), tt);
}

third_quarter_unset :
    address_bdd_set quarters 0x8000_0000_0000_0001 4 ≡ ok (record quarters { root = terminal true })
unfolding address_bdd_set set_value floor_address ceil_address end_address set_range is_value split
    merge flip_bit has_bit
third_quarter_unset = refl

runs_printed :
    print_bdd quarters
    ≡ first 0 ∷ last 0x7fff_ffff_ffff_ffff ∷ first 0xc000_0000_0000_0000 ∷ last last_address ∷ []
unfolding print_bdd range_print is_value flip_bit has_bit
runs_printed = refl

set_value-Returns_example : Returns (set_value quarters 5 10 false) (Assigned quarters 5 10 false)
set_value-Returns_example = set_value-Returns quarters 5 10 false quarters-IsBdd

range_tests_example :
    (get_and quarters 0x7fff_ffff_ffff_fffe 4
      ≡ all_from (bdd_contains quarters) 0x7fff_ffff_ffff_fffe 4)
    × (get_or quarters 0x7fff_ffff_ffff_fffe 4
        ≡ any_from (bdd_contains quarters) 0x7fff_ffff_ffff_fffe 4)
range_tests_example =
    range_tests quarters 0x7fff_ffff_ffff_fffe 4 quarters-IsBdd (omega arith) (omega arith)

third_quarter_free :
    (x : ℕ)
    → touches 0x4000_0000_0000_0000 0x8000_0000_0000_0005 (end_address 0x8000_0000_0000_0005 10) x
      ≡ true
    → bdd_contains quarters x ≡ false
unfolding touches end_address bdd_contains contains
third_quarter_free x h = ground arith

unset-set_example :
    (do
      b ← address_bdd_set quarters 0x8000_0000_0000_0005 10
      address_bdd_unset b 0x8000_0000_0000_0005 10)
    ≡ ok quarters
unset-set_example = unset-set quarters 0x8000_0000_0000_0005 10 quarters-IsBdd third_quarter_free

-- Address 5 is the next.
abbrev at_five : Iterator
at_five = record {
  node = terminal true;
  parents = quarters.root ∷ [];
  current_bit = 0x8000_0000_0000_0000;
  offset = 5;
  base = 0;
}

at_five-IsIterator : IsIterator quarters at_five
at_five-IsIterator = record {
  level = 1;
  is_true = refl;
  reached = (0, (refl, refl, refl), inl (refl, refl));
  bit = refl;
  within = omega arith;
  word = omega arith;
  started = omega arith;
}

iterator_next-Steps_example : Returns (iterator_next at_five) (Steps quarters 5)
unfolding position
iterator_next-Steps_example = iterator_next-Steps quarters at_five quarters-IsBdd at_five-IsIterator

last_quarter_free : bdd_contains first_quarter last_address ≡ false
unfolding bdd_contains contains
last_quarter_free = refl

address_bdd_size-tally_example :
    address_bdd_size u64_mod first_quarter
    ≡ ok (tally (bdd_contains first_quarter) 1 (last_address - 1))
address_bdd_size-tally_example =
    address_bdd_size-tally u64_mod first_quarter first_quarter-IsBdd last_quarter_free
      (omega (arith, tally_le (bdd_contains first_quarter) 1 (last_address - 1)))

-- No address of the upper half is found from address 0, with nothing masked.
masked_miss :
    get_masked
      (record {
        root = node (terminal false) (terminal true);
        max_depth = 1;
        size_unit = 0x8000_0000_0000_0000;
      })
      0
      0
    ≡ 0
unfolding get_masked masked_below has_bit set_bit clear_bit
masked_miss = refl

masked_hit :
    get_masked
      (record {
        root = node (terminal false) (terminal true);
        max_depth = 1;
        size_unit = 0x8000_0000_0000_0000;
      })
      1
      0
    ≡ 0x8000_0000_0000_0001
unfolding get_masked masked_below has_bit set_bit clear_bit
masked_hit = refl
