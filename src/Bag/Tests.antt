-- ===== src/Bag/Tests.antt =====
-- A bag of two items.
use lotto.Base.{◌≡◌, refl, [], ◌∷◌, ok, fault, freed_memory, ◌>>=◌, arith}
use lotto.Bag.{Bag, init, add, remove, clear}
use lotto.Bag.Remove.{Holds, remove-freed}

abbrev two : Bag
two = record {
  cells =
      (96, record { next = 64; payload = 0 ∷ [] })
      ∷ (64, record { next = 0; payload = 0 ∷ [] })
      ∷ [];
  tail = 96;
  nitems = 2;
}

built : (add init 64 (0 ∷ []) >>= λ b. add b 96 (0 ∷ [])) ≡ ok two
unfolding init add
built = refl

cleared : clear two ≡ ok (record { cells = []; tail = 0; nitems = 0 })
unfolding clear
cleared = refl

unknown_item : remove two 32 ≡ ok two
unfolding remove
unknown_item = refl

two-Holds : Holds two (96 ∷ 64 ∷ [])
unfolding lotto.Map.lookup
two-Holds = record {
  distinct = λ x. ground arith;
  linked = (
    refl,
    λ e. omega arith,
    (
      record { next = 64; payload = 0 ∷ [] },
      refl,
      (refl, λ e. omega arith, (record { next = 0; payload = 0 ∷ [] }, refl, refl)),
    ),
  );
  fits = omega arith;
}

remove-freed_example : remove two 64 ≡ fault freed_memory
remove-freed_example = remove-freed two (96 ∷ 64 ∷ []) 64 two-Holds refl (λ e. omega arith)
