-- ===== src/Tidbag/Tests.antt =====
-- The task bag's theorems at concrete bags.
use lotto.Base.{ℕ, ◌≡◌, ◌↔◌, refl, true, false, some, List, [], ◌∷◌, ◌++◌, ok, arith}
use lotto.Tidbag.{Tidbag, has, size, equals, marshal, unmarshal}
use lotto.Tidbag.Laws.{IsValid}
use lotto.Tidbag.Image.{two_of, tidbag_equals_iff, equals_asymmetric, tidbag_unmarshal-marshal}

abbrev full : Tidbag
full = record { allocated = true; tasks = 5 ∷ 7 ∷ 5 ∷ 9 ∷ []; capacity = 4 }

full-IsValid : IsValid full
full-IsValid = record { fits = omega arith; backed = λ e. cc }

tidbag_equals_iff_example :
    (equals full (two_of 5 9) ≡ true)
    ↔ ((size (two_of 5 9) ≡ size full) × ((x : ℕ) → has (two_of 5 9) x ≡ true → has full x ≡ true))
tidbag_equals_iff_example = tidbag_equals_iff full (two_of 5 9)

equals_asymmetric_example :
    (equals (two_of 1 2) (two_of 1 1) ≡ true) × (equals (two_of 1 1) (two_of 1 2) ≡ false)
equals_asymmetric_example = equals_asymmetric 1 2 (λ e. omega arith)

abbrev header : List ℕ
header = 1 ∷ 2 ∷ 3 ∷ 4 ∷ 5 ∷ 6 ∷ []

tidbag_unmarshal-marshal_example :
    unmarshal (two_of 1 2) (marshal full header 4096 ++ 8 ∷ [])
    ≡ ok (record {
      bag = record { allocated = true; tasks = full.tasks; capacity = 4 };
      freed = some 4096;
      rest = 8 ∷ [];
    })
tidbag_unmarshal-marshal_example =
    tidbag_unmarshal-marshal full (two_of 1 2) header 4096 (8 ∷ []) full-IsValid refl
      (λ e. omega arith)
