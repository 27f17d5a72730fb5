-- ===== src/Map/Tests.antt =====
-- The list map's theorems at concrete maps.
use mathlib.Core.List.{reverse}
use lotto.Base.{ℕ, ◌≡◌, refl, none, [], ◌∷◌, ok, arith}
use lotto.Map.{Map, find, marshal, unmarshal, lookup}
use lotto.Map.Laws.{IsValid}
use lotto.Map.Image.{map_unmarshal-marshal}

abbrev two : Map ℕ
two = record { items = (7, 70) ∷ (4, 40) ∷ []; nitems = 2 }

two-IsValid : IsValid two
two-IsValid = record { counted = refl; distinct = λ x. ground arith }

absent : find two 5 ≡ none
unfolding lookup
absent = refl

map_unmarshal-marshal_example :
    unmarshal two 0 (marshal two) ≡ ok (record { items = reverse two.items; nitems = 2 })
map_unmarshal-marshal_example = map_unmarshal-marshal two two 0 two-IsValid
