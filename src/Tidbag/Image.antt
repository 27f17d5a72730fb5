-- ===== src/Tidbag/Image.antt =====
-- What src/base/tidbag.c compares, and what it frees when it reads an image.
use mathlib.Core.List.{append_assoc}
use lotto.Base.{
  ℕ, ◌≡◌, ◌≢◌, refl, ◌↔◌, true, false, some, List, [], ◌∷◌, ◌++◌, length, elem, drop, arith, ok,
  length-append, take-append_length, drop-append_length, nil_of_length,
}
use lotto.Tidbag.{
  Tidbag, size, has, equals, has_all, marshal, unmarshal, header_words, unmarshal_payload,
}
use lotto.Tidbag.Laws.{IsValid}

has_all_iff :
    (b : Tidbag) (xs : List ℕ)
    → (has_all b xs ≡ true) ↔ ((x : ℕ) → elem x xs ≡ true → has b x ≡ true)
unfolding has_all
has_all_iff b [] = (λ e x h. ground arith, λ h. refl)
has_all_iff b (a ∷ xs) =
    let ih = has_all_iff b xs in
    (
      λ e x h. ground (arith, ih.0 (ground arith) x),
      λ h. ground (arith, h a (ground arith), ih.1 (λ x m. h x (ground arith))),
    )

-- `equals` passes exactly if the sizes agree and each id of the second stands in the first.
pub tidbag_equals_iff :
    (a b : Tidbag)
    → (equals a b ≡ true) ↔ ((size b ≡ size a) × ((x : ℕ) → has b x ≡ true → has a x ≡ true))
unfolding equals
tidbag_equals_iff a b =
    let all = has_all_iff a b.tasks in
    (
      λ e. (ground arith, λ x h. ground (arith, all.0 (ground (arith, nil_of_length b.tasks)) x h)),
      λ h. ground (arith, all.1 h.1),
    )

abbrev pub two_of : ℕ → ℕ → Tidbag
two_of a b = record { allocated = true; tasks = a ∷ b ∷ []; capacity = 4 }

-- `equals` is not symmetric: it takes the bag of two different ids to equal that of the first of
-- them twice, and not the other way round.
pub equals_asymmetric :
    (a b : ℕ)
    → a ≢ b
    → (equals (two_of a b) (two_of a a) ≡ true) × (equals (two_of a a) (two_of a b) ≡ false)
unfolding equals has_all
equals_asymmetric a b n = ground arith

drop_header :
    (header xs : List ℕ) → length header ≡ header_words → drop header_words (header ++ xs) ≡ xs
drop_header header xs h = rw (← h) (drop-append_length header xs)

unmarshal_fields :
    (b : Tidbag) (ptr : ℕ) (rest : List ℕ)
    → IsValid b
    → ptr ≢ 0
    → unmarshal_payload (b.capacity ∷ size b ∷ ptr ∷ (b.tasks ++ rest))
      ≡ ok (record {
        bag = record { allocated = true; tasks = b.tasks; capacity = b.capacity };
        freed = some ptr;
        rest = rest;
      })
unfolding unmarshal_payload
unmarshal_fields b ptr rest v n = ground (
  arith,
  v.fits,
  length-append {0} b.tasks rest,
  take-append_length b.tasks rest,
  drop-append_length b.tasks rest,
)

-- Reading the image of a well-formed bag gives the ids in order and the capacity, and leaves what
-- follows the image. The address that is freed is the one that the image holds: that of the
-- marshaled bag's own array, if it was not NULL.
pub tidbag_unmarshal-marshal :
    (b old : Tidbag) (header : List ℕ) (ptr : ℕ) (rest : List ℕ)
    → IsValid b
    → length header ≡ header_words
    → ptr ≢ 0
    → unmarshal old (marshal b header ptr ++ rest)
      ≡ ok (record {
        bag = record { allocated = true; tasks = b.tasks; capacity = b.capacity };
        freed = some ptr;
        rest = rest;
      })
unfolding marshal unmarshal
tidbag_unmarshal-marshal b old header ptr rest v h n =
    let fields : List ℕ = b.capacity ∷ size b ∷ ptr ∷ b.tasks in
    rw (append_assoc header fields rest, drop_header header (fields ++ rest) h)
      (unmarshal_fields b ptr rest v n)
