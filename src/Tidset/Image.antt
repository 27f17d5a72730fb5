-- ===== src/Tidset/Image.antt =====
-- The image that `marshal` writes is read back by `unmarshal` of src/base/tidset.c.
use lotto.Base.{
  ℕ, ◌≡◌, true, false, List, ◌++◌, length, arith, ok, length-append, take-append_length,
  drop-append_length, if◌then◌else◌, ltb,
}
use lotto.Tidset.{Tidset, marshal, unmarshal, msize}
use lotto.Tidset.Valid.{IsValid}

-- Reading the image of a well-formed set into a set that has an array, or has none and capacity 0,
-- gives the ids in order and leaves what follows the image; the capacity is the larger of the two,
-- and there is an array if the image's capacity is larger or there was one.
pub unmarshal-marshal :
    (t u : Tidset) (ptr : ℕ) (rest : List ℕ)
    → IsValid u
    → (t.allocated ≡ false → t.capacity ≡ 0)
    → unmarshal t (marshal u ptr ++ rest)
      ≡ ok (
        record {
          allocated = if ltb t.capacity u.capacity then true else t.allocated;
          tasks = u.tasks;
          capacity = if ltb t.capacity u.capacity then u.capacity else t.capacity;
        },
        rest,
      )
unfolding marshal unmarshal
unmarshal-marshal t u ptr rest v backed = ground (
  arith,
  v.fits,
  backed,
  length-append {0} u.tasks rest,
  take-append_length u.tasks rest,
  drop-append_length u.tasks rest,
)

-- The image is as long as `msize` says.
pub length-marshal : (t : Tidset) (ptr : ℕ) → length (marshal t ptr) ≡ msize t
unfolding marshal msize
length-marshal t ptr = omega arith
