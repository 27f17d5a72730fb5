-- ===== src/Map/Image.antt =====
-- The image of the list of src/base/map.c: what writing and reading it gives.
use mathlib.Core.List.{reverse, reverse_aux}
use lotto.Base.{ℕ, ◌+◌, ◌≤◌, ◌≡◌, ◌∙◌, ap, List, [], ◌∷◌, length, count, ==_refl, arith, ok}
use lotto.Map.{Map, write, register, modify, marshal, unmarshal, read_items, clear}
use lotto.Map.Laws.{keys, IsValid, lookup-none}

module _ {ℓ} {V : Type ℓ} where
  write_head : (k : ℕ) (v w : V) (l : List (ℕ × V)) → write k (λ _. v) ((k, w) ∷ l) ≡ (k, v) ∷ l
  unfolding write
  write_head k v w l = rw (==_refl k)

  register_fresh :
      (m : Map V) (zeroed : V) (k : ℕ)
      → count k (keys m.items) ≡ 0
      → register m zeroed k ≡ ok (record { items = (k, zeroed) ∷ m.items; nitems = m.nitems + 1 })
  unfolding register
  register_fresh m zeroed k h = rw (lookup-none k m.items h)

  modify_head :
      (k n : ℕ) (v w : V) (l : List (ℕ × V))
      → modify (record { items = (k, w) ∷ l; nitems = n }) k (λ _. v)
        ≡ record { items = (k, v) ∷ l; nitems = n }
  unfolding modify
  modify_head k n v w l = rw (write_head k v w l)

  read_items-eq :
      (zeroed : V) (l : List (ℕ × V)) (m : Map V)
      → ((x : ℕ) → count x (keys l) + count x (keys m.items) ≤ 1)
      → read_items zeroed (length l) l m
        ≡ ok (record { items = reverse_aux l m.items; nitems = m.nitems + length l })
  unfolding read_items
  read_items-eq zeroed [] m h = ground arith
  read_items-eq zeroed ((k, v) ∷ l) m h =
      rw
        (
          register_fresh m zeroed k (ground (arith, h k)),
          modify_head k (m.nitems + 1) v zeroed m.items,
        )
        (read_items-eq zeroed l _ (λ x. ground (arith, h x))
          ∙ ap (λ n. ok (record { items = reverse_aux l ((k, v) ∷ m.items); nitems = n }))
              (omega arith))

  -- Reading the image of a well-formed map into any map gives its items in reverse order.
  pub map_unmarshal-marshal :
      (m old : Map V) (zeroed : V)
      → IsValid m
      → unmarshal old zeroed (marshal m)
        ≡ ok (record { items = reverse m.items; nitems = m.nitems })
  unfolding unmarshal marshal
  map_unmarshal-marshal m old zeroed v = rw v.counted (
      read_items-eq zeroed m.items (clear old) (λ x. omega (arith, v.distinct x))
      ∙ ap (λ n. ok (record { items = reverse m.items; nitems = n })) (omega arith))
