-- ===== src/Map.antt =====
-- The linked list of keyed items of src/base/map.c, and its use for task ids in src/base/tidmap.c.
--
-- `items` are the nodes from `map->tail` on along `next`, each with its key and payload. A pointer
-- to an item is read as the payload that it leads to; what a caller writes through it is `modify`.
use lotto.Base.{
  ℕ, zero, suc, ◌+◌, ◌-◌, Bool, true, false, not, Option, none, some, List, [], ◌∷◌, ◌==◌,
  if◌then◌else◌, length, Outcome, ok, fault, out_of_bounds, ◌>>=◌, ◌>>◌, assert,
}
use lotto.Base.Words.{no_task}
pub mod Laws
pub mod Image
pub mod Items
mod Tests

pub record Map {ℓ} (V : Type ℓ) : Type ℓ where
  pub items : List (ℕ × V)
  pub nitems : ℕ

module _ {ℓ} {V : Type ℓ} where
  -- The payload of the first item with the key.
  unfoldable pub lookup : ℕ → List (ℕ × V) → Option V
  lookup key [] = none
  lookup key ((k, v) ∷ l) = let rest = lookup key l in if k == key then some v else rest

  unfoldable pub lookup_first : (ℕ → V → Bool) → List (ℕ × V) → Option (ℕ × V)
  lookup_first predicate [] = none
  lookup_first predicate ((k, v) ∷ l) =
      let rest = lookup_first predicate l in if predicate k v then some (k, v) else rest

  -- The first item with the key leaves the chain of `next` pointers.
  unfoldable pub unlink : ℕ → List (ℕ × V) → List (ℕ × V)
  unlink key [] = []
  unlink key ((k, v) ∷ l) = let rest = unlink key l in if k == key then l else (k, v) ∷ rest

  unfoldable pub write : ℕ → (V → V) → List (ℕ × V) → List (ℕ × V)
  write key f [] = []
  write key f ((k, v) ∷ l) =
      let rest = write key f l in if k == key then (k, f v) ∷ l else (k, v) ∷ rest

  unfoldable pub init : Map V
  init = record { items = []; nitems = 0 }

  abbrev pub find : Map V → ℕ → Option V
  find m key = lookup key m.items

  unfoldable pub find_first : Map V → (ℕ → V → Bool) → Option (ℕ × V)
  unfolding lookup_first
  find_first m predicate = lookup_first predicate m.items

  abbrev is_absent : Option V → Bool
  is_absent none = true
  is_absent (some _) = false

  -- `zeroed` is the payload of a `calloc`ed item.
  unfoldable pub register : Map V → V → ℕ → Outcome (Map V)
  unfolding lookup
  register m zeroed key = do
    assert (is_absent (find m key))
    ok (record { items = (key, zeroed) ∷ m.items; nitems = m.nitems + 1 })

  -- An item was found where `nitems` is lowered, so the count is not 0.
  unfoldable pub deregister : Map V → ℕ → Map V
  unfolding lookup unlink
  deregister m key =
      if is_absent (find m key)
      then m
      else record { items = unlink key m.items; nitems = m.nitems - 1 }

  abbrev pub size : Map V → ℕ
  size m = m.nitems

  -- The items that `iterate` and `next` walk through.
  abbrev pub iterate : Map V → List (ℕ × V)
  iterate m = m.items

  unfoldable pub clear : Map V → Map V
  clear m = record { items = []; nitems = 0 }

  -- A caller's write through the pointer that `find` or `register` returned.
  unfoldable pub modify : Map V → ℕ → (V → V) → Map V
  unfolding write
  modify m key f = record m { items = write key f m.items }

  -- `init` runs on the item whether it was found or registered.
  unfoldable pub find_or_register : Map V → V → ℕ → Option (V → V) → Outcome (Map V)
  unfolding register modify lookup
  find_or_register m zeroed key f = do
    m' ← if is_absent (find m key) then register m zeroed key else ok m
    ok (elim f [ none ↦ m' | some g ↦ modify m' key g ])

  -- `tidmap_find` and its kin abort on NO_TASK.
  unfoldable pub tid_find : Map V → ℕ → Outcome (Option V)
  tid_find m id = do assert (not (id == no_task)); ok (find m id)

  unfoldable pub tid_register : Map V → V → ℕ → Outcome (Map V)
  unfolding register
  tid_register m zeroed id = do assert (not (id == no_task)); register m zeroed id

  unfoldable pub tid_deregister : Map V → ℕ → Outcome (Map V)
  unfolding deregister
  tid_deregister m id = do assert (not (id == no_task)); ok (deregister m id)

  -- What `marshal` writes: the count and the items in the order of iteration.
  unfoldable pub marshal : Map V → ℕ × List (ℕ × V)
  marshal m = (m.nitems, m.items)

  -- The loop of `unmarshal`: each image is registered under its key and then read into the item.
  unfoldable pub read_items : V → ℕ → List (ℕ × V) → Map V → Outcome (Map V)
  unfolding register modify
  read_items zeroed zero images m = ok m
  read_items zeroed (suc n) [] m = fault out_of_bounds
  read_items zeroed (suc n) ((k, v) ∷ images) m = do
    m' ← register m zeroed k
    read_items zeroed n images (modify m' k (λ _. v))

  unfoldable pub unmarshal : Map V → V → ℕ × List (ℕ × V) → Outcome (Map V)
  unfolding read_items clear
  unmarshal m zeroed image = read_items zeroed image.0 image.1 (clear m)
