-- ===== src/Map/Laws.antt =====
-- What a lookup finds after each operation of src/base/map.c, and the invariant of the list.
use lotto.Base.{
  ℕ, ◌+◌, ◌-◌, ◌≤◌, ◌≡◌, ◌≢◌, refl, true, none, some, List, [], ◌∷◌, ◌==◌, if◌then◌else◌, length,
  count, IsDistinct, arith, ok, fault, assert_failed, inl, inr, Option-cases, Bool-cases,
}
use mathlib.Core.Option
use lotto.Map.{Map, lookup, unlink, write, find, register, deregister, modify}

abbrev pub keys {ℓ} : {V : Type ℓ} → List (ℕ × V) → List ℕ
keys [] = []
keys ((k, v) ∷ l) = k ∷ keys l

pub record IsValid {ℓ} {V : Type ℓ} (m : Map V) : Type ℓ where
  pub counted : m.nitems ≡ length m.items
  pub distinct : IsDistinct (keys m.items)

module _ {ℓ} {V : Type ℓ} where
  pub lookup-none : (key : ℕ) (l : List (ℕ × V)) → count key (keys l) ≡ 0 → lookup key l ≡ none
  unfolding lookup
  lookup-none key [] h = refl
  lookup-none key ((k, v) ∷ l) h = ground (arith, lookup-none key l)

  pub count_of_lookup-none :
      (key : ℕ) (l : List (ℕ × V)) → lookup key l ≡ none → count key (keys l) ≡ 0
  unfolding lookup
  count_of_lookup-none key [] h = refl
  count_of_lookup-none key ((k, v) ∷ l) h = ground (arith, count_of_lookup-none key l)

  pub count-unlink :
      (key x : ℕ) (l : List (ℕ × V)) (v : V)
      → lookup key l ≡ some v
      → count x (keys (unlink key l)) + (if key == x then 1 else 0) ≡ count x (keys l)
  unfolding lookup unlink
  count-unlink key x [] w h = cc
  count-unlink key x ((k, v) ∷ l) w h = ground (arith, count-unlink key x l w)

  pub length-unlink :
      (key : ℕ) (l : List (ℕ × V)) (v : V)
      → lookup key l ≡ some v
      → length (unlink key l) + 1 ≡ length l
  unfolding lookup unlink
  length-unlink key [] w h = cc
  length-unlink key ((k, v) ∷ l) w h = ground (arith, length-unlink key l w)

  pub lookup-unlink_ne :
      (key x : ℕ) (l : List (ℕ × V)) → key ≢ x → lookup x (unlink key l) ≡ lookup x l
  unfolding lookup unlink
  lookup-unlink_ne key x [] h = refl
  lookup-unlink_ne key x ((k, v) ∷ l) h = ground (arith, lookup-unlink_ne key x l)

  pub lookup-write :
      (key x : ℕ) (f : V → V) (l : List (ℕ × V))
      → lookup x (write key f l) ≡ (if key == x then Option.map f (lookup x l) else lookup x l)
  unfolding lookup write
  lookup-write key x f [] = ground arith
  lookup-write key x f ((k, v) ∷ l) = ground (arith, lookup-write key x f l)

  pub keys-write : (key : ℕ) (f : V → V) (l : List (ℕ × V)) → keys (write key f l) ≡ keys l
  unfolding write
  keys-write key f [] = refl
  keys-write key f ((k, v) ∷ l) = ground (arith, keys-write key f l)

  pub length-write : (key : ℕ) (f : V → V) (l : List (ℕ × V)) → length (write key f l) ≡ length l
  unfolding write
  length-write key f [] = refl
  length-write key f ((k, v) ∷ l) = ground (arith, length-write key f l)

  -- `register` of a key that a well-formed map does not have returns a well-formed map with that
  -- one key more.
  pub register-Returns :
      (m : Map V) (zeroed : V) (key : ℕ)
      → IsValid m
      → find m key ≡ none
      → (r : Map V) × (register m zeroed key ≡ ok r)
        × IsValid r
        × ((x : ℕ) → find r x ≡ (if key == x then some zeroed else find m x))
  unfolding register lookup
  register-Returns m zeroed key v e = (
    record { items = (key, zeroed) ∷ m.items; nitems = m.nitems + 1 },
    ground arith,
    record {
      counted = ground (arith, v.counted);
      distinct = λ x. ground (arith, v.distinct x, count_of_lookup-none key m.items e);
    },
    λ x. refl,
  )

  pub register-used :
      (m : Map V) (zeroed : V) (key : ℕ) {v : V}
      → find m key ≡ some v
      → register m zeroed key ≡ fault assert_failed
  unfolding register
  register-used m zeroed key e = ground arith

  lookup-unlink :
      (key x : ℕ) (l : List (ℕ × V)) (v : V)
      → lookup key l ≡ some v
      → count x (keys l) ≤ 1
      → lookup x (unlink key l) ≡ (if key == x then none else lookup x l)
  lookup-unlink key x l v e d = elim (Bool-cases (key == x)) [
    | inl same ↦ rw same (lookup-none x (unlink key l) (one_less same (count-unlink key x l v e)))
    | inr other ↦ rw other (lookup-unlink_ne key x l (λ p. ground arith))
  ]
    where
      one_less :
          (key == x) ≡ true
          → count x (keys (unlink key l)) + (if key == x then 1 else 0) ≡ count x (keys l)
          → count x (keys (unlink key l)) ≡ 0
      one_less same c = ground (arith, d)

  deregister-absent : (m : Map V) (key : ℕ) → find m key ≡ none → deregister m key ≡ m
  unfolding deregister
  deregister-absent m key e = ground arith

  deregister-present :
      (m : Map V) (key : ℕ) (w : V)
      → find m key ≡ some w
      → deregister m key ≡ record { items = unlink key m.items; nitems = m.nitems - 1 }
  unfolding deregister
  deregister-present m key w e = ground arith

  -- `deregister` keeps a well-formed map well formed and drops just the key.
  pub deregister_lem :
      (m : Map V) (key : ℕ)
      → IsValid m
      → IsValid (deregister m key)
        × ((x : ℕ) → find (deregister m key) x ≡ (if key == x then none else find m x))
  deregister_lem m key v = elim (Option-cases (find m key)) [
    | inl e ↦ rw (deregister-absent m key e) (v, λ x. ground (arith, e))
    | inr (w, e) ↦ rw (deregister-present m key w e) (
      record {
        counted = ground (arith, v.counted, length-unlink key m.items w e);
        distinct = λ x. ground (arith, v.distinct x, count-unlink key x m.items w e);
      },
      λ x. lookup-unlink key x m.items w e (v.distinct x),
    )
  ]

  -- A write through a found pointer keeps the map well formed and changes just that payload.
  pub modify_lem :
      (m : Map V) (key : ℕ) (f : V → V)
      → IsValid m
      → IsValid (modify m key f)
        × ((x : ℕ)
            → find (modify m key f) x ≡ (if key == x then Option.map f (find m x) else find m x))
  unfolding modify
  modify_lem m key f v = (
    record {
      counted = ground (arith, v.counted, length-write key f m.items);
      distinct = rw (keys-write key f m.items) v.distinct;
    },
    λ x. lookup-write key x f m.items,
  )
