-- ===== src/TraceFlat/Queue.antt =====
-- What a flat trace of src/base/trace_flat.c holds: the list of its cells.
use lotto.Base.{
  ℕ, zero, suc, ◌+◌, ◌<◌, ◌≡◌, ◌≢◌, refl, subst, Option, ◌⊎◌, none, some, List, [], ◌∷◌, ◌++◌, ◌==◌,
  if◌then◌else◌, count, arith, Bool-cases, inl, inr, IsDistinct,
}
use lotto.TraceFlat.{Record, Node, Trace, create}
use lotto.TraceFlat.Linked.{Cell, addresses, items, first, final, Linked}

-- The trace is the queue of these cells, and has no other nodes.
pub record Represents (t : Trace) (l : List Cell) : Type 0 where
  pub heads : t.head ≡ first l 0
  pub tails : t.tail ≡ final 0 l
  pub links : Linked t.nodes t.records 0 l 0
  pub nodes_distinct : IsDistinct (addresses l)
  pub items_distinct : IsDistinct (items l)
  pub owned : (x : ℕ) → count x (addresses l) ≡ 0 → t.nodes x ≡ none

pub create-Represents : (records : ℕ → Option Record) → Represents (create records) []
unfolding create
create-Represents records = record {
  heads = refl;
  tails = refl;
  links = tt;
  nodes_distinct = λ x. omega arith;
  items_distinct = λ x. omega arith;
  owned = λ x e. refl;
}

-- The cell may be appended: its node is free, and its record allocated and in no other cell.
pub record IsNew (t : Trace) (l : List Cell) (c : Cell) : Type 0 where
  pub allocated : c.at ≢ 0
  pub unused : t.nodes c.at ≡ none
  pub given : c.item ≢ 0
  pub known : t.records c.item ≡ some c.value
  pub foreign : count c.item (items l) ≡ 0

pub addresses-snoc :
    (x : ℕ) (l : List Cell) (c : Cell)
    → count x (addresses (l ++ c ∷ [])) ≡ count x (addresses l) + (if c.at == x then 1 else 0)
addresses-snoc x [] c = ground arith
addresses-snoc x (b ∷ l) c = ground (arith, addresses-snoc x l c)

pub items-snoc :
    (x : ℕ) (l : List Cell) (c : Cell)
    → count x (items (l ++ c ∷ [])) ≡ count x (items l) + (if c.item == x then 1 else 0)
items-snoc x [] c = ground arith
items-snoc x (b ∷ l) c = ground (arith, items-snoc x l c)

pub final-snoc : (before : ℕ) (l : List Cell) (c : Cell) → final before (l ++ c ∷ []) ≡ c.at
final-snoc before [] c = refl
final-snoc before (b ∷ l) c = final-snoc b.at l c

-- A cell of the list has an allocated node.
pub Linked-here :
    (nodes : ℕ → Option Node) (records : ℕ → Option Record) (before : ℕ) (l : List Cell) (after : ℕ)
    (x : ℕ)
    → Linked nodes records before l after
    → 0 < count x (addresses l)
    → (x ≢ 0) × (nodes x ≢ none)
Linked-here nodes records before [] after x h e = absurd (omega arith)
Linked-here nodes records before (c ∷ l) after x (a, b, n, r, h) e = elim (Bool-cases (c.at == x)) [
  | inl same ↦ let q : x ≡ c.at = ground arith in rw q (a, ground (arith, n))
  | inr different ↦ Linked-here nodes records c.at l after x h (ground arith)
]

pub zero_or_pos : (n : ℕ) → (n ≡ 0) ⊎ (0 < n)
zero_or_pos zero = inl refl
zero_or_pos (suc n) = inr (omega arith)

pub elsewhere :
    (p q : ℕ) (l : List Cell) → count p (addresses l) ≡ 0 → 0 < count q (addresses l) → q ≢ p
elsewhere p q l absent there e =
    let k : 0 < count p (addresses l) = subst (λ y. 0 < count y (addresses l)) e there in
    omega arith

pub unused-absent :
    (t : Trace) (l : List Cell) (x : ℕ)
    → Represents t l
    → t.nodes x ≡ none
    → count x (addresses l) ≡ 0
unused-absent t l x v e = elim (zero_or_pos (count x (addresses l))) [
  | inl absent ↦ absent
  | inr there ↦ absurd ((Linked-here t.nodes t.records 0 l 0 x v.links there).1 e)
]
