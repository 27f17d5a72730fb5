-- ===== src/TraceFlat/Linked.antt =====
-- The nodes of a flat trace as a list of cells, linked in both directions on the heap.
use lotto.Base.{
  ℕ, ◌<◌, ◌≡◌, ◌≢◌, subst, Option, some, List, [], ◌∷◌, ◌++◌, ◌==◌, ◌∙◌, if◌then◌else◌, count,
  arith, ok, IsDistinct,
}
use lotto.TraceFlat.{Record, Node, update, load}

-- A node's address, the address of its record, and the record.
pub record Cell : Type 0 where
  pub at : ℕ
  pub item : ℕ
  pub value : Record

abbrev pub addresses : List Cell → List ℕ
addresses [] = []
addresses (c ∷ l) = c.at ∷ addresses l

abbrev pub items : List Cell → List ℕ
items [] = []
items (c ∷ l) = c.item ∷ items l

-- The first node's address, `after` where there is none, and the last one's.
abbrev pub first : List Cell → ℕ → ℕ
first [] after = after
first (c ∷ l) after = c.at

abbrev pub final : ℕ → List Cell → ℕ
final before [] = before
final before (c ∷ l) = final c.at l

abbrev pub Linked : (ℕ → Option Node) → (ℕ → Option Record) → ℕ → List Cell → ℕ → Type 0
Linked nodes records before [] after = Unit
Linked nodes records before (c ∷ l) after =
    (c.at ≢ 0)
    × (c.item ≢ 0)
    × (nodes c.at ≡ some (record { prev = before; next = first l after; item = c.item }))
    × (records c.item ≡ some c.value)
    × Linked nodes records c.at l after

pub Linked-frame :
    (nodes nodes' : ℕ → Option Node) (records records' : ℕ → Option Record) (before : ℕ)
    (l : List Cell) (after : ℕ)
    → ((x : ℕ) → 0 < count x (addresses l) → nodes' x ≡ nodes x)
    → ((x : ℕ) → 0 < count x (items l) → records' x ≡ records x)
    → Linked nodes records before l after
    → Linked nodes' records' before l after
Linked-frame nodes nodes' records records' before [] after f g h = tt
Linked-frame nodes nodes' records records' before (c ∷ l) after f g (a, b, n, r, h) = (
  a,
  b,
  f c.at (ground arith) ∙ n,
  g c.item (ground arith) ∙ r,
  Linked-frame nodes nodes' records records' c.at l after (λ x e. f x (ground arith))
      (λ x e. g x (ground arith)) h,
)

pub count-final :
    (before : ℕ) (c : Cell) (l : List Cell) → 0 < count (final before (c ∷ l)) (addresses (c ∷ l))
count-final before c [] = ground arith
count-final before c (d ∷ l) = ground (arith, count-final c.at d l)

pub final-elsewhere :
    (c e : Cell) (l : List Cell) → IsDistinct (addresses (c ∷ e ∷ l)) → final c.at (e ∷ l) ≢ c.at
final-elsewhere c e l d q =
    let k : 0 < count c.at (addresses (e ∷ l)) =
      subst (λ x. 0 < count x (addresses (e ∷ l))) q (count-final c.at e l) in
    ground (arith, d c.at)

pub update-other {ℓ} :
    {A : Type ℓ} (heap : ℕ → Option A) (p : ℕ) (v : Option A) (x : ℕ)
    → p ≢ x
    → update heap p v x ≡ heap x
update-other heap p v x n = ground arith

pub update-same {ℓ} : {A : Type ℓ} (p : ℕ) (v w : A) → (if p == p then v else w) ≡ v
update-same p v w = ground arith

pub load-other {ℓ} :
    {A : Type ℓ} (heap : ℕ → Option A) (p : ℕ) (v : Option A) (x : ℕ)
    → p ≢ x
    → load (update heap p v) x ≡ load heap x
unfolding load
load-other heap p v x n = ground arith

pub load-same {ℓ} :
    {A : Type ℓ} (heap : ℕ → Option A) (p : ℕ) (v : A)
    → p ≢ 0
    → load (update heap p (some v)) p ≡ ok v
unfolding load
load-same heap p v n = ground arith

pub load-some {ℓ} :
    {A : Type ℓ} (heap : ℕ → Option A) (p : ℕ) (v : A)
    → p ≢ 0
    → heap p ≡ some v
    → load heap p ≡ ok v
unfolding load
load-some heap p v n e = ground (arith, e)

-- The last node may be linked to another one after it.
pub Linked-relink :
    (nodes : ℕ → Option Node) (records : ℕ → Option Record) (before : ℕ) (c : Cell) (l : List Cell)
    (after after' : ℕ)
    → IsDistinct (addresses (c ∷ l))
    → Linked nodes records before (c ∷ l) after
    → (n : Node) × (load nodes (final before (c ∷ l)) ≡ ok n)
      × Linked
          (update nodes (final before (c ∷ l)) (some (record n { next = after' })))
          records
          before
          (c ∷ l)
          after'
unfolding load
Linked-relink nodes records before c [] after after' d (a, b, n, r, h) = (
  record { prev = before; next = after; item = c.item },
  ground (arith, n),
  (a, b, ground arith, r, tt),
)
Linked-relink nodes records before c (e ∷ l) after after' d (a, b, n, r, h) =
    let (m, found, rest) =
      Linked-relink nodes records c.at e l after after' (λ x. ground (arith, d x)) h in
    (m, found, (a, b, update-other nodes _ _ c.at (final-elsewhere c e l d) ∙ n, r, rest))

pub Linked-split :
    (nodes : ℕ → Option Node) (records : ℕ → Option Record) (before : ℕ) (l : List Cell) (c : Cell)
    (after : ℕ)
    → Linked nodes records before (l ++ c ∷ []) after
    → Linked nodes records before l c.at × Linked nodes records (final before l) (c ∷ []) after
Linked-split nodes records before [] c after h = (tt, h)
Linked-split nodes records before (b ∷ []) c after (p, q, n, r, h) = ((p, q, n, r, tt), h)
Linked-split nodes records before (b ∷ e ∷ l) c after (p, q, n, r, h) =
    let (k, m) = Linked-split nodes records b.at (e ∷ l) c after h in ((p, q, n, r, k), m)

pub Linked-join :
    (nodes : ℕ → Option Node) (records : ℕ → Option Record) (before : ℕ) (l : List Cell) (c : Cell)
    (after : ℕ)
    → Linked nodes records before l c.at
    → Linked nodes records (final before l) (c ∷ []) after
    → Linked nodes records before (l ++ c ∷ []) after
Linked-join nodes records before [] c after h k = k
Linked-join nodes records before (b ∷ []) c after (p, q, n, r, h) k = (p, q, n, r, k)
Linked-join nodes records before (b ∷ e ∷ l) c after (p, q, n, r, h) k =
    (p, q, n, r, Linked-join nodes records b.at (e ∷ l) c after h k)
