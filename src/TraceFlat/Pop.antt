-- ===== src/TraceFlat/Pop.antt =====
-- Taking the first record of a flat trace (`_pop`, `_advance` of src/base/trace_flat.c).
use lotto.Base.{
  ℕ, ◌<◌, ◌≡◌, ◌≢◌, refl, sym, subst, Option, none, some, List, [], ◌∷◌, ◌==◌, count, arith,
  Bool-cases, inl, inr, ok, IsDistinct, Returns, Returns_of, Returned, ◌∙◌,
}
use lotto.TraceFlat.{Record, Node, Trace, update, load, pop, free_node, free_record, advance}
use lotto.TraceFlat.Linked.{
  load-other, load-some, update-other, update-same, Cell, addresses, items, first, Linked,
  Linked-frame, final-elsewhere,
}
use lotto.TraceFlat.Queue.{Represents, elsewhere}

pop_single :
    (t : Trace) (n : Node)
    → t.head ≢ 0
    → load t.nodes t.head ≡ ok n
    → n.next ≡ 0
    → t.tail ≡ t.head
    → pop t ≡ ok (record t { nodes = update t.nodes t.head none; head = 0; tail = 0 }, n.item)
unfolding pop free_node
pop_single t n h e z s = ground (arith, e)

pop_more :
    (t : Trace) (n m : Node)
    → t.head ≢ 0
    → load t.nodes t.head ≡ ok n
    → n.next ≢ 0
    → n.next ≢ t.head
    → load t.nodes n.next ≡ ok m
    → t.tail ≢ t.head
    → pop t
      ≡ ok (
        record t {
          nodes = update (update t.nodes n.next (some (record m { prev = 0 }))) t.head none;
          head = n.next;
        },
        n.item,
      )
unfolding pop free_node
pop_more t n m h e z d f s =
    ground (arith, e, f, load-other t.nodes n.next (some (record m { prev = 0 })) t.head d ∙ e)

-- What `pop` makes of a trace whose cells are `c` and `l`.
pub record Pops (t : Trace) (l : List Cell) (r : Trace) : Type 0 where
  pub rest : Represents r l
  pub records : r.records ≡ t.records

pop_one :
    (t : Trace) (c : Cell)
    → Represents t (c ∷ [])
    → Returns (pop t) (λ r. Pops t [] r.0 × (r.1 ≡ c.item))
pop_one t c v =
    let (a, b, n, _, _) = v.links in
    let h : t.head ≢ 0 = rw v.heads a in
    let head : Node = record { prev = 0; next = 0; item = c.item } in
    let found : load t.nodes t.head ≡ ok head = rw v.heads (load-some t.nodes c.at head a n) in
    Returns_of _ {m = pop t} _ (pop_single t head h found refl (v.tails ∙ sym v.heads)) (
      record {
        rest = record {
          heads = refl;
          tails = refl;
          links = tt;
          nodes_distinct = λ x. omega arith;
          items_distinct = λ x. omega arith;
          owned = λ x e. rw v.heads (freed x);
        };
        records = refl;
      },
      refl,
    )
  where
    freed : (x : ℕ) → update t.nodes c.at none x ≡ none
    freed x = ground (arith, v.owned x)

-- The first two nodes are no later ones.
ahead :
    (c d : Cell) (l : List Cell)
    → IsDistinct (addresses (c ∷ d ∷ l))
    → (count c.at (addresses l) ≡ 0) × (count d.at (addresses l) ≡ 0) × (d.at ≢ c.at)
ahead c d l e = (ground (arith, e c.at), ground (arith, e d.at), ground (arith, e c.at))

moved :
    (nodes : ℕ → Option Node) (p q : ℕ) (v w : Option Node) (x : ℕ)
    → p ≢ x
    → q ≢ x
    → update (update nodes p v) q w x ≡ nodes x
moved nodes p q v w x n m = update-other (update nodes p v) q w x m ∙ update-other nodes p v x n

-- The freed node is gone, and the rest of the heap as it was.
pop_owned :
    (nodes : ℕ → Option Node) (c d : Cell) (l : List Cell) (v : Option Node)
    → ((x : ℕ) → count x (addresses (c ∷ d ∷ l)) ≡ 0 → nodes x ≡ none)
    → (x : ℕ) → count x (addresses (d ∷ l)) ≡ 0
    → update (update nodes d.at v) c.at none x ≡ none
pop_owned nodes c d l v owned x e = elim (Bool-cases (c.at == x)) [
  | inl same ↦ ground arith
  | inr different ↦ ground (arith, owned x)
]

pop_links :
    (nodes : ℕ → Option Node) (records : ℕ → Option Record) (c d : Cell) (l : List Cell)
    → IsDistinct (addresses (c ∷ d ∷ l))
    → Linked nodes records c.at (d ∷ l) 0
    → Linked
        (update
          (update nodes d.at (some (record { prev = 0; next = first l 0; item = d.item })))
          c.at
          none)
        records
        0
        (d ∷ l)
        0
pop_links nodes records c d l e (a, b, n, r, rest) =
    let (no_c, no_d, apart) = ahead c d l e in
    (
      a,
      b,
      update-other (update nodes d.at _) c.at none d.at (λ q. apart (sym q)) ∙ update-same d.at _ _,
      r,
      Linked-frame nodes _ records records d.at l 0
          (λ x there.
            moved nodes d.at c.at _ none x (λ q. elsewhere d.at x l no_d there (sym q))
              (λ q. elsewhere c.at x l no_c there (sym q)))
          (λ x there. refl) rest,
    )

pop_many :
    (t : Trace) (c d : Cell) (l : List Cell)
    → Represents t (c ∷ d ∷ l)
    → Returns (pop t) (λ r. Pops t (d ∷ l) r.0 × (r.1 ≡ c.item))
pop_many t c d l v =
    let (a, b, n, _, links) = v.links in
    let (a', b', n', r', rest) = links in
    let h : t.head ≢ 0 = rw v.heads a in
    let (_, _, apart) = ahead c d l v.nodes_distinct in
    let head : Node = record { prev = 0; next = d.at; item = c.item } in
    let found : load t.nodes t.head ≡ ok head = rw v.heads (load-some t.nodes c.at head a n) in
    let away : t.tail ≢ t.head = rw (v.heads, v.tails) (final-elsewhere c d l v.nodes_distinct) in
    Returns_of _ {m = pop t} _
      (pop_more t head _ h found a' (rw v.heads apart) (load-some t.nodes d.at _ a' n') away)
      (
        record {
          rest = record {
            heads = refl;
            tails = v.tails;
            links =
                subst
                  (λ h.
                    Linked
                      (update
                        (update t.nodes d.at
                          (some (record { prev = 0; next = first l 0; item = d.item })))
                        h none)
                      t.records 0 (d ∷ l) 0)
                  (sym v.heads) (pop_links t.nodes t.records c d l v.nodes_distinct links);
            nodes_distinct = λ x. ground (arith, v.nodes_distinct x);
            items_distinct = λ x. ground (arith, v.items_distinct x);
            owned = λ x e. rw v.heads (pop_owned t.nodes c d l _ v.owned x e);
          };
          records = refl;
        },
        refl,
      )

pub pop-Pops :
    (t : Trace) (c : Cell) (l : List Cell)
    → Represents t (c ∷ l)
    → Returns (pop t) (λ r. Pops t l r.0 × (r.1 ≡ c.item))
pop-Pops t c [] v = pop_one t c v
pop-Pops t c (d ∷ l) v = pop_many t c d l v

pub pop_empty : (t : Trace) → Represents t [] → pop t ≡ ok (t, 0)
unfolding pop
pop_empty t v = ground (arith, v.heads)

-- Freeing a record that no cell of the trace has.
pub free_record-Represents :
    (t : Trace) (l : List Cell) (p : ℕ) (r : Record)
    → Represents t l
    → p ≢ 0
    → t.records p ≡ some r
    → count p (items l) ≡ 0
    → Returns (free_record t p) (λ s. Represents s l)
unfolding free_record
free_record-Represents t l p r v n e absent =
    Returns_of _ {m = free_record t p} (record t { records = update t.records p none })
      (ground (arith, load-some t.records p r n e))
      (record {
        heads = v.heads;
        tails = v.tails;
        links =
            Linked-frame t.nodes t.nodes t.records _ 0 l 0 (λ x there. refl)
              (λ x there. update-other t.records p none x (λ q. not_in x q there)) v.links;
        nodes_distinct = v.nodes_distinct;
        items_distinct = v.items_distinct;
        owned = v.owned;
      })
  where
    not_in : (x : ℕ) → p ≡ x → 0 < count x (items l) → ⊥
    not_in x q h = let k : 0 < count p (items l) = rw q h in omega arith

advance_lem :
    (t : Trace) (s : Trace) (item : ℕ)
    → pop t ≡ ok (s, item)
    → item ≢ 0
    → advance t ≡ free_record s item
unfolding advance
advance_lem t s item e n = ground (arith, e)

pub advance-Represents :
    (t : Trace) (c : Cell) (l : List Cell)
    → Represents t (c ∷ l)
    → Returns (advance t) (λ r. Represents r l)
advance-Represents t c l v =
    let ((s, item), e, (p, same)) = Returned _ (pop t) (pop-Pops t c l v) in
    let (_, b, _, r, _) = v.links in
    let known : s.records item ≡ some c.value = rw (p.records, same) r in
    let alone : count c.item (items l) ≡ 0 = once v.items_distinct in
    let given : item ≢ 0 = rw same b in
    let apart : count item (items l) ≡ 0 = rw same alone in
    subst (λ m. Returns m (λ r. Represents r l)) (sym (advance_lem t s item e given))
      (free_record-Represents s l item c.value p.rest given known apart)
  where
    once : IsDistinct (c.item ∷ items l) → count c.item (items l) ≡ 0
    once d = ground (arith, d c.item)

pub advance_empty : (t : Trace) → Represents t [] → advance t ≡ ok t
unfolding advance
advance_empty t v = ground (arith, pop_empty t v)
