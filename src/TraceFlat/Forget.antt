-- ===== src/TraceFlat/Forget.antt =====
-- Dropping the last record of a flat trace (`_forget` of src/base/trace_flat.c).
use lotto.Base.{
  ℕ, ◌<◌, ◌≡◌, ◌≢◌, refl, sym, subst, Option, ◌⊎◌, none, some, List, [], ◌∷◌, ◌++◌, ◌==◌, count,
  arith, Bool-cases, inl, inr, ok, IsDistinct, Returns, Returns_of, ◌∙◌, drop_last, ap,
}
use lotto.TraceFlat.{Record, Node, Trace, update, load, free_node, free_record, forget}
use lotto.TraceFlat.Linked.{
  load-other, load-some, update-other, Cell, addresses, items, final, Linked, Linked-frame,
  count-final, Linked-relink, Linked-split,
}
use lotto.TraceFlat.Queue.{Represents, addresses-snoc, items-snoc, final-snoc, elsewhere}

forget_one :
    (t : Trace) (n : Node) (r : Record)
    → t.tail ≢ 0
    → t.tail ≡ t.head
    → load t.nodes t.tail ≡ ok n
    → load t.records n.item ≡ ok r
    → forget t
      ≡ ok (record {
        nodes = update t.nodes t.tail none;
        records = update t.records n.item none;
        head = 0;
        tail = 0;
      })
unfolding forget free_record free_node
forget_one t n r h s e f = ground (arith, e, f)

forget_more :
    (t : Trace) (n m : Node) (r : Record)
    → t.tail ≢ 0
    → t.tail ≢ t.head
    → load t.nodes t.tail ≡ ok n
    → load t.nodes n.prev ≡ ok m
    → n.prev ≢ t.tail
    → load t.records n.item ≡ ok r
    → forget t
      ≡ ok (record {
        nodes = update (update t.nodes n.prev (some (record m { next = 0 }))) t.tail none;
        records = update t.records n.item none;
        head = t.head;
        tail = n.prev;
      })
unfolding forget free_record free_node
forget_more t n m r h s e f d g =
    ground (arith, e, f, g, load-other t.nodes n.prev (some (record m { next = 0 })) t.tail d ∙ e)

snoc_one :
    (t : Trace) (c : Cell) → Represents t (c ∷ []) → Returns (forget t) (λ r. Represents r [])
snoc_one t c v =
    let (a, b, n, k, _) = v.links in
    let tail : Node = record { prev = 0; next = 0; item = c.item } in
    let h : t.tail ≢ 0 = rw v.tails a in
    let found : load t.nodes t.tail ≡ ok tail = rw v.tails (load-some t.nodes c.at tail a n) in
    Returns_of _ {m = forget t} _
      (forget_one t tail c.value h (v.tails ∙ sym v.heads) found
        (load-some t.records c.item c.value b k))
      (record {
        heads = refl;
        tails = refl;
        links = tt;
        nodes_distinct = λ x. omega arith;
        items_distinct = λ x. omega arith;
        owned = λ x e. rw v.tails (freed x);
      })
  where
    freed : (x : ℕ) → update t.nodes c.at none x ≡ none
    freed x = ground (arith, v.owned x)

-- What is distinct in a list that a cell ends.
record Ends (l : List Cell) (c : Cell) : Type 0 where
  no_node : count c.at (addresses l) ≡ 0
  no_item : count c.item (items l) ≡ 0
  nodes_distinct : IsDistinct (addresses l)
  items_distinct : IsDistinct (items l)

Ends-snoc :
    (l : List Cell) (c : Cell)
    → IsDistinct (addresses (l ++ c ∷ []))
    → IsDistinct (items (l ++ c ∷ []))
    → Ends l c
Ends-snoc l c d e = record {
  no_node = ground (arith, d c.at, addresses-snoc c.at l c);
  no_item = ground (arith, e c.item, items-snoc c.item l c);
  nodes_distinct = λ x. ground (arith, d x, addresses-snoc x l c);
  items_distinct = λ x. ground (arith, e x, items-snoc x l c);
}

cut_owned :
    (nodes : ℕ → Option Node) (l : List Cell) (c : Cell) (p : ℕ) (v : Option Node)
    → 0 < count p (addresses l)
    → ((x : ℕ) → count x (addresses (l ++ c ∷ [])) ≡ 0 → nodes x ≡ none)
    → (x : ℕ) → count x (addresses l) ≡ 0
    → update (update nodes p v) c.at none x ≡ none
cut_owned nodes l c p v there owned x e = elim (Bool-cases (c.at == x)) [
  | inl same ↦ ground arith
  | inr different ↦
      let absent : count x (addresses (l ++ c ∷ [])) ≡ 0 = ground (arith, addresses-snoc x l c) in
      update-other (update nodes p v) c.at none x (ground arith)
      ∙ update-other nodes p v x (elsewhere x p l e there)
      ∙ owned x absent
]

cut_links :
    (nodes : ℕ → Option Node) (records : ℕ → Option Record) (l : List Cell) (c : Cell)
    → Ends l c
    → Linked nodes records 0 l 0
    → Linked (update nodes c.at none) (update records c.item none) 0 l 0
cut_links nodes records l c e h =
    Linked-frame nodes _ records _ 0 l 0
      (λ x there. update-other nodes c.at none x (λ q. elsewhere c.at x l e.no_node there (sym q)))
      (λ x there. update-other records c.item none x (λ q. not_in x q there)) h
  where
    not_in : (x : ℕ) → c.item ≡ x → 0 < count x (items l) → ⊥
    not_in x q h =
        let k : 0 < count c.item (items l) = subst (λ y. 0 < count y (items l)) (sym q) h in
        ground (arith, e.no_item)

snoc_more :
    (t : Trace) (b : Cell) (l : List Cell) (c : Cell)
    → Represents t (b ∷ l ++ c ∷ [])
    → Returns (forget t) (λ r. Represents r (b ∷ l))
snoc_more t b l c v =
    let e = Ends-snoc (b ∷ l) c v.nodes_distinct v.items_distinct in
    let (links, (a, i, n, k, _)) = Linked-split t.nodes t.records 0 (b ∷ l) c 0 v.links in
    let there = count-final 0 b l in
    let (m, found, relinked) =
      Linked-relink t.nodes t.records 0 b l c.at 0 e.nodes_distinct links in
    let ends : t.tail ≡ c.at = v.tails ∙ final-snoc 0 (b ∷ l) c in
    let tail : Node = record { prev = final 0 (b ∷ l); next = 0; item = c.item } in
    let here : load t.nodes t.tail ≡ ok tail = rw ends (load-some t.nodes c.at tail a n) in
    let h : t.tail ≢ 0 = rw ends a in
    let apart : t.tail ≢ t.head = rw (ends, v.heads) (λ q. first_apart q e.no_node) in
    let before : final 0 (b ∷ l) ≢ t.tail =
      rw ends (elsewhere c.at (final 0 (b ∷ l)) (b ∷ l) e.no_node there) in
    Returns_of _ {m = forget t} _
      (forget_more t tail m c.value h apart here found before
        (load-some t.records c.item c.value i k))
      (record {
        heads = v.heads;
        tails = refl;
        links =
            subst
              (λ p.
                Linked
                  (update (update t.nodes (final 0 (b ∷ l)) (some (record m { next = 0 }))) p none)
                  (update t.records c.item none) 0 (b ∷ l) 0)
              (sym ends) (cut_links _ t.records (b ∷ l) c e relinked);
        nodes_distinct = e.nodes_distinct;
        items_distinct = e.items_distinct;
        owned = λ x q. rw ends (cut_owned t.nodes (b ∷ l) c (final 0 (b ∷ l)) _ there v.owned x q);
      })
  where
    first_apart : c.at ≡ b.at → count c.at (b.at ∷ addresses l) ≡ 0 → ⊥
    first_apart q z = absurd (ground arith)

pub Snoc-cases : (l : List Cell) → (l ≡ []) ⊎ ((k : List Cell) × (c : Cell) × (l ≡ k ++ c ∷ []))
Snoc-cases [] = inl refl
Snoc-cases (b ∷ l) = elim (Snoc-cases l) [
  | inl e ↦ inr ([], b, rw e refl)
  | inr (k, c, e) ↦ inr (b ∷ k, c, rw e refl)
]

drop_last-snoc : (l : List Cell) (c : Cell) → drop_last (l ++ c ∷ []) ≡ l
drop_last-snoc [] c = refl
drop_last-snoc (b ∷ []) c = refl
drop_last-snoc (b ∷ d ∷ l) c = ap (◌∷◌ b) (drop_last-snoc (d ∷ l) c)

snoc-Represents :
    (t : Trace) (l : List Cell) (c : Cell)
    → Represents t (l ++ c ∷ [])
    → Returns (forget t) (λ r. Represents r l)
snoc-Represents t [] c v = snoc_one t c v
snoc-Represents t (b ∷ l) c v = snoc_more t b l c v

pub forget_empty : (t : Trace) → Represents t [] → forget t ≡ ok t
unfolding forget
forget_empty t v = ground (arith, v.tails)

pub forget-Represents :
    (t : Trace) (l : List Cell)
    → Represents t l
    → Returns (forget t) (λ r. Represents r (drop_last l))
forget-Represents t l v = elim (Snoc-cases l) [
  | inl e ↦ Returns_of _ {m = forget t} t (forget_empty t (rw (← e) v)) (rw e (rw (← e) v))
  | inr (k, c, e) ↦
      let shorter : drop_last l ≡ k = rw e (drop_last-snoc k c) in
      rw shorter (snoc-Represents t k c (rw (← e) v))
]
