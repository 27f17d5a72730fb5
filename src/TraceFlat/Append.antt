-- ===== src/TraceFlat/Append.antt =====
-- Appending a record to a flat trace (`_append` of src/base/trace_flat.c).
use lotto.Base.{
  ℕ, ◌<◌, ◌≡◌, ◌≢◌, refl, sym, Option, none, some, List, [], ◌∷◌, ◌++◌, ◌==◌, count, arith,
  Bool-cases, inl, inr, ok, IsDistinct, Returns, Returns_of, ◌∙◌,
}
use lotto.TraceFlat.{Node, Trace, update, load, append}
use lotto.TraceFlat.Linked.{
  load-other, load-same, update-other, update-same, Cell, addresses, items, final, Linked-frame,
  count-final, Linked-relink, Linked-join,
}
use lotto.TraceFlat.Queue.{
  Represents, IsNew, addresses-snoc, items-snoc, final-snoc, elsewhere, unused-absent,
}

append_empty :
    (t : Trace) (p item : ℕ)
    → p ≢ 0
    → t.head ≡ 0
    → append t p item
      ≡ ok (record {
        nodes =
            update
              (update t.nodes p (some (record { prev = 0; next = 0; item = item })))
              p
              (some (record { prev = t.tail; next = 0; item = item }));
        records = t.records;
        head = p;
        tail = p;
      })
unfolding append
append_empty t p item n e =
    ground (arith, load-same t.nodes p (record { prev = 0; next = 0; item = item }) n)

append_more :
    (t : Trace) (p item : ℕ) (last : Node)
    → p ≢ 0
    → t.head ≢ 0
    → t.tail ≢ p
    → load t.nodes t.tail ≡ ok last
    → append t p item
      ≡ ok (record {
        nodes =
            update
              (update
                (update t.nodes p (some (record { prev = 0; next = 0; item = item })))
                t.tail
                (some (record last { next = p })))
              p
              (some (record { prev = t.tail; next = 0; item = item }));
        records = t.records;
        head = t.head;
        tail = p;
      })
unfolding append
append_more t p item last n h d e =
    let made = update t.nodes p (some (record { prev = 0; next = 0; item = item })) in
    ground (
      arith,
      load-other t.nodes p (some (record { prev = 0; next = 0; item = item })) t.tail
            (λ q. d (sym q))
          ∙ e,
      load-other made t.tail (some (record last { next = p })) p d
          ∙ load-same t.nodes p (record { prev = 0; next = 0; item = item }) n,
    )

addresses_snoc-IsDistinct :
    (l : List Cell) (c : Cell)
    → IsDistinct (addresses l)
    → count c.at (addresses l) ≡ 0
    → IsDistinct (addresses (l ++ c ∷ []))
addresses_snoc-IsDistinct l c d n x = ground (arith, addresses-snoc x l c, d x)

items_snoc-IsDistinct :
    (l : List Cell) (c : Cell)
    → IsDistinct (items l)
    → count c.item (items l) ≡ 0
    → IsDistinct (items (l ++ c ∷ []))
items_snoc-IsDistinct l c d n x = ground (arith, items-snoc x l c, d x)

-- Nothing but the last node and the new one is written.
append_owned :
    (nodes : ℕ → Option Node) (l : List Cell) (c : Cell) (p : ℕ) (u v w : Option Node)
    → ((x : ℕ) → count x (addresses l) ≡ 0 → nodes x ≡ none)
    → 0 < count p (addresses l)
    → (x : ℕ) → count x (addresses (l ++ c ∷ [])) ≡ 0
    → update (update (update nodes c.at u) p v) c.at w x ≡ none
append_owned nodes l c p u v w owned there x e =
    let absent : (count x (addresses l) ≡ 0) × (c.at ≢ x) = ground (arith, addresses-snoc x l c) in
    update-other (update (update nodes c.at u) p v) c.at w x absent.1
    ∙ update-other (update nodes c.at u) p v x (elsewhere x p l absent.0 there)
    ∙ update-other nodes c.at u x absent.1
    ∙ owned x absent.0

append_frame :
    (nodes : ℕ → Option Node) (l : List Cell) (p q : ℕ) (u v w : Option Node)
    → count p (addresses l) ≡ 0
    → (x : ℕ) → 0 < count x (addresses l)
    → update (update (update nodes p u) q v) p w x ≡ update nodes q v x
append_frame nodes l p q u v w absent x there = elim (Bool-cases (p == x)) [
  | inl same ↦ absurd (elsewhere p x l absent there (ground arith))
  | inr different ↦ ground arith
]

append_nil :
    (t : Trace) (c : Cell)
    → Represents t []
    → IsNew t [] c
    → Returns (append t c.at c.item) (λ r. Represents r (c ∷ []))
append_nil t c v w =
    Returns_of _ {m = append t c.at c.item} _ (append_empty t c.at c.item w.allocated v.heads)
      (record {
        heads = refl;
        tails = refl;
        links = (w.allocated, w.given, rw v.tails (update-same c.at _ _), w.known, tt);
        nodes_distinct = λ x. ground arith;
        items_distinct = λ x. ground arith;
        owned = λ x e. ground (arith, v.owned x);
      })

append_cons :
    (t : Trace) (b : Cell) (l : List Cell) (c : Cell)
    → Represents t (b ∷ l)
    → IsNew t (b ∷ l) c
    → Returns (append t c.at c.item) (λ r. Represents r (b ∷ l ++ c ∷ []))
append_cons t b l c v w =
    let absent = unused-absent t (b ∷ l) c.at v w.unused in
    let there = count-final 0 b l in
    let (n, found, relinked) =
      Linked-relink t.nodes t.records 0 b l 0 c.at v.nodes_distinct v.links in
    let started : t.head ≢ 0 = rw v.heads v.links.0 in
    let apart : t.tail ≢ c.at =
      rw v.tails (elsewhere c.at (final 0 (b ∷ l)) (b ∷ l) absent there) in
    let loaded : load t.nodes t.tail ≡ ok n = rw v.tails found in
    Returns_of _ {m = append t c.at c.item} _
      (append_more t c.at c.item n w.allocated started apart loaded)
      (rw v.tails (record {
        heads = v.heads;
        tails = sym (final-snoc 0 (b ∷ l) c);
        links =
            Linked-join _ _ 0 (b ∷ l) c 0
              (Linked-frame _ _ t.records t.records 0 (b ∷ l) c.at
                (append_frame t.nodes (b ∷ l) c.at _ _ _ _ absent) (λ x e. refl) relinked)
              (w.allocated, w.given, update-same c.at _ _, w.known, tt);
        nodes_distinct = addresses_snoc-IsDistinct (b ∷ l) c v.nodes_distinct absent;
        items_distinct = items_snoc-IsDistinct (b ∷ l) c v.items_distinct w.foreign;
        owned = append_owned t.nodes (b ∷ l) c _ _ _ _ v.owned there;
      }))

pub append-Represents :
    (t : Trace) (l : List Cell) (c : Cell)
    → Represents t l
    → IsNew t l c
    → Returns (append t c.at c.item) (λ r. Represents r (l ++ c ∷ []))
append-Represents t [] c v w = append_nil t c v w
append-Represents t (b ∷ l) c v w = append_cons t b l c v w
