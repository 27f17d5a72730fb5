-- ===== src/TraceFlat/Search.antt =====
-- The loops of a flat trace: `_next`, `_clear`, `_save_to`, and `_last` (src/base/trace_flat.c).
use lotto.Base.{
  ℕ, zero, suc, ◌<◌, ◌≡◌, ◌≢◌, refl, sym, subst, true, false, ◌⊎◌, List, [], ◌∷◌, ◌++◌, ◌==◌,
  if◌then◌else◌, arith, Bool-cases, inl, inr, ok, ◌>>=◌, Returns, Returns_of, Returned, ◌∙◌, length,
  ap,
}
use lotto.TraceFlat.{
  Record, Node, Trace, load, advance, next, clear, clear_all, last, selects, record_any,
}
use lotto.TraceFlat.Linked.{load-some, Cell, first, Linked-split}
use lotto.TraceFlat.Queue.{Represents, final-snoc}
use lotto.TraceFlat.Pop.{advance-Represents}
use lotto.TraceFlat.Forget.{Snoc-cases}

-- The cells from the first one that the filter selects on.
abbrev pub skip : ℕ → List Cell → List Cell
skip filter [] = []
skip filter (c ∷ l) =
    let rest = skip filter l in if selects c.value.kind filter then c ∷ l else rest

-- The first record's address, and the last one's; 0 where there is none.
abbrev pub front : List Cell → ℕ
front [] = 0
front (c ∷ l) = c.item

abbrev pub back : List Cell → ℕ
back [] = 0
back (c ∷ []) = c.item
back (c ∷ d ∷ l) = back (d ∷ l)

next_empty : (fuel : ℕ) (t : Trace) (filter : ℕ) → t.head ≡ 0 → next (suc fuel) t filter ≡ ok (t, 0)
unfolding next
next_empty fuel t filter e = ground (arith, e)

next_here :
    (fuel : ℕ) (t : Trace) (filter : ℕ) (n : Node) (r : Record)
    → t.head ≢ 0
    → load t.nodes t.head ≡ ok n
    → load t.records n.item ≡ ok r
    → selects r.kind filter ≡ true
    → next (suc fuel) t filter ≡ ok (t, n.item)
unfolding next
next_here fuel t filter n r h e f s = ground (arith, e, f, s)

nonzero : (p : ℕ) → p ≢ 0 → (p == 0) ≡ false
nonzero p n = ground arith

next_drops :
    (fuel : ℕ) (t : Trace) (filter : ℕ) (n : Node) (r : Record)
    → t.head ≢ 0
    → load t.nodes t.head ≡ ok n
    → load t.records n.item ≡ ok r
    → selects r.kind filter ≡ false
    → next (suc fuel) t filter ≡ (advance t >>= λ q. next fuel q filter)
unfolding next
next_drops fuel t filter n r h e f s = rw (e, f, s, nonzero t.head h) refl

next_later :
    (fuel : ℕ) (t : Trace) (filter : ℕ) (n : Node) (r : Record) (t' : Trace)
    → t.head ≢ 0
    → load t.nodes t.head ≡ ok n
    → load t.records n.item ≡ ok r
    → selects r.kind filter ≡ false
    → advance t ≡ ok t'
    → next (suc fuel) t filter ≡ next fuel t' filter
next_later fuel t filter n r t' h e f s a =
    next_drops fuel t filter n r h e f s ∙ ap (λ m. m >>= λ q. next fuel q filter) a

-- The first node, and its record.
pub at_head :
    (t : Trace) (c : Cell) (l : List Cell)
    → Represents t (c ∷ l)
    → (t.head ≢ 0)
      × (load t.nodes t.head ≡ ok (record { prev = 0; next = first l 0; item = c.item }))
      × (load t.records c.item ≡ ok c.value)
at_head t c l v =
    let (a, b, n, r, _) = v.links in
    (
      rw v.heads a,
      rw v.heads
          (load-some t.nodes c.at (record { prev = 0; next = first l 0; item = c.item }) a n),
      load-some t.records c.item c.value b r,
    )

pub next-Represents :
    (fuel : ℕ) (t : Trace) (filter : ℕ) (l : List Cell)
    → Represents t l
    → length l < fuel
    → Returns
        (next fuel t filter)
        (λ r. Represents r.0 (skip filter l) × (r.1 ≡ front (skip filter l)))
next-Represents zero t filter l v h = absurd (omega arith)
next-Represents (suc fuel) t filter [] v h =
    Returns_of _ {m = next (suc fuel) t filter} (t, 0) (next_empty fuel t filter v.heads) (v, refl)
next-Represents (suc fuel) t filter (c ∷ l) v h =
    let (started, node, r) = at_head t c l v in
    elim (Bool-cases (selects c.value.kind filter)) [
      | inl here ↦
          Returns_of _ {m = next (suc fuel) t filter} (t, c.item)
            (next_here fuel t filter _ c.value started node r here) (rw here (v, refl))
      | inr later ↦
          let (t', e, v') = Returned _ (advance t) (advance-Represents t c l v) in
          subst
            (λ m.
              Returns m
                (λ r. Represents r.0 (skip filter (c ∷ l)) × (r.1 ≡ front (skip filter (c ∷ l)))))
            (sym (next_later fuel t filter _ c.value t' started node r later e))
            (rw later (next-Represents fuel t' filter l v' (omega arith)))
    ]

skip-cases :
    (filter : ℕ) (l : List Cell)
    → (skip filter l ≡ [])
      ⊎ ((c : Cell) × (k : List Cell) × (skip filter l ≡ c ∷ k) × (length k < length l))
skip-cases filter [] = inl refl
skip-cases filter (c ∷ l) = elim (Bool-cases (selects c.value.kind filter)) [
  | inl here ↦ inr (c, l, rw here refl, omega arith)
  | inr later ↦ elim (skip-cases filter l) [
    | inl e ↦ inl (rw later e)
    | inr (d, k, e, h) ↦ inr (d, k, rw later e, omega arith)
  ]
]

clear_done :
    (fuel : ℕ) (t t' : Trace)
    → next (suc fuel) t record_any ≡ ok (t', 0)
    → clear_all (suc fuel) t ≡ ok t'
unfolding clear_all
clear_done fuel t t' e = ground (arith, e)

clear_more :
    (fuel : ℕ) (t t' t'' : Trace) (item : ℕ)
    → next (suc fuel) t record_any ≡ ok (t', item)
    → item ≢ 0
    → advance t' ≡ ok t''
    → clear_all (suc fuel) t ≡ clear_all fuel t''
unfolding clear_all
clear_more fuel t t' t'' item e n a = rw (e, a, nonzero item n) refl

clear_all-Represents :
    (fuel : ℕ) (t : Trace) (l : List Cell)
    → Represents t l
    → length l < fuel
    → Returns (clear_all fuel t) (λ r. Represents r [])
clear_all-Represents zero t l v h = absurd (omega arith)
clear_all-Represents (suc fuel) t l v h =
    let ((t', item), e, (v', same)) =
      Returned _ (next (suc fuel) t record_any) (next-Represents (suc fuel) t record_any l v h) in
    elim (skip-cases record_any l) [
      | inl none_left ↦
          let stops : item ≡ 0 = same ∙ ap front none_left in
          Returns_of _ {m = clear_all (suc fuel) t} t' (clear_done fuel t t' (rw (← stops) e))
            (rw (← none_left) v')
      | inr (c, k, some_left, shorter) ↦
          let w : Represents t' (c ∷ k) = rw (← some_left) v' in
          let goes : item ≢ 0 = rw (same ∙ ap front some_left) w.links.1 in
          let (t'', a, v'') = Returned _ (advance t') (advance-Represents t' c k w) in
          subst (λ m. Returns m (λ r. Represents r []))
            (sym (clear_more fuel t t' t'' item e goes a))
            (clear_all-Represents fuel t'' k v'' (omega arith))
    ]

pub clear-Represents :
    (fuel : ℕ) (t : Trace) (l : List Cell)
    → Represents t l
    → length l < fuel
    → Returns (clear fuel t) (λ r. Represents r [])
unfolding clear
clear-Represents fuel t [] v h =
    Returns_of _ {m = clear fuel t} t (ground (arith, v.heads, v.tails)) v
clear-Represents fuel t (c ∷ l) v h =
    let (r, e, w) = Returned _ (clear_all fuel t) (clear_all-Represents fuel t (c ∷ l) v h) in
    Returns_of _ {m = clear fuel t} r (ground (arith, e, w.heads, w.tails, v.heads, v.links.0)) w

back-snoc : (l : List Cell) (c : Cell) → back (l ++ c ∷ []) ≡ c.item
back-snoc [] c = refl
back-snoc (b ∷ []) c = refl
back-snoc (b ∷ d ∷ l) c = back-snoc (d ∷ l) c

last-snoc : (t : Trace) (l : List Cell) (c : Cell) → Represents t (l ++ c ∷ []) → last t ≡ ok c.item
unfolding last
last-snoc t l c v =
    let (a, i, n, _, _) = (Linked-split t.nodes t.records 0 l c 0 v.links).1 in
    let ends : t.tail ≡ c.at = v.tails ∙ final-snoc 0 l c in
    rw (ends, load-some t.nodes c.at _ a n, nonzero c.at a) refl

pub last-eq : (t : Trace) (l : List Cell) → Represents t l → last t ≡ ok (back l)
unfolding last
last-eq t l v = elim (Snoc-cases l) [
  | inl e ↦ let w : Represents t [] = rw (← e) v in rw e (ground (arith, w.tails))
  | inr (k, c, e) ↦ rw (e, back-snoc k c) (last-snoc t k c (rw (← e) v))
]
