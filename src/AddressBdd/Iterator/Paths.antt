-- ===== src/AddressBdd/Iterator/Paths.antt =====
-- The way from the root to the iterator's node (src/base/address_bdd.c).
use lotto.Base.{
  ℕ, suc, ◌+◌, ◌*◌, ◌≤◌, ◌<◌, ◌≡◌, refl, ◌⊎◌, inl, inr, true, false, List, [], ◌∷◌, length, ltb,
  arith,
}
use lotto.AddressBdd.{Node, terminal, node}
use lotto.AddressBdd.Blocks.{width, contains, IsReduced}

-- The node `t` of level `d` and block `start` is reached from the root through the chain.
abbrev pub Reaches : ℕ → ℕ → Node → List Node → Node → ℕ → ℕ → Type 0
Reaches unit depth root [] t d start = (t ≡ root) × (d ≡ depth) × (start ≡ 0)
Reaches unit depth root (terminal v ∷ above) t d start = ⊥
Reaches unit depth root (node z o ∷ above) t d start =
    (up : ℕ) × Reaches unit depth root above (node z o) (suc d) up
    × (((t ≡ z) × (start ≡ up)) ⊎ ((t ≡ o) × (start ≡ up + width unit d)))

module _ (unit depth : ℕ) (root : Node) (positive : 0 < unit) where
  pub Reaches-level :
      (parents : List Node) (t : Node) (d start : ℕ)
      → Reaches unit depth root parents t d start
      → length parents + d ≡ depth
  Reaches-level [] t d start (r, l, s) = omega (arith, l)
  Reaches-level (terminal v ∷ above) t d start r = absurd r
  Reaches-level (node z o ∷ above) t d start (up, r, side) =
      omega (arith, Reaches-level above (node z o) (suc d) up r)

  -- A block starts at a multiple of its width.
  pub Reaches-aligned :
      (parents : List Node) (t : Node) (d start : ℕ)
      → Reaches unit depth root parents t d start
      → (q : ℕ) × (start ≡ q * width unit d)
  Reaches-aligned [] t d start (r, l, s) = (0, omega (arith, s))
  Reaches-aligned (terminal v ∷ above) t d start r = absurd r
  Reaches-aligned (node z o ∷ above) t d start (up, r, inl (e, s)) =
      let (q, a) = Reaches-aligned above (node z o) (suc d) up r in (q * 2, grind (arith, s, a))
  Reaches-aligned (node z o ∷ above) t d start (up, r, inr (e, s)) =
      let (q, a) = Reaches-aligned above (node z o) (suc d) up r in (q * 2 + 1, grind (arith, s, a))

  pub Reaches-inside :
      (parents : List Node) (t : Node) (d start : ℕ)
      → Reaches unit depth root parents t d start
      → start + width unit d ≤ width unit depth
  Reaches-inside [] t d start (r, l, s) = rw l (omega (arith, s))
  Reaches-inside (terminal v ∷ above) t d start r = absurd r
  Reaches-inside (node z o ∷ above) t d start (up, r, inl (e, s)) =
      omega (arith, s, Reaches-inside above (node z o) (suc d) up r)
  Reaches-inside (node z o ∷ above) t d start (up, r, inr (e, s)) =
      omega (arith, s, Reaches-inside above (node z o) (suc d) up r)

  -- The set and the node agree on the node's block.
  pub Reaches-contains :
      (parents : List Node) (t : Node) (d start x : ℕ)
      → Reaches unit depth root parents t d start
      → start ≤ x
      → x < start + width unit d
      → contains unit root depth 0 x ≡ contains unit t d start x
  unfolding contains
  Reaches-contains [] t d start x (r, l, s) lo hi = rw (r, l, s) refl
  Reaches-contains (terminal v ∷ above) t d start x r lo hi = absurd r
  Reaches-contains (node z o ∷ above) t d start x (up, r, inl (e, s)) lo hi =
      let whole =
        Reaches-contains above (node z o) (suc d) up x r (omega (arith, s)) (omega (arith, s)) in
      let side : ltb x (up + width unit d) ≡ true = ground (arith, s) in rw (e, s, whole, side) refl
  Reaches-contains (node z o ∷ above) t d start x (up, r, inr (e, s)) lo hi =
      let whole =
        Reaches-contains above (node z o) (suc d) up x r (omega (arith, s)) (omega (arith, s)) in
      let side : ltb x (up + width unit d) ≡ false = ground (arith, s) in
      rw (e, s, whole, side) refl

  pub Reaches-IsReduced :
      (parents : List Node) (t : Node) (d start : ℕ)
      → Reaches unit depth root parents t d start
      → IsReduced root depth
      → IsReduced t d
  Reaches-IsReduced [] t d start (r, l, s) h = rw (r, l) h
  Reaches-IsReduced (terminal v ∷ above) t d start r h = absurd r
  Reaches-IsReduced (node z o ∷ above) t d start (up, r, inl (e, s)) h =
      rw e (Reaches-IsReduced above (node z o) (suc d) up r h).1
  Reaches-IsReduced (node z o ∷ above) t d start (up, r, inr (e, s)) h =
      rw e (Reaches-IsReduced above (node z o) (suc d) up r h).2
