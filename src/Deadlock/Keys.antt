-- ===== src/Deadlock/Keys.antt =====
-- The keys that the loop along the resources meets (modules/deadlock/src/handler.c).
use lotto.Base.{ℕ, ◌≡◌, refl, List, [], ◌∷◌, some, ◌==◌, arith, Bool-cases, inl, inr}
use lotto.Map.{lookup, write}
use lotto.Deadlock.{Rsrc, keys_of}
use lotto.Deadlock.Alike.{Alike, Alike-lookup}

-- The loop meets keys of the map only.
abbrev pub Found : List ℕ → List (ℕ × Rsrc) → Type 0
Found [] l = Unit
Found (k ∷ ks) l = ((r : Rsrc) × (lookup k l ≡ some r)) × Found ks l

pub Found-Alike : (ks : List ℕ) (l m : List (ℕ × Rsrc)) → Alike l m → Found ks l → Found ks m
Found-Alike [] l m p f = tt
Found-Alike (k ∷ ks) l m p ((r, e), f) =
    let (r', e', same, owners) = Alike-lookup k l m r p e in ((r', e'), Found-Alike ks l m p f)

lookup-more :
    (k key : ℕ) (s r : Rsrc) (l : List (ℕ × Rsrc))
    → lookup k l ≡ some r
    → (t : Rsrc) × (lookup k ((key, s) ∷ l) ≡ some t)
unfolding lookup
lookup-more k key s r l e = elim (Bool-cases (key == k)) [
  | inl here ↦ (s, rw here refl)
  | inr away ↦ (r, rw away e)
]

Found-more :
    (ks : List ℕ) (key : ℕ) (s : Rsrc) (l : List (ℕ × Rsrc)) → Found ks l → Found ks ((key, s) ∷ l)
Found-more [] key s l f = tt
Found-more (k ∷ ks) key s l ((r, e), f) = (lookup-more k key s r l e, Found-more ks key s l f)

lookup_first_key : (k : ℕ) (r : Rsrc) (l : List (ℕ × Rsrc)) → lookup k ((k, r) ∷ l) ≡ some r
unfolding lookup
lookup_first_key k r l = ground arith

pub Found-keys_of : (l : List (ℕ × Rsrc)) → Found (keys_of l) l
Found-keys_of [] = tt
Found-keys_of ((k, r) ∷ l) =
    ((r, lookup_first_key k r l), Found-more (keys_of l) k r l (Found-keys_of l))

pub lookup-written :
    (key : ℕ) (l : List (ℕ × Rsrc)) (r w : Rsrc)
    → lookup key l ≡ some r
    → lookup key (write key (λ v. w) l) ≡ some w
unfolding lookup write
lookup-written key [] r w e = cc e
lookup-written key ((k, s) ∷ l) r w e = ground (arith, lookup-written key l r w)
