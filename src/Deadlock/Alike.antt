-- ===== src/Deadlock/Alike.antt =====
-- Maps of resources whose bags hold the same tasks, in whatever order (modules/deadlock/src/handler.c).
use lotto.Base.{
  ℕ, ◌+◌, ◌≤◌, ◌<◌, ◌≡◌, refl, sym, ◌∙◌, true, false, List, [], ◌∷◌, some, ◌==◌, count, arith,
  Bool-cases, subst, inl, inr,
}
use lotto.Base.Words.{u64_mod}
use lotto.Tidbag.{Tidbag, size}
use lotto.Map.{lookup, write}
use lotto.Deadlock.{Rsrc}

-- The bag can be written to, and holds no more than its array.
pub record HasRoom (b : Tidbag) : Type 0 where
  pub fits : size b ≤ b.capacity
  pub small : b.capacity < u64_mod
  pub backed : b.allocated ≡ true

-- The same tasks, as often, in an array of the same size
pub record SameBag (a b : Tidbag) : Type 0 where
  pub sizes : size a ≡ size b
  pub capacities : a.capacity ≡ b.capacity
  pub allocations : a.allocated ≡ b.allocated
  pub counts : (x : ℕ) → count x a.tasks ≡ count x b.tasks

-- The items have the same keys and owners, one by one, and the same tasks.
abbrev pub Alike : List (ℕ × Rsrc) → List (ℕ × Rsrc) → Type 0
Alike [] [] = Unit
Alike [] ((k, r) ∷ l) = ⊥
Alike ((k, r) ∷ l) [] = ⊥
Alike ((k, r) ∷ l) ((k', r') ∷ l') =
    (k ≡ k') × (r.owner ≡ r'.owner) × SameBag r.tasks r'.tasks × Alike l l'

abbrev pub AllRoom : List (ℕ × Rsrc) → Type 0
AllRoom [] = Unit
AllRoom ((k, r) ∷ l) = HasRoom r.tasks × AllRoom l

-- How many tasks there are in all bags
unfoldable pub total : List (ℕ × Rsrc) → ℕ
total [] = 0
total ((k, r) ∷ l) = size r.tasks + total l

pub SameBag-refl : (b : Tidbag) → SameBag b b
SameBag-refl b = record { sizes = refl; capacities = refl; allocations = refl; counts = λ x. refl }

pub SameBag-trans : (a b c : Tidbag) → SameBag a b → SameBag b c → SameBag a c
SameBag-trans a b c p q = record {
  sizes = p.sizes ∙ q.sizes;
  capacities = p.capacities ∙ q.capacities;
  allocations = p.allocations ∙ q.allocations;
  counts = λ x. p.counts x ∙ q.counts x;
}

pub SameBag-HasRoom : (a b : Tidbag) → SameBag a b → HasRoom a → HasRoom b
SameBag-HasRoom a b p h = record {
  fits = omega (arith, h.fits, p.sizes, p.capacities);
  small = omega (arith, h.small, p.capacities);
  backed = sym p.allocations ∙ h.backed;
}

pub Alike-refl : (l : List (ℕ × Rsrc)) → Alike l l
Alike-refl [] = tt
Alike-refl ((k, r) ∷ l) = (refl, refl, SameBag-refl r.tasks, Alike-refl l)

pub Alike-trans : (l m n : List (ℕ × Rsrc)) → Alike l m → Alike m n → Alike l n
Alike-trans [] [] n p q = q
Alike-trans [] ((k, r) ∷ m) n p q = absurd p
Alike-trans ((k, r) ∷ l) [] n p q = absurd p
Alike-trans ((k, r) ∷ l) ((k', r') ∷ m) [] p q = absurd q
Alike-trans ((k, r) ∷ l) ((k', r') ∷ m) ((k'', r'') ∷ n) (ek, eo, eb, el) (fk, fo, fb, fl) =
    (ek ∙ fk, eo ∙ fo, SameBag-trans r.tasks r'.tasks r''.tasks eb fb, Alike-trans l m n el fl)

pub Alike-AllRoom : (l m : List (ℕ × Rsrc)) → Alike l m → AllRoom l → AllRoom m
Alike-AllRoom [] [] p h = tt
Alike-AllRoom [] ((k, r) ∷ m) p h = absurd p
Alike-AllRoom ((k, r) ∷ l) [] p h = absurd p
Alike-AllRoom ((k, r) ∷ l) ((k', r') ∷ m) (ek, eo, eb, el) (hr, hl) =
    (SameBag-HasRoom r.tasks r'.tasks eb hr, Alike-AllRoom l m el hl)

pub Alike-total : (l m : List (ℕ × Rsrc)) → Alike l m → total l ≡ total m
unfolding total
Alike-total [] [] p = refl
Alike-total [] ((k, r) ∷ m) p = absurd p
Alike-total ((k, r) ∷ l) [] p = absurd p
Alike-total ((k, r) ∷ l) ((k', r') ∷ m) (ek, eo, eb, el) =
    omega (arith, eb.sizes, Alike-total l m el)

-- A key that is found in one is found in the other, with the same tasks.
pub Alike-lookup :
    (key : ℕ) (l m : List (ℕ × Rsrc)) (r : Rsrc)
    → Alike l m
    → lookup key l ≡ some r
    → (r' : Rsrc) × (lookup key m ≡ some r') × SameBag r.tasks r'.tasks × (r.owner ≡ r'.owner)
unfolding lookup
Alike-lookup key [] m r p e = cc e
Alike-lookup key ((k, s) ∷ l) [] r p e = absurd p
Alike-lookup key ((k, s) ∷ l) ((k', s') ∷ m) r (ek, eo, eb, el) e = elim (Bool-cases (k == key)) [
  | inl here ↦
      let found : s ≡ r = ground arith in
      let also : (k' == key) ≡ true = subst (λ c. (c == key) ≡ true) ek here in
      (
        s',
        rw also refl,
        subst (λ t. SameBag t.tasks s'.tasks) found eb,
        subst (λ t. t.owner ≡ s'.owner) found eo,
      )
  | inr away ↦
      let (r', f, b, o) = Alike-lookup key l m r el (ground arith) in
      let also : (k' == key) ≡ false = subst (λ c. (c == key) ≡ false) ek away in
      (r', rw also f, b, o)
]

write_here :
    (key k : ℕ) (s r : Rsrc) (l : List (ℕ × Rsrc))
    → (k == key) ≡ true
    → write key (λ v. r) ((k, s) ∷ l) ≡ (k, r) ∷ l
unfolding write
write_here key k s r l here = rw here refl

write_away :
    (key k : ℕ) (s r : Rsrc) (l : List (ℕ × Rsrc))
    → (k == key) ≡ false
    → write key (λ v. r) ((k, s) ∷ l) ≡ (k, s) ∷ write key (λ v. r) l
unfolding write
write_away key k s r l away = rw away refl

Alike-here :
    (key k : ℕ) (s changed back : Rsrc) (l m : List (ℕ × Rsrc))
    → (k == key) ≡ true
    → Alike ((k, changed) ∷ l) m
    → SameBag s.tasks back.tasks
    → s.owner ≡ back.owner
    → Alike ((k, s) ∷ l) (write key (λ v. back) m)
Alike-here key k s changed back l [] here p b o = absurd p
Alike-here key k s changed back l ((k', r') ∷ m) here (ek, eo, eb, el) b o =
    let also : (k' == key) ≡ true = subst (λ c. (c == key) ≡ true) ek here in
    subst (λ w. Alike ((k, s) ∷ l) w) (sym (write_here key k' r' back m also)) (ek, o, b, el)

Alike-away :
    (key k : ℕ) (s back : Rsrc) (l written m : List (ℕ × Rsrc))
    → (k == key) ≡ false
    → Alike ((k, s) ∷ written) m
    → ((n : List (ℕ × Rsrc)) → Alike written n → Alike l (write key (λ v. back) n))
    → Alike ((k, s) ∷ l) (write key (λ v. back) m)
Alike-away key k s back l written [] away p rest = absurd p
Alike-away key k s back l written ((k', r') ∷ m) away (ek, eo, eb, el) rest =
    let also : (k' == key) ≡ false = subst (λ c. (c == key) ≡ false) ek away in
    subst (λ w. Alike ((k, s) ∷ l) w) (sym (write_away key k' r' back m also))
      (ek, eo, eb, rest m el)

lookup_nil : (key : ℕ) (r : Rsrc) → lookup key [] ≡ some r → ⊥
unfolding lookup
lookup_nil key r e = cc e

lookup_here :
    (key k : ℕ) (s r : Rsrc) (l : List (ℕ × Rsrc))
    → (k == key) ≡ true
    → lookup key ((k, s) ∷ l) ≡ some r
    → s ≡ r
unfolding lookup
lookup_here key k s r l here e = ground arith

lookup_away :
    (key k : ℕ) (s r : Rsrc) (l : List (ℕ × Rsrc))
    → (k == key) ≡ false
    → lookup key ((k, s) ∷ l) ≡ some r
    → lookup key l ≡ some r
unfolding lookup
lookup_away key k s r l away e = ground arith

-- A bag of the first map was changed, the call kept all bags alike, and the bag was changed back.
pub Alike-write :
    (key : ℕ) (l m : List (ℕ × Rsrc)) (r changed back : Rsrc)
    → lookup key l ≡ some r
    → Alike (write key (λ v. changed) l) m
    → SameBag r.tasks back.tasks
    → r.owner ≡ back.owner
    → Alike l (write key (λ v. back) m)
Alike-write key [] m r changed back e p b o = absurd (lookup_nil key r e)
Alike-write key ((k, s) ∷ l) m r changed back e p b o = elim (Bool-cases (k == key)) [
  | inl here ↦
      let found : s ≡ r = lookup_here key k s r l here e in
      Alike-here key k s changed back l m here
        (subst (λ w. Alike w m) (write_here key k s changed l here) p)
        (subst (λ t. SameBag t.tasks back.tasks) (sym found) b)
        (subst (λ t. t.owner ≡ back.owner) (sym found) o)
  | inr away ↦
      Alike-away key k s back l (write key (λ v. changed) l) m away
        (subst (λ w. Alike w m) (write_away key k s changed l away) p)
        (λ n q. Alike-write key l n r changed back (lookup_away key k s r l away e) q b o)
]

pub AllRoom-lookup :
    (key : ℕ) (l : List (ℕ × Rsrc)) (r : Rsrc) → AllRoom l → lookup key l ≡ some r → HasRoom r.tasks
unfolding lookup
AllRoom-lookup key [] r h e = cc e
AllRoom-lookup key ((k, s) ∷ l) r (hs, hl) e = elim (Bool-cases (k == key)) [
  | inl here ↦ let found : s ≡ r = ground arith in subst (λ t. HasRoom t.tasks) found hs
  | inr away ↦ AllRoom-lookup key l r hl (ground arith)
]

pub AllRoom-write :
    (key : ℕ) (l : List (ℕ × Rsrc)) (r : Rsrc)
    → AllRoom l
    → HasRoom r.tasks
    → AllRoom (write key (λ v. r) l)
unfolding write
AllRoom-write key [] r h g = tt
AllRoom-write key ((k, s) ∷ l) r (hs, hl) g = elim (Bool-cases (k == key)) [
  | inl here ↦ rw here (g, hl)
  | inr away ↦ rw away (hs, AllRoom-write key l r hl g)
]

-- One task less in a bag that is found is one less in all.
pub total-write :
    (key : ℕ) (l : List (ℕ × Rsrc)) (r changed : Rsrc)
    → lookup key l ≡ some r
    → size changed.tasks + 1 ≡ size r.tasks
    → total (write key (λ v. changed) l) + 1 ≡ total l
unfolding lookup write total
total-write key [] r changed e less = cc e
total-write key ((k, s) ∷ l) r changed e less = elim (Bool-cases (k == key)) [
  | inl here ↦
      let found : s ≡ r = ground arith in
      let sized : size s.tasks ≡ size r.tasks =
        subst (λ t. size s.tasks ≡ size t.tasks) found refl in
      rw here (omega (arith, less, sized))
  | inr away ↦
      let rest = total-write key l r changed (ground arith) less in rw away (omega (arith, rest))
]
