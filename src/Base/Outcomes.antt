-- ===== src/Base/Outcomes.antt =====
-- What a C function of the repository can come to: it returns, an ASSERT or ENSURE fires
-- (include/lotto/sys/assert.h, ensure.h: the process aborts), or it touches memory that it does
-- not own or has freed, or it logs a fatal error (src/sys/logger.c: the process aborts). A
-- recursion on fuel ends in `out_of_fuel` where it is cut off.
use mathlib.Core.Path.{◌≡◌, refl, subst}
use mathlib.Core.Logic.{◌⊎◌, inl, inr}
use mathlib.Core.Bool.{Bool, true, false}

pub data Fault : Type 0 where
  assert_failed out_of_bounds freed_memory fatal undefined_shift out_of_fuel : Fault

pub data Outcome {ℓ} (A : Type ℓ) : Type ℓ where
  ok : A → Outcome A
  fault : Fault → Outcome A

infixl 5 ◌>>=◌ ◌>>◌
abbrev pub ◌>>=◌ {ℓ κ} : {A : Type ℓ} {B : Type κ} → Outcome A → (A → Outcome B) → Outcome B
fault reason >>= next = fault reason
ok value >>= next = next value

-- ASSERT and ENSURE are enabled in every build but the documentation's.
abbrev pub assert : Bool → Outcome (Unit {0})
assert true = ok tt
assert false = fault assert_failed

abbrev pub in_bounds : Bool → Outcome (Unit {0})
in_bounds true = ok tt
in_bounds false = fault out_of_bounds

abbrev pub ◌>>◌ {ℓ} : {B : Type ℓ} → Outcome (Unit {0}) → Outcome B → Outcome B
first >> second = first >>= λ done. second

-- The call returns, and what it returns satisfies `P`.
abbrev pub Returns {ℓ} : {A : Type ℓ} → Outcome A → (A → Type 0) → Type 0
Returns (ok a) P = P a
Returns (fault e) P = ⊥

pub Returns-bind {ℓ κ} :
    {A : Type ℓ} {B : Type κ} (P : A → Type 0) (Q : B → Type 0) (m : Outcome A) (f : A → Outcome B)
    → Returns m P
    → ((a : A) → P a → Returns (f a) Q)
    → Returns (m >>= f) Q
Returns-bind P Q (ok a) f h k = k a h
Returns-bind P Q (fault e) f h k = h

pub Returns_of {ℓ} :
    {A : Type ℓ} (P : A → Type 0) {m : Outcome A} (a : A) → m ≡ ok a → P a → Returns m P
Returns_of P a e h = rw e h

pub Returns_mono {ℓ} :
    {A : Type ℓ} (P Q : A → Type 0) (m : Outcome A)
    → Returns m P
    → ((a : A) → P a → Q a)
    → Returns m Q
Returns_mono P Q (ok a) h k = k a h
Returns_mono P Q (fault e) h k = h

pub Outcome-cases {ℓ} :
    {A : Type ℓ} (o : Outcome A) → ((e : Fault) × (o ≡ fault e)) ⊎ ((a : A) × (o ≡ ok a))
Outcome-cases (ok a) = inr (a, refl)
Outcome-cases (fault e) = inl (e, refl)

pub Returns-ok {ℓ} :
    {A : Type ℓ} (P : A → Type 0) {m : Outcome A} (a : A) → m ≡ ok a → Returns m P → P a
Returns-ok P a e h = subst (λ o. Returns o P) e h

pub Returned {ℓ} :
    {A : Type ℓ} (P : A → Type 0) (m : Outcome A) → Returns m P → (a : A) × (m ≡ ok a) × P a
Returned P (ok a) h = (a, refl, h)
Returned P (fault e) h = absurd h

-- If the call returns, what it returns satisfies `P`.
abbrev pub Ensures {ℓ} : {A : Type ℓ} → Outcome A → (A → Type 0) → Type 0
Ensures (ok a) P = P a
Ensures (fault e) P = Unit

pub Ensures-bind {ℓ κ} :
    {A : Type ℓ} {B : Type κ} (P : A → Type 0) (Q : B → Type 0) (m : Outcome A) (f : A → Outcome B)
    → Ensures m P
    → ((a : A) → P a → Ensures (f a) Q)
    → Ensures (m >>= f) Q
Ensures-bind P Q (ok a) f h k = k a h
Ensures-bind P Q (fault e) f h k = tt

pub Ensures_any {ℓ} : {A : Type ℓ} (m : Outcome A) → Ensures m (λ a. Unit)
Ensures_any (ok a) = tt
Ensures_any (fault e) = tt

pub Ensures-ok {ℓ} :
    {A : Type ℓ} (P : A → Type 0) (m : Outcome A) (a : A) → Ensures m P → m ≡ ok a → P a
Ensures-ok P m a h e = subst (λ o. Ensures o P) e h

pub Ensures_mono {ℓ} :
    {A : Type ℓ} (P Q : A → Type 0) (m : Outcome A)
    → Ensures m P
    → ((a : A) → P a → Q a)
    → Ensures m Q
Ensures_mono P Q (ok a) h k = k a h
Ensures_mono P Q (fault e) h k = tt
