-- ===== src/Join/Waits.antt =====
-- The chains of waiting tasks of modules/join/src/handler.c, and the loop of `_join` along them.
use lotto.Base.{
  ℕ, zero, suc, ◌+◌, ◌≡◌, ◌≢◌, ◌∙◌, subst, Bool, true, false, none, some, ◌==◌, if◌then◌else◌, ok,
  arith, Bool-cases, Option-cases, inl, inr,
}
use lotto.Base.Words.{no_task}
use lotto.Map.{Map, find, register, deregister, modify}
use lotto.Map.Laws.{IsValid, register-Returns, deregister_lem, modify_lem}
use lotto.Join.{Waitee, zeroed_waitee, reaches}

-- The chain of waiting tasks from `x` on comes to an end.
pub data Ends (m : Map Waitee) : ℕ → Type 0 where
  idle : {x : ℕ} → find m x ≡ none → Ends m x
  waiting : {x : ℕ} (w : Waitee) → find m x ≡ some w → Ends m w.waitee → Ends m x

pub record AreWaitees (m : Map Waitee) : Type 0 where
  pub valid : IsValid m
  pub named : (x : ℕ) (w : Waitee) → find m x ≡ some w → w.waitee ≢ no_task
  pub acyclic : (x : ℕ) → Ends m x

more_fuel : (fuel more : ℕ) → suc fuel + more ≡ suc (fuel + more)
more_fuel fuel more = omega arith

reaches_here : (fuel : ℕ) (m : Map Waitee) (tid : ℕ) → reaches (suc fuel) m tid tid ≡ ok true
unfolding reaches
reaches_here fuel m tid = ground arith

pub reaches_idle :
    (fuel : ℕ) (m : Map Waitee) (tid x : ℕ)
    → x ≢ tid
    → x ≢ no_task
    → find m x ≡ none
    → reaches (suc fuel) m tid x ≡ ok false
unfolding reaches
reaches_idle fuel m tid x n k e = ground (arith, e)

reaches_on :
    (fuel : ℕ) (m : Map Waitee) (tid x : ℕ) (w : Waitee)
    → x ≢ tid
    → x ≢ no_task
    → find m x ≡ some w
    → reaches (suc fuel) m tid x ≡ reaches fuel m tid w.waitee
unfolding reaches
reaches_on fuel m tid x w n k e = ground (arith, e)

-- The loop gives the answer with this fuel, and with more.
abbrev pub Answers : Map Waitee → ℕ → ℕ → ℕ → Bool → Type 0
Answers m tid x fuel b = (more : ℕ) → reaches (fuel + more) m tid x ≡ ok b

-- Where chains end, some fuel is enough for the loop.
pub Ends-reaches :
    (m : Map Waitee) (tid x : ℕ)
    → AreWaitees m
    → x ≢ no_task
    → Ends m x
    → (fuel : ℕ) × (b : Bool) × Answers m tid x fuel b
Ends-reaches m tid x v n (idle e) = elim (Bool-cases (x == tid)) [
  | inl same ↦
      let q : x ≡ tid = ground arith in
      (1, true, λ more. rw (more_fuel 0 more, q) (reaches_here (0 + more) m tid))
  | inr other ↦
      (1, false, λ more. rw (more_fuel 0 more) (reaches_idle (0 + more) m tid x (ground arith) n e))
]
Ends-reaches m tid x v n (waiting w e rest) = elim (Bool-cases (x == tid)) [
  | inl same ↦
      let q : x ≡ tid = ground arith in
      (1, true, λ more. rw (more_fuel 0 more, q) (reaches_here (0 + more) m tid))
  | inr other ↦
      let (fuel, b, h) = Ends-reaches m tid w.waitee v (v.named x w e) rest in
      (
        suc fuel,
        b,
        λ more.
            rw (more_fuel fuel more)
              (reaches_on (fuel + more) m tid x w (ground arith) n e ∙ h more),
      )
]

-- A chain that avoids `tid` ends as well where only `tid` differs.
avoids-Ends :
    (fuel : ℕ) (m r : Map Waitee) (tid x : ℕ)
    → ((y : ℕ) → y ≢ tid → find r y ≡ find m y)
    → reaches fuel m tid x ≡ ok false
    → Ends r x
unfolding reaches
avoids-Ends zero m r tid x f h = absurd (ground arith)
avoids-Ends (suc fuel) m r tid x f h = elim (Bool-cases (x == tid)) [
  | inl same ↦ absurd (ground arith)
  | inr other ↦ elim (Option-cases (find m x)) [
    | inl e ↦ idle (f x (ground arith) ∙ e)
    | inr (w, e) ↦
        waiting w (f x (ground arith) ∙ e) (avoids-Ends fuel m r tid w.waitee f (ground (arith, e)))
  ]
]

-- If the new waitee's chain ends, all do.
added-Ends :
    (m r : Map Waitee) (tid x : ℕ) (w : Waitee)
    → ((y : ℕ) → find r y ≡ (if tid == y then some w else find m y))
    → Ends r w.waitee
    → Ends m x
    → Ends r x
added-Ends m r tid x w f h (idle e) = elim (Bool-cases (tid == x)) [
  | inl same ↦ waiting w (f x ∙ ground arith) h
  | inr other ↦ idle (f x ∙ ground (arith, e))
]
added-Ends m r tid x w f h (waiting v e rest) = elim (Bool-cases (tid == x)) [
  | inl same ↦ waiting w (f x ∙ ground arith) h
  | inr other ↦ waiting v (f x ∙ ground (arith, e)) (added-Ends m r tid v.waitee w f h rest)
]

dropped-Ends :
    (m r : Map Waitee) (key x : ℕ)
    → ((y : ℕ) → find r y ≡ (if key == y then none else find m y))
    → Ends m x
    → Ends r x
dropped-Ends m r key x f (idle e) = idle (f x ∙ ground (arith, e))
dropped-Ends m r key x f (waiting w e rest) = elim (Bool-cases (key == x)) [
  | inl same ↦ idle (f x ∙ ground arith)
  | inr other ↦ waiting w (f x ∙ ground (arith, e)) (dropped-Ends m r key w.waitee f rest)
]

pub deregister-AreWaitees :
    (m : Map Waitee) (key : ℕ) → AreWaitees m → AreWaitees (deregister m key)
deregister-AreWaitees m key v =
    let (valid, found) = deregister_lem m key v.valid in
    record {
      valid = valid;
      named = λ x w e. ground (arith, found x, v.named x w);
      acyclic = λ x. dropped-Ends m (deregister m key) key x found (v.acyclic x);
    }

-- A task that waits anew, for one from which it is not reached.
pub register-AreWaitees :
    (fuel : ℕ) (m r : Map Waitee) (tid : ℕ) (w : Waitee)
    → AreWaitees m
    → w.waitee ≢ no_task
    → find m tid ≡ none
    → register m zeroed_waitee tid ≡ ok r
    → reaches fuel m tid w.waitee ≡ ok false
    → AreWaitees (modify r tid (λ p. w))
register-AreWaitees fuel m r tid w v n absent h free =
    let (q, e, valid, found) = register-Returns m zeroed_waitee tid v.valid absent in
    let same : q ≡ r = ground arith in
    let (valid', found') = modify_lem q tid (λ p. w) valid in
    let all : (y : ℕ) → find (modify q tid (λ p. w)) y ≡ (if tid == y then some w else find m y) =
      λ y. found' y ∙ ground (arith, found y) in
    let ends : Ends (modify q tid (λ p. w)) w.waitee =
      avoids-Ends fuel m (modify q tid (λ p. w)) tid w.waitee (λ y k. all y ∙ ground arith) free in
    subst (λ k. AreWaitees (modify k tid (λ p. w))) same
      (record {
        valid = valid';
        named = λ x k e. ground (arith, all x, v.named x k, n);
        acyclic = λ x. added-Ends m (modify q tid (λ p. w)) tid x w all ends (v.acyclic x);
      })
