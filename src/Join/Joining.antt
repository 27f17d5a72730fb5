-- ===== src/Join/Joining.antt =====
-- What a join keeps (`_join` of modules/join/src/handler.c).
use lotto.Base.{
  ℕ, ◌≡◌, ◌≢◌, refl, sym, subst, Bool, true, false, none, some, List, [], ◌∷◌, if◌then◌else◌,
  Outcome, ok, fault, ◌>>=◌, Option-cases, inl, inr, Ensures, Ensures-bind, Ensures_any,
}
use lotto.Base.Words.{no_task}
use lotto.Map.{find, tid_find}
use lotto.Join.{Pthread, State, esrch, edeadlk, Write, reaches, collect, enqueue, join, known}
use lotto.Join.Steps.{IsSound, collect-Ensures, enqueue-Ensures}

-- `_join` once the task is found.
abbrev pub joining : ℕ → State → ℕ → ℕ → ℕ → ℕ → ℕ → Outcome (State × List Write)
joining fuel s tid pthread value_ptr ret waitee = do
  cycle ← reaches fuel s.waitees tid waitee
  if cycle then ok (s, (ret, edeadlk) ∷ []) else (do
    found ← tid_find s.pthreads waitee
    pt ← known found
    if pt.terminated
        then collect s tid pthread value_ptr ret waitee waitee pt
        else enqueue s tid value_ptr ret waitee pt)

pub join_known :
    (fuel : ℕ) (s : State) (tid pthread value_ptr ret waitee : ℕ)
    → find s.tasks pthread ≡ some waitee
    → join fuel s tid pthread value_ptr ret ≡ joining fuel s tid pthread value_ptr ret waitee
unfolding join
join_known fuel s tid pthread value_ptr ret waitee e = rw (join, e) refl

join_unknown :
    (fuel : ℕ) (s : State) (tid pthread value_ptr ret : ℕ)
    → find s.tasks pthread ≡ none
    → join fuel s tid pthread value_ptr ret ≡ ok (s, (ret, esrch) ∷ [])
unfolding join
join_unknown fuel s tid pthread value_ptr ret e = rw (join, e) refl

pub told : {A : Type 0} (m : Outcome A) → Ensures m (λ r. m ≡ ok r)
told (ok r) = refl
told (fault e) = tt

joining-Ensures :
    (fuel : ℕ) (s : State) (tid pthread value_ptr ret waitee : ℕ)
    → IsSound s
    → waitee ≢ no_task
    → Ensures (joining fuel s tid pthread value_ptr ret waitee) (λ r. IsSound r.0)
joining-Ensures fuel s tid pthread value_ptr ret waitee v n =
    Ensures-bind (λ b. reaches fuel s.waitees tid waitee ≡ ok b) (λ r. IsSound r.0)
      (reaches fuel s.waitees tid waitee) _ (told (reaches fuel s.waitees tid waitee)) go
  where
    rest :
        reaches fuel s.waitees tid waitee ≡ ok false
        → (pt : Pthread) → (b : Bool)
        → Ensures {A = State × List Write}
            (if b
              then collect s tid pthread value_ptr ret waitee waitee pt
              else enqueue s tid value_ptr ret waitee pt)
            (λ r. IsSound r.0)
    rest h pt true = collect-Ensures s tid pthread value_ptr ret waitee waitee pt v
    rest h pt false = enqueue-Ensures fuel s tid value_ptr ret waitee pt v n h

    go :
        (b : Bool)
        → reaches fuel s.waitees tid waitee ≡ ok b
        → Ensures {A = State × List Write}
            (if b then ok (s, (ret, edeadlk) ∷ []) else (do
              found ← tid_find s.pthreads waitee
              pt ← known found
              if pt.terminated
                  then collect s tid pthread value_ptr ret waitee waitee pt
                  else enqueue s tid value_ptr ret waitee pt))
            (λ r. IsSound r.0)
    go true h = v
    go false h =
        Ensures-bind (λ r. Unit) (λ r. IsSound r.0) (tid_find s.pthreads waitee) _ (Ensures_any _)
          (λ found u.
            Ensures-bind (λ r. Unit) (λ r. IsSound r.0) (known found) _ (Ensures_any _)
              (λ pt u. rest h pt pt.terminated))

pub join-Ensures :
    (fuel : ℕ) (s : State) (tid pthread value_ptr ret : ℕ)
    → IsSound s
    → Ensures (join fuel s tid pthread value_ptr ret) (λ r. IsSound r.0)
join-Ensures fuel s tid pthread value_ptr ret v = elim (Option-cases (find s.tasks pthread)) [
  | inl e ↦
      subst (λ m. Ensures m (λ r. IsSound r.0))
        (sym (join_unknown fuel s tid pthread value_ptr ret e)) v
  | inr (waitee, e) ↦
      subst (λ m. Ensures m (λ r. IsSound r.0))
        (sym (join_known fuel s tid pthread value_ptr ret waitee e))
        (joining-Ensures fuel s tid pthread value_ptr ret waitee v (v.tasks.named pthread waitee e))
]
