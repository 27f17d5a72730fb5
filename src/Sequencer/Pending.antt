-- ===== src/Sequencer/Pending.antt =====
-- The tasks that returned from a blocking operation, on their way from the pending set to the
-- unblocked set (src/engine/sequencer.c).
use lotto.Base.{
  ℕ, ◌+◌, ◌*◌, ◌≤◌, ◌<◌, ◌≡◌, refl, true, false, ◌||◌, List, [], ◌∷◌, length, elem, count, ok,
  Returns, Returns_mono, arith, elem-append_one, length-append, count-append, elem-count,
  Outcome-cases, Returns-ok, inl, inr,
}
use lotto.Tidset.{Tidset, has, size, insert, clear}
use lotto.Tidset.Valid
use lotto.Tidset.Valid.{growth_limit, insert-new, inserted, inserted-IsValid}
use lotto.Tidset.Members.{grown-lt}
use lotto.Sequencer.{Sequencer, insert_pending, update_unblocked}

-- The set with the ids `xs` joined to it.
Joined : Tidset → List ℕ → Tidset → Type 0
Joined t xs r = Valid.IsValid r × ((x : ℕ) → has r x ≡ (elem x xs || has t x))

pending_step :
    (t : Tidset) (a : ℕ) (xs : List ℕ) (r : Tidset)
    → insert t a ≡ ok (r, true)
    → insert_pending t (a ∷ xs) ≡ insert_pending r xs
unfolding insert_pending
pending_step t a xs r e = rw e refl

insert_pending-Returns :
    (t : Tidset) (xs : List ℕ)
    → Valid.IsValid t
    → t.capacity < growth_limit
    → (size t + length xs) * 2 + 4 < growth_limit
    → ((x : ℕ) → count x t.tasks + count x xs ≤ 1)
    → Returns (insert_pending t xs) (Joined t xs)
unfolding insert_pending Joined
insert_pending-Returns t [] v h k d = (v, λ x. refl)
insert_pending-Returns t (a ∷ xs) v h k d =
    let new : has t a ≡ false = ground (arith, d a, elem-count a t.tasks) in
    rw (insert-new t a v h new) (
      Returns_mono (Joined (inserted t a) xs) (Joined t (a ∷ xs)) (insert_pending (inserted t a) xs)
        (insert_pending-Returns (inserted t a) xs (inserted-IsValid t a v new)
          (grown-lt t (length xs) h k) (omega (arith, length-append {0} t.tasks (a ∷ [])))
          (λ x. ground (arith, d x, count-append x t.tasks (a ∷ []))))
        (λ r p. (p.0, λ x. ground (arith, p.1 x, elem-append_one a x t.tasks))))

-- `update_unblocked` returns if the unblocked set is well formed and below the growth limit, with
-- room for the pending tasks, and no task stands twice in the two sets. The unblocked set is then
-- well formed and has the members of both; the pending set is empty.
pub update_unblocked-Returns :
    (s : Sequencer)
    → Valid.IsValid s.unblocked
    → s.unblocked.capacity < growth_limit
    → (size s.unblocked + size s.pending) * 2 + 4 < growth_limit
    → ((x : ℕ) → count x s.unblocked.tasks + count x s.pending.tasks ≤ 1)
    → Returns (update_unblocked s) (λ r.
      Valid.IsValid r.unblocked
      × ((x : ℕ) → has r.unblocked x ≡ (has s.pending x || has s.unblocked x))
      × ((x : ℕ) → has r.pending x ≡ false))
unfolding update_unblocked Joined clear
update_unblocked-Returns s v h k d =
    let joins = insert_pending-Returns s.unblocked s.pending.tasks v h k d in
    elim (Outcome-cases (insert_pending s.unblocked s.pending.tasks)) [
      | inl (f, stops) ↦ absurd (rw stops at joins)
      | inr (t, done) ↦
          let (valid, members) = Returns-ok _ t done joins in rw done (valid, members, λ x. refl)
    ]
