-- ===== src/Mediator/Carried.antt =====
-- The plans that `sequencer_capture` can lay down, on their way through the mediator.
use Prim.Native.Nat.{bit_or}
use lotto.Base.{
  ℕ, ◌≡◌, true, false, ◌⊎◌, inl, inr, ◌==◌, ok, arith, Bool-cases, Returns, Outcome-cases,
}
use lotto.Reason.{is_terminate}
use lotto.Plan.{Plan, action_shutdown}
use lotto.Sequencer.{CapturePoint, Decision, event_task_create, event_task_fini, actions_for}
use lotto.Sequencer.Capture.{plan_actions}
use lotto.Mediator.{Mediator}
use lotto.Mediator.Protocol.{pass, UsedUp}
use lotto.Mediator.Shapes.{
  Passes-create, Passes-blocking, Passes-yield, Passes-fini, Passes-shutdown, Passes,
}

-- What the sequencer can ask of a capture point.
data Asks (cp : CapturePoint) (n : ℕ) : Type 0 where
  creates : (cp.type_id == event_task_create) ≡ true → n ≡ 0x34 → Asks cp n
  finishes : (cp.type_id == event_task_fini) ≡ true → n ≡ 1 → Asks cp n
  blocks :
      (cp.type_id == event_task_create) ≡ false
      → (cp.type_id == event_task_fini) ≡ false
      → n ≡ 0x3d
      → Asks cp n
  yields : n ≡ 0x31 → Asks cp n

actions_for-Asks :
    (cp : CapturePoint) (next : ℕ) (e : Decision) (n : ℕ) → actions_for cp next e ≡ ok n → Asks cp n
unfolding actions_for
actions_for-Asks cp next e n h = elim (Bool-cases (cp.type_id == event_task_create)) [
  | inl c ↦ creates c (ground arith)
  | inr c ↦ elim (Bool-cases (cp.type_id == event_task_fini)) [
    | inl d ↦ finishes d (ground arith)
    | inr d ↦ elim (Bool-cases (n == 0x31)) [
      | inl y ↦ yields (ground arith)
      | inr y ↦ blocks c d (ground arith)
    ]
  ]
]

plan_actions-cases :
    (cp : CapturePoint) (next : ℕ) (e : Decision) (n : ℕ)
    → plan_actions cp next e ≡ ok n
    → Asks cp n
      ⊎ ((is_terminate e.reason ≡ true)
          × ((n ≡ action_shutdown) ⊎ ((k : ℕ) × Asks cp k × (n ≡ bit_or k action_shutdown))))
unfolding plan_actions
plan_actions-cases cp next e n h = elim (Bool-cases (is_terminate e.reason)) [
  | inr lives ↦ inl (actions_for-Asks cp next e n (ground arith))
  | inl ends ↦ elim (Bool-cases (next == cp.id)) [
    | inr other ↦ inr (ends, inl (ground arith))
    | inl own ↦ elim (Outcome-cases (actions_for cp next e)) [
      | inl (f, stops) ↦ absurd (ground arith)
      | inr (k, asked) ↦ inr (ends, inr (k, actions_for-Asks cp next e k asked, ground arith))
    ]
  ]
]

module _ (slack : ℕ) (m : Mediator) (cp : CapturePoint) (p : Plan) (f : m.finito ≡ false) where
  passes : (n : ℕ) → Asks cp n → Passes slack m cp p f n
  passes n (creates t q) = rw q (Passes-create slack m cp p f t).0
  passes n (finishes t q) = rw q (Passes-fini slack m cp p f t).0
  passes n (blocks t u q) = rw q (Passes-blocking slack m cp p f t u).0
  passes n (yields q) = rw q (Passes-yield slack m cp p f).0

  Passes-ending :
      (n : ℕ)
      → Asks cp n
      → is_terminate p.reason ≡ true
      → Passes slack m cp p f (bit_or n action_shutdown)
  Passes-ending n (creates t q) r = rw q ((Passes-create slack m cp p f t).1 r)
  Passes-ending n (finishes t q) r = rw q ((Passes-fini slack m cp p f t).1 r)
  Passes-ending n (blocks t u q) r = rw q ((Passes-blocking slack m cp p f t u).1 r)
  Passes-ending n (yields q) r = rw q ((Passes-yield slack m cp p f).1 r)

  Passes-any :
      (n : ℕ)
      → Asks cp n
        ⊎ ((is_terminate p.reason ≡ true)
            × ((n ≡ action_shutdown) ⊎ ((k : ℕ) × Asks cp k × (n ≡ bit_or k action_shutdown))))
      → Passes slack m cp p f n
  Passes-any n (inl asks) = passes n asks
  Passes-any n (inr (r, inl q)) = rw q (Passes-shutdown slack m cp p f r)
  Passes-any n (inr (r, inr (k, asks, q))) = rw q (Passes-ending k asks r)

-- If a plan has the actions and the reason that the sequencer asks for at a capture point, a
-- mediator that has not finished takes a task of a thread that is not retired through that point,
-- under any optimization, without an abort, and no action of the plan is left.
pub pass-UsedUp :
    (slack : ℕ) (m : Mediator) (cp : CapturePoint) (next : ℕ) (e : Decision) (p : Plan)
    → m.finito ≡ false
    → p.reason ≡ e.reason
    → plan_actions cp next e ≡ ok p.actions
    → Returns (pass slack m cp p) UsedUp
pass-UsedUp slack m cp next e p f same h =
    Passes-any slack m cp p f p.actions (rw same (plan_actions-cases cp next e p.actions h))
