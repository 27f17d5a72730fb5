-- ===== src/Plan/Order.antt =====
-- The order in which `plan_next` and `plan_done` of src/engine/plan.c carry out a plan.
use lotto.Base.{
  ℕ, zero, suc, ◌+◌, ◌<◌, ◌≡◌, ◌≢◌, refl, Bool, true, ◌&&◌, ◌||◌, List, [], ◌∷◌, ltb, ◌==◌,
  if◌then◌else◌, arith, false, Bool-cases, inl, inr, ◌≤◌,
}
use lotto.Plan.{Plan, plan_next, plan_done, action_none, action_end}

-- The test passes at the `count` numbers from `low` on.
passes_from : (ℕ → Bool) → ℕ → ℕ → Bool
passes_from test low zero = true
passes_from test low (suc count) = if test low then passes_from test (low + 1) count else false

passes_from-at :
    (test : ℕ → Bool) (low count x : ℕ)
    → low ≤ x
    → x < low + count
    → passes_from test low count ≡ true
    → test x ≡ true
unfolding passes_from
passes_from-at test low zero x above below all = absurd (omega arith)
passes_from-at test low (suc count) x above below all = elim (Bool-cases (low == x)) [
  | inl here ↦ ground arith
  | inr later ↦ passes_from-at test (low + 1) count x (ground arith) (omega arith) (ground arith)
]

-- The do-while loop of the mediator over a plan, on fuel: the actions in the order in which
-- `plan_next` names them, until `plan_done` says that none is left.
unfoldable pub carried_out : ℕ → Plan → List ℕ
unfolding plan_next plan_done
carried_out zero p = []
carried_out (suc fuel) p =
    let (p', done) = plan_done p in
    let rest = carried_out fuel p' in if done then plan_next p ∷ [] else plan_next p ∷ rest

abbrev pub sum : List ℕ → ℕ
sum [] = 0
sum (a ∷ l) = a + sum l

-- Above `low`, and each above the one before.
abbrev pub ascending : ℕ → List ℕ → Bool
ascending low [] = true
ascending low (a ∷ l) = ltb low a && ascending a l

checks : Plan → ℕ → Bool
unfolding carried_out
checks p actions =
    let l = carried_out 9 (record p { actions = actions }) in
    (actions == action_none) || ((sum l == actions) && ascending 0 l)

all_check : (p : Plan) → passes_from (checks p) 0 action_end ≡ true
unfolding passes_from checks
all_check p = refl

parts :
    (a : ℕ) (l : List ℕ)
    → a ≢ action_none
    → ((a == action_none) || ((sum l == a) && ascending 0 l)) ≡ true
    → (sum l ≡ a) × (ascending 0 l ≡ true)
parts a l n h = ground arith

-- A plan of some actions below ACTION_END_ is used up by at most nine rounds of `plan_next` and
-- `plan_done`. They name actions in strictly ascending order that together are the plan.
pub carried_out_lem :
    (p : Plan)
    → p.actions ≢ action_none
    → p.actions < action_end
    → (sum (carried_out 9 p) ≡ p.actions) × (ascending 0 (carried_out 9 p) ≡ true)
unfolding checks
carried_out_lem p n h =
    parts p.actions (carried_out 9 p) n
      (passes_from-at (checks p) 0 action_end p.actions (omega arith) h (all_check p))
