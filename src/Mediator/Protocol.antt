-- ===== src/Mediator/Protocol.antt =====
-- The way of a task through a capture point in the mediator: its stages, and the ends of plans.
use lotto.Base.{
  ℕ, suc, ◌≡◌, refl, Bool, true, false, not, ◌&&◌, ◌||◌, List, [], ◌∷◌, ◌++◌, ◌==◌, if◌then◌else◌,
  Outcome, ok, ◌>>=◌, ◌>>◌, assert, ◌∙◌,
}
use lotto.Reason.{Reason, is_shutdown, is_terminate}
use lotto.Plan.{
  Plan, plan_next, plan_done, plan_has, action_resume, action_continue, action_shutdown,
  action_none,
}
use lotto.Sequencer.{CapturePoint, event_task_fini}
use lotto.Mediator.{
  Mediator, Effect, Status, mediator_ok, mediator_abort, mediator_shutdown, capture, resume,
  resume_loop, return_from, yield, resume_engine,
}

-- The way of a task through a capture point: the capture; if it says so, the operation that may block
-- and the return from it; then the rest of the plan, unless the task has finished.
unfoldable pub passage :
    Bool
    → Outcome (Bool × Mediator × List Effect)
    → (Mediator → Outcome (Mediator × List Effect))
    → (Mediator → Outcome (Status × Mediator × List Effect))
    → Outcome (Mediator × List Effect)
passage finishes captured returned resumed = do
  (blocks, m₁, first) ← captured
  if blocks && finishes then ok (m₁, first) else (do
    (m₂, second) ← if blocks then returned m₁ else ok (m₁, [])
    (_, m₃, third) ← resumed m₂
    ok (m₃, first ++ (second ++ third)))

-- The way of a task whose thread is not retired
abbrev pub pass : ℕ → Mediator → CapturePoint → Plan → Outcome (Mediator × List Effect)
pass slack m cp p =
    passage (cp.type_id == event_task_fini) (capture false slack m cp p) (λ q. return_from q cp)
      resume

-- The plan is used up.
abbrev pub UsedUp : Mediator × List Effect → Type 0
UsedUp r = plan_next (r.0).plan ≡ action_none

-- The rest of a plan is carried out to its end.
abbrev pub Ends : Mediator → Type 0
Ends m =
    (st : Status) × (r : Mediator) × (effects : List Effect) × (resume m ≡ ok (st, r, effects))
    × (plan_next r.plan ≡ action_none)

abbrev pub at_plan : Mediator → Plan → ℕ → Mediator
at_plan m p actions = record m { plan = record p { actions = actions } }

-- The bodies of `resume` and `capture` around their loops.
abbrev resuming :
    Bool
    → Bool
    → Outcome (Status × Plan × List Effect)
    → (Plan → Bool)
    → Mediator
    → Outcome (Status × Mediator × List Effect)
resuming finished has loop ends m = do
  assert (not finished)
  assert has
  (st, left, effects) ← loop
  assert (ends left)
  ok (st, record m { plan = left }, effects)

resumption :
    (finished has : Bool) (loop : Outcome (Status × Plan × List Effect)) (ends : Plan → Bool)
    (m : Mediator) (st : Status) (left : Plan) (effects : List Effect)
    → finished ≡ false
    → has ≡ true
    → loop ≡ ok (st, left, effects)
    → ends left ≡ true
    → resuming finished has loop ends m ≡ ok (st, record m { plan = left }, effects)
resumption finished has loop ends m st left effects f h e u = rw (f, h, e, u) refl

abbrev pub capturing :
    Bool → Outcome (Bool × Plan × List Effect) → Mediator → Outcome (Bool × Mediator × List Effect)
capturing finished loop m = do
  assert (not finished)
  (blocks, left, effects) ← loop
  ok (blocks, record m { plan = left }, effects)

pub captured_lem :
    (finished : Bool) (loop : Outcome (Bool × Plan × List Effect)) (m : Mediator) (b : Bool)
    (left : Plan) (effects : List Effect)
    → finished ≡ false
    → loop ≡ ok (b, left, effects)
    → capturing finished loop m ≡ ok (b, record m { plan = left }, effects)
captured_lem finished loop m b left effects f e = rw (f, e) refl

of_loop :
    (m : Mediator) (st : Status) (left : Plan) (effects : List Effect)
    → m.finito ≡ false
    → (plan_has m.plan action_resume
        || (plan_has m.plan action_continue || plan_has m.plan action_shutdown))
      ≡ true
    → resume_loop 10 m.id m.plan mediator_ok [] ≡ ok (st, left, effects)
    → (plan_next left == action_none) ≡ true
    → plan_next left ≡ action_none
    → Ends m
unfolding resume
of_loop m st left effects f has loop used used' = (
  st,
  record m { plan = left },
  effects,
  resumption m.finito _ (resume_loop 10 m.id m.plan mediator_ok [])
      (λ left. plan_next left == action_none) m st left effects f has loop used,
  used',
)

pub yield_resume-Ends : (m : Mediator) (p : Plan) → m.finito ≡ false → Ends (at_plan m p 0x30)
unfolding resume resume_loop plan_next plan_done plan_has
yield_resume-Ends m p f =
    (mediator_ok, at_plan m p 0, yield m.id p.filtered ∷ resume_engine ∷ [], rw f refl, refl)

pub resume_continue-Ends : (m : Mediator) (p : Plan) → m.finito ≡ false → Ends (at_plan m p 0x60)
unfolding resume resume_loop plan_next plan_done plan_has
resume_continue-Ends m p f = (mediator_ok, at_plan m p 0, resume_engine ∷ [], rw f refl, refl)

stops : Reason → Status
stops r = if is_shutdown r then mediator_shutdown else mediator_abort

last_shutdown :
    (fuel id : ℕ) (p : Plan) (st : Status) (done : List Effect)
    → is_terminate p.reason ≡ true
    → resume_loop (suc fuel) id (record p { actions = 0x100 }) st done
      ≡ ok (stops p.reason, record p { actions = 0 }, done)
unfolding resume_loop plan_next plan_done is_terminate stops
last_shutdown fuel id p st done t = rw t refl

pub shutdown-Ends :
    (m : Mediator) (p : Plan)
    → m.finito ≡ false
    → is_terminate p.reason ≡ true
    → Ends (at_plan m p 0x100)
unfolding plan_next plan_has
shutdown-Ends m p f t =
    of_loop (at_plan m p 0x100) (stops p.reason) (record p { actions = 0 }) [] f refl
      (last_shutdown 9 m.id p mediator_ok [] t) refl refl

yield_resume_first :
    (fuel id : ℕ) (p : Plan) (st : Status) (done : List Effect)
    → resume_loop (suc (suc fuel)) id (record p { actions = 0x130 }) st done
      ≡ resume_loop fuel id
          (record p { actions = 0x100 })
          st
          ((done ++ yield id p.filtered ∷ []) ++ resume_engine ∷ [])
unfolding resume_loop plan_next plan_done
yield_resume_first fuel id p st done = refl

pub yield_shutdown-Ends :
    (m : Mediator) (p : Plan)
    → m.finito ≡ false
    → is_terminate p.reason ≡ true
    → Ends (at_plan m p 0x130)
unfolding plan_next plan_has
yield_shutdown-Ends m p f t =
    of_loop (at_plan m p 0x130) (stops p.reason) (record p { actions = 0 })
      (yield m.id p.filtered ∷ resume_engine ∷ []) f refl
      (yield_resume_first 8 m.id p mediator_ok []
        ∙ last_shutdown 7 m.id p mediator_ok (yield m.id p.filtered ∷ resume_engine ∷ []) t)
      refl refl

module _ (finishes : Bool) (captured : Outcome (Bool × Mediator × List Effect))
    (returned : Mediator → Outcome (Mediator × List Effect))
    (resumed : Mediator → Outcome (Status × Mediator × List Effect)) where
  pub after_capture :
      (q : Mediator) (effects : List Effect) (st : Status) (r : Mediator) (more : List Effect)
      → captured ≡ ok (false, q, effects)
      → resumed q ≡ ok (st, r, more)
      → passage finishes captured returned resumed ≡ ok (r, effects ++ ([] ++ more))
  unfolding passage
  after_capture q effects st r more c e = rw (c, e) refl

  pub after_block :
      (q : Mediator) (effects : List Effect) (q' : Mediator) (back : List Effect) (st : Status)
      (r : Mediator) (more : List Effect)
      → finishes ≡ false
      → captured ≡ ok (true, q, effects)
      → returned q ≡ ok (q', back)
      → resumed q' ≡ ok (st, r, more)
      → passage finishes captured returned resumed ≡ ok (r, effects ++ (back ++ more))
  unfolding passage
  after_block q effects q' back st r more n c b e = rw (n, c, b, e) refl

  pub after_last :
      (q : Mediator) (effects : List Effect)
      → finishes ≡ true
      → captured ≡ ok (true, q, effects)
      → passage finishes captured returned resumed ≡ ok (q, effects)
  unfolding passage
  after_last q effects t c = rw (t, c) refl
