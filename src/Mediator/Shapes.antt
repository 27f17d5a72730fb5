-- ===== src/Mediator/Shapes.antt =====
-- The plans of the sequencer, shape by shape, on the way through the mediator.
use lotto.Base.{
  ℕ, suc, ◌*◌, ◌≡◌, refl, Bool, true, false, ◌⊎◌, inl, inr, List, [], ◌∷◌, ◌==◌, if◌then◌else◌, ok,
  arith, Returns, Returns_of, ◌∙◌, ap,
}
use lotto.Reason.{is_terminate}
use lotto.Plan.{Plan, plan_next, plan_done}
use lotto.Sequencer.{CapturePoint, event_task_create, event_task_fini, wake_yield_resume}
use lotto.Mediator.{
  Mediator, Effect, Optimization, capture, capture_loop, plan_optimize, resume, return_from, wake,
  return_engine, now_millisecond,
}
use lotto.Mediator.Protocol.{
  pass, UsedUp, Ends, at_plan, captured_lem, after_capture, after_block, after_last, shutdown-Ends,
  yield_shutdown-Ends, yield_resume-Ends, resume_continue-Ends,
}

-- A plan is changed only if it is to wake, yield and resume.
optimize_keeps :
    (p : Plan) (cp : CapturePoint) (o : Optimization)
    → (p.actions == wake_yield_resume) ≡ false
    → plan_optimize p cp o ≡ p
unfolding plan_optimize
optimize_keeps p cp o h = ground (arith, h)

woken : ℕ → Plan → Effect
woken slack p = wake p.next (if p.with_slack then slack * now_millisecond else 0)

module _ (fuel slack : ℕ) (cp : CapturePoint) (p : Plan) where
  abbrev Starts : ℕ → Bool → ℕ → List Effect → Type 0
  Starts n blocks k effects =
      capture_loop (suc (suc fuel)) slack cp (record p { actions = n }) []
      ≡ ok (blocks, record p { actions = k }, effects)

  Starts-create : Starts 0x34 true 0x30 [] × Starts 0x134 true 0x130 []
  unfolding capture_loop
  Starts-create = (refl, refl)

  Starts-blocking :
      Starts 0x3d true 0x38 (woken slack p ∷ []) × Starts 0x13d true 0x138 (woken slack p ∷ [])
  unfolding capture_loop woken
  Starts-blocking = (refl, refl)

  Starts-yield :
      Starts 0x31 false 0x30 (woken slack p ∷ []) × Starts 0x131 false 0x130 (woken slack p ∷ [])
  unfolding capture_loop woken
  Starts-yield = (refl, refl)

  Starts-others :
      Starts 0x60 false 0x60 []
      × Starts 0x100 false 0x100 []
      × Starts 0x101 false 0x100 (woken slack p ∷ [])
  unfolding capture_loop woken
  Starts-others = (refl, refl, refl)

  Starts-fini : (cp.type_id == event_task_fini) ≡ true → Starts 1 true 0 (woken slack p ∷ [])
  unfolding capture_loop woken
  Starts-fini t = rw t refl

capture_of :
    (slack : ℕ) (m : Mediator) (cp : CapturePoint) (p : Plan) (b : Bool) (left : Plan)
    (effects : List Effect)
    → m.finito ≡ false
    → capture_loop 10 slack
        (record cp { id = m.id })
        (plan_optimize p (record cp { id = m.id }) m.optimization)
        []
      ≡ ok (b, left, effects)
    → capture false slack m cp p ≡ ok (b, record m { plan = left }, effects)
unfolding capture
capture_of slack m cp p b left effects f h =
    captured_lem m.finito
      (capture_loop 10 slack (record cp { id = m.id })
        (plan_optimize p (record cp { id = m.id }) m.optimization) [])
      m b left effects f h

module _ (slack : ℕ) (m : Mediator) (cp : CapturePoint) (p : Plan) (f : m.finito ≡ false) where
  abbrev here : CapturePoint
  here = record cp { id = m.id }

  abbrev pub at_actions : ℕ → Plan
  at_actions n = record p { actions = n }

  abbrev pub Passes : ℕ → Type 0
  Passes n = Returns (pass slack m cp (at_actions n)) UsedUp

  captures :
      (n k : ℕ) (blocks : Bool) (effects : List Effect)
      → (n == wake_yield_resume) ≡ false
      → Starts 8 slack here p n blocks k effects
      → capture false slack m cp (at_actions n) ≡ ok (blocks, at_plan m p k, effects)
  captures n k blocks effects other h =
      capture_of slack m cp (at_actions n) blocks (at_actions k) effects f (
        ap (λ q. capture_loop 10 slack here q [])
          (optimize_keeps (at_actions n) here m.optimization other)
        ∙ h)

  by_block :
      (n k k' : ℕ) (effects back : List Effect)
      → (cp.type_id == event_task_fini) ≡ false
      → capture false slack m cp (at_actions n) ≡ ok (true, at_plan m p k, effects)
      → return_from (at_plan m p k) cp ≡ ok (at_plan m p k', back)
      → Ends (at_plan m p k')
      → Passes n
  by_block n k k' effects back t c b (st, r, more, e, used) =
      Returns_of UsedUp {m = pass slack m cp (at_actions n)} (r, _)
        (after_block (cp.type_id == event_task_fini) (capture false slack m cp (at_actions n))
          (λ q. return_from q cp) resume (at_plan m p k) effects (at_plan m p k') back st r more t c
          b e)
        used

  by_yield :
      (n k : ℕ) (effects : List Effect)
      → capture false slack m cp (at_actions n) ≡ ok (false, at_plan m p k, effects)
      → Ends (at_plan m p k)
      → Passes n
  by_yield n k effects c (st, r, more, e, used) =
      Returns_of UsedUp {m = pass slack m cp (at_actions n)} (r, _)
        (after_capture (cp.type_id == event_task_fini) (capture false slack m cp (at_actions n))
          (λ q. return_from q cp) resume (at_plan m p k) effects st r more c e)
        used

  returns_create :
      (cp.type_id == event_task_create) ≡ true
      → (return_from (at_plan m p 0x30) cp ≡ ok (at_plan m p 0x30, []))
        × (return_from (at_plan m p 0x130) cp ≡ ok (at_plan m p 0x130, []))
  unfolding return_from plan_next
  returns_create t = (rw (f, t) refl, rw (f, t) refl)

  returns_blocking :
      (cp.type_id == event_task_create) ≡ false
      → (return_from (at_plan m p 0x38) cp ≡ ok (at_plan m p 0x30, return_engine ∷ []))
        × (return_from (at_plan m p 0x138) cp ≡ ok (at_plan m p 0x130, return_engine ∷ []))
  unfolding return_from plan_next plan_done
  returns_blocking t = (rw (f, t) refl, rw (f, t) refl)

  optimized :
      (plan_optimize (at_actions 0x31) here m.optimization ≡ at_actions 0x31)
      ⊎ (plan_optimize (at_actions 0x31) here m.optimization ≡ at_actions 0x60)
  unfolding plan_optimize
  optimized = ground arith

  pub Passes-create :
      (cp.type_id == event_task_create) ≡ true
      → Passes 0x34 × (is_terminate p.reason ≡ true → Passes 0x134)
  Passes-create t = (
    by_block 0x34 0x30 0x30 [] [] (ground arith)
        (captures 0x34 0x30 true [] refl (Starts-create 8 slack here p).0) (returns_create t).0
        (yield_resume-Ends m p f),
    λ r.
        by_block 0x134 0x130 0x130 [] [] (ground arith)
          (captures 0x134 0x130 true [] refl (Starts-create 8 slack here p).1) (returns_create t).1
          (yield_shutdown-Ends m p f r),
  )

  pub Passes-blocking :
      (cp.type_id == event_task_create) ≡ false
      → (cp.type_id == event_task_fini) ≡ false
      → Passes 0x3d × (is_terminate p.reason ≡ true → Passes 0x13d)
  Passes-blocking t u = (
    by_block 0x3d 0x38 0x30 (woken slack p ∷ []) (return_engine ∷ []) u
        (captures 0x3d 0x38 true _ refl (Starts-blocking 8 slack here p).0) (returns_blocking t).0
        (yield_resume-Ends m p f),
    λ r.
        by_block 0x13d 0x138 0x130 (woken slack p ∷ []) (return_engine ∷ []) u
          (captures 0x13d 0x138 true _ refl (Starts-blocking 8 slack here p).1)
          (returns_blocking t).1 (yield_shutdown-Ends m p f r),
  )

  pub Passes-yield : Passes 0x31 × (is_terminate p.reason ≡ true → Passes 0x131)
  Passes-yield = (
    elim optimized [
      | inl same ↦
          by_yield 0x31 0x30 (woken slack p ∷ [])
            (capture_of slack m cp (at_actions 0x31) false (at_actions 0x30) _ f
              (ap (λ q. capture_loop 10 slack here q []) same ∙ (Starts-yield 8 slack here p).0))
            (yield_resume-Ends m p f)
      | inr shorter ↦
          by_yield 0x31 0x60 []
            (capture_of slack m cp (at_actions 0x31) false (at_actions 0x60) [] f (
              ap (λ q. capture_loop 10 slack here q []) shorter ∙ (Starts-others 8 slack here p).0))
            (resume_continue-Ends m p f)
    ],
    λ r.
        by_yield 0x131 0x130 (woken slack p ∷ [])
          (captures 0x131 0x130 false _ refl (Starts-yield 8 slack here p).1)
          (yield_shutdown-Ends m p f r),
  )

  pub Passes-fini :
      (cp.type_id == event_task_fini) ≡ true
      → Passes 1 × (is_terminate p.reason ≡ true → Passes 0x101)
  unfolding plan_next
  Passes-fini t = (
    Returns_of UsedUp {m = pass slack m cp (at_actions 1)} (at_plan m p 0, woken slack p ∷ [])
        (after_last (cp.type_id == event_task_fini) (capture false slack m cp (at_actions 1))
          (λ q. return_from q cp) resume (at_plan m p 0) (woken slack p ∷ []) t
          (captures 1 0 true _ refl (Starts-fini 8 slack here p t)))
        refl,
    λ r.
        by_yield 0x101 0x100 (woken slack p ∷ [])
          (captures 0x101 0x100 false _ refl (Starts-others 8 slack here p).2)
          (shutdown-Ends m p f r),
  )

  pub Passes-shutdown : is_terminate p.reason ≡ true → Passes 0x100
  Passes-shutdown r =
      by_yield 0x100 0x100 [] (captures 0x100 0x100 false _ refl (Starts-others 8 slack here p).1)
        (shutdown-Ends m p f r)
