-- ===== src/Mediator.antt =====
-- The mediator of src/runtime/mediator.c: it carries out the plan of a capture point, some actions
-- before the task blocks or yields, the rest when it resumes.
--
-- The plan of the capture is an argument (`engine_capture`), and calls of the switcher and of the
-- engine are listed as effects. Whether the thread is retired is an argument too.
use Prim.Native.Nat.{bit_or}
use lotto.Base.{
  ℕ, zero, suc, ◌*◌, Bool, true, false, not, ◌&&◌, ◌||◌, List, [], ◌∷◌, ◌++◌, ◌==◌, if◌then◌else◌,
  Outcome, ok, fault, assert_failed, fatal, out_of_fuel, ◌>>=◌, ◌>>◌, assert,
}
use lotto.Base.Words.{no_task}
use lotto.Reason.{Reason, is_shutdown, is_abort}
use lotto.Plan.{
  Plan, ReplayType, replay_any_task, plan_next, plan_done, plan_has, action_wake, action_block,
  action_return, action_yield, action_resume, action_continue, action_shutdown, action_none,
}
use lotto.Sequencer.{CapturePoint, event_task_create, event_task_fini, wake_yield_resume}
pub mod Protocol
pub mod Shapes
pub mod Carried
mod Tests

pub data Optimization : Type 0 where
  optimize_none same_task_except_any same_task : Optimization

pub record Mediator : Type 0 where
  pub id : ℕ
  pub plan : Plan
  pub finito : Bool
  pub optimization : Optimization

pub data Status : Type 0 where
  mediator_ok mediator_abort mediator_shutdown : Status

-- `wake` carries the slack in nanoseconds, `yield` whether there is a filter.
pub data Effect : Type 0 where
  wake : ℕ → ℕ → Effect
  yield : ℕ → Bool → Effect
  resume_engine : Effect
  return_engine : Effect

abbrev pub now_millisecond : ℕ
now_millisecond = 1000000

abbrev is_any : ReplayType → Bool
is_any replay_any_task = true
is_any _ = false

-- `_plan_optimize`
unfoldable pub plan_optimize : Plan → CapturePoint → Optimization → Plan
plan_optimize p cp optimization =
    if not (p.next == cp.id) || not (p.actions == wake_yield_resume) then p else elim optimization [
      | optimize_none ↦ p
      | same_task_except_any ↦
          if is_any p.replay_type
          then p
          else record p { actions = bit_or action_resume action_continue }
      | same_task ↦ record p { actions = bit_or action_resume action_continue }
    ]

-- The loop of `mediator_capture`: its result, the plan that is left, and the effects.
unfoldable pub capture_loop :
    ℕ → ℕ → CapturePoint → Plan → List Effect → Outcome (Bool × Plan × List Effect)
unfolding plan_next plan_done
capture_loop zero slack cp p done = fault out_of_fuel
capture_loop (suc fuel) slack cp p done =
    let a = plan_next p in
    let (p', last) = plan_done p in
    let woken = done ++ wake p.next (if p.with_slack then slack * now_millisecond else 0) ∷ [] in
    let rest = capture_loop fuel slack cp p' woken in
    if a == action_wake
    then (if last then (do assert (cp.type_id == event_task_fini); ok (true, p', woken)) else rest)
    else (if a == action_block
        then (if last then fault fatal else ok (true, p', done))
        else (if (a == action_continue)
              || ((a == action_yield) || ((a == action_resume) || (a == action_shutdown)))
            then ok (false, p, done)
            else fault fatal))

unfoldable pub capture :
    Bool → ℕ → Mediator → CapturePoint → Plan → Outcome (Bool × Mediator × List Effect)
unfolding plan_optimize capture_loop
capture retired slack m cp p = do
  assert (not m.finito)
  let cp' = record cp { id = m.id }
  if retired then ok (false, m, []) else (do
    (blocks, left, effects) ← capture_loop 10 slack cp' (plan_optimize p cp' m.optimization) []
    ok (blocks, record m { plan = left }, effects))

-- The loop of `mediator_resume`.
unfoldable pub resume_loop :
    ℕ → ℕ → Plan → Status → List Effect → Outcome (Status × Plan × List Effect)
unfolding plan_next plan_done is_shutdown is_abort
resume_loop zero id p st done = fault out_of_fuel
resume_loop (suc fuel) id p st done =
    let a = plan_next p in
    let (p', last) = plan_done p in
    let go = λ (st' : Status) (effects : List Effect).
      let rest = resume_loop fuel id p' st' effects in
      if last then ok (st', p', effects) else rest in
    if a == action_yield
    then go st (done ++ yield id p.filtered ∷ [])
    else (if a == action_resume
        then go st (done ++ resume_engine ∷ [])
        else (if a == action_shutdown
            then (do
              assert (is_shutdown p.reason || is_abort p.reason)
              go (if is_shutdown p.reason then mediator_shutdown else mediator_abort) done)
            else (if a == action_continue then go st done else fault fatal)))

unfoldable pub resume : Mediator → Outcome (Status × Mediator × List Effect)
unfolding resume_loop plan_has plan_next
resume m = do
  assert (not m.finito)
  assert (
      plan_has m.plan action_resume
      || (plan_has m.plan action_continue || plan_has m.plan action_shutdown))
  (st, left, effects) ← resume_loop 10 m.id m.plan mediator_ok []
  assert (plan_next left == action_none)
  ok (st, record m { plan = left }, effects)

-- `mediator_return`
unfoldable pub return_from : Mediator → CapturePoint → Outcome (Mediator × List Effect)
unfolding plan_next plan_done
return_from m cp = do
  assert (not m.finito)
  if cp.type_id == event_task_create
      then (do
        assert ((plan_next m.plan == action_resume) || (plan_next m.plan == action_yield))
        ok (m, []))
      else (do
        assert (plan_next m.plan == action_return)
        ok (record m { plan = (plan_done m.plan).0 }, return_engine ∷ []))

-- `mediator_fini`
unfoldable pub fini : Mediator → Outcome Mediator
fini m = do assert (not m.finito); ok (record m { finito = true })
