-- ===== src/Sequencer/Capture.antt =====
-- `sequencer_capture` and `sequencer_return` of src/engine/sequencer.c.
use Prim.Native.Nat.{bit_or}
use lotto.Base.{
  ℕ, ◌+◌, Bool, true, false, not, ◌&&◌, ◌||◌, [], ltb, ◌==◌, if◌then◌else◌, Outcome, ok, fault,
  assert_failed, ◌>>=◌, ◌>>◌, assert,
}
use lotto.Base.Words.{no_task, any_task}
use lotto.Reason.{unknown, is_terminate}
use lotto.Plan.{
  Plan, ReplayType, replay_off, replay_any_task, replay_on, action_wake, action_shutdown, plan_next,
}
use lotto.Sequencer.{
  CapturePoint, Decision, Sequencer, Config, undefined, dispatch, actions_for, update_unblocked,
  add_pending_unblocked,
}
use lotto.Sequencer.Record.{granularity_should_record}

-- include/lotto/engine/recorder.h
pub data Status : Type 0 where
  replay_done replay_load replay_force replay_cont replay_next replay_last : Status

pub record Replay : Type 0 where
  pub status : Status
  pub id : ℕ

abbrev pub is_done : Status → Bool
is_done replay_done = true
is_done _ = false

-- The decision that the handlers are given; its set of tasks is empty.
abbrev pub asked : Sequencer → Replay → Decision
asked s ry = record {
  clk = s.clk;
  is_chpt = false;
  next = no_task;
  tset = record { allocated = false; tasks = []; capacity = 0 };
  unblocked = s.unblocked;
  reason = unknown;
  selector = undefined;
  should_record = false;
  replay = not (is_done ry.status);
  filtered = false;
}

-- The `switch` over the replay status: the task that runs next.
unfoldable pub replayed : Config → CapturePoint → Replay → ℕ → Outcome ℕ
replayed config cp ry next = elim ry.status [
  | replay_done ↦ ok next
  | replay_load ↦ do assert ((next == any_task) || ((next == ry.id) || cp.blocking)); ok ry.id
  | replay_force ↦ ok ry.id
  | replay_cont ↦ ok (if ltb 0 config.slack && cp.blocking then cp.id else next)
  | _ ↦ fault assert_failed
]

abbrev pub replay_type_of : Decision → ℕ → ReplayType
replay_type_of e next =
    if not e.replay then replay_off else (if next == any_task then replay_any_task else replay_on)

-- The actions of the plan, with the shutdown that a terminating reason asks for.
unfoldable pub plan_actions : CapturePoint → ℕ → Decision → Outcome ℕ
unfolding actions_for is_terminate
plan_actions cp next e =
    if is_terminate e.reason
    then (if not (next == cp.id)
        then ok action_shutdown
        else (do actions ← actions_for cp next e; ok (bit_or actions action_shutdown)))
    else actions_for cp next e

abbrev pub planned : Decision → CapturePoint → ℕ → ℕ → ℕ → ReplayType → Plan
planned e cp clk next actions replay_type = record {
  actions = actions;
  next = next;
  with_slack = cp.blocking && not e.replay;
  reason = e.reason;
  replay_type = replay_type;
  clk = clk;
  filtered = e.filtered;
}

-- What is kept for the resumption, and the counters.
abbrev pub tracked : Sequencer → CapturePoint → Decision → ℕ → Bool → Sequencer
tracked s cp e next records = record s {
  should_record = records;
  next_task = next;
  prev_type = cp.type_id;
  prev_blocking = cp.blocking;
  chpt_count = s.chpt_count + (if e.is_chpt then 1 else 0);
  last_chpt = e.is_chpt;
  switch_count = s.switch_count + (if s.prev_task == cp.id then 0 else 1);
  prev_task = cp.id;
  unblocked = record s.unblocked { tasks = [] };
}

-- `ry` is what `recorder_replay` returns and `v` what `prng_next` would.
unfoldable pub capture :
    Config
    → (CapturePoint → Decision → Outcome Decision)
    → Replay
    → ℕ
    → Sequencer
    → CapturePoint
    → Outcome (Sequencer × Plan)
unfolding dispatch replayed plan_actions granularity_should_record plan_next
capture config handlers ry v s cp = do
  assert (not (cp.id == no_task))
  s' ← update_unblocked (record s { clk = s.clk + 1 })
  (e, picked) ← dispatch handlers v cp (asked s' ry)
  next ← replayed config cp ry picked
  actions ← plan_actions cp next e
  let p = planned e cp s'.clk next actions (replay_type_of e picked)
  assert (not (plan_next p == action_wake) || not (p.next == no_task))
  records ← if e.should_record then ok true else granularity_should_record config cp e next
  ok (tracked s' cp e next records, p)

unfoldable pub return_from : Sequencer → CapturePoint → Outcome Sequencer
unfolding add_pending_unblocked
return_from s cp = do assert cp.blocking; add_pending_unblocked s cp.id
