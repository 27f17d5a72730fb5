-- ===== src/Sequencer.antt =====
-- The sequencer of src/engine/sequencer.c: at each capture point it asks the handlers, picks the next
-- task and lays down the plan; when a task resumes it decides what to record.
--
-- The state is the static `_seq`; its counters are unbounded here. The handlers (the subscribers of
-- the capture chain), the value of the random generator and the answer of the recorder are
-- arguments. `LOTTO_SEQUENCER_CONTINUE`, `QLOTTO_ENABLED` and `LOTTO_TEST` are not defined.
use Prim.Native.Nat.{bit_and, bit_or}
use lotto.Base.{
  ℕ, zero, suc, ◌+◌, ◌*◌, ◌-◌, ◌%◌, Bool, true, false, not, ◌&&◌, ◌||◌, List, [], ◌∷◌, ltb, leb,
  ◌==◌, if◌then◌else◌, Outcome, ok, fault, assert_failed, ◌>>=◌, ◌>>◌, assert,
}
use lotto.Base.Words.{no_task, any_task}
use lotto.Reason
use lotto.Reason.{Reason, unknown, deterministic, is_terminate}
use lotto.Plan.{
  Plan, ReplayType, replay_off, replay_any_task, replay_on, action_wake, action_block,
  action_return, action_yield, action_resume, action_shutdown, plan_next,
}
use lotto.Tidset
use lotto.Tidset.{Tidset, insert, size, get, clear}
pub mod Capture
pub mod Select
pub mod Pending
pub mod Record
mod Tests

-- include/lotto/runtime/events.h
abbrev pub event_task_init : ℕ
event_task_init = 170

abbrev pub event_task_fini : ℕ
event_task_fini = 171

abbrev pub event_task_create : ℕ
event_task_create = 172

pub record CapturePoint : Type 0 where
  pub id : ℕ
  pub type_id : ℕ
  pub blocking : Bool

pub data Selector : Type 0 where
  undefined random first : Selector

pub record Decision : Type 0 where
  pub clk : ℕ
  pub is_chpt : Bool
  pub next : ℕ
  pub tset : Tidset
  pub unblocked : Tidset
  pub reason : Reason
  pub selector : Selector
  pub should_record : Bool
  pub replay : Bool
  pub filtered : Bool

pub record Sequencer : Type 0 where
  pub clk : ℕ
  pub unblocked : Tidset
  pub pending : Tidset
  pub chpt_count : ℕ
  pub switch_count : ℕ
  pub last_chpt : Bool
  pub prev_type : ℕ
  pub prev_task : ℕ
  pub next_task : ℕ
  pub prev_blocking : Bool
  pub should_record : Bool

pub record Config : Type 0 where
  pub gran : ℕ
  pub slack : ℕ

-- `last_chpt` is left as it was.
unfoldable pub reset : Sequencer → Sequencer
unfolding Tidset.init
reset s = record s {
  clk = 0;
  unblocked = Tidset.init;
  pending = Tidset.init;
  chpt_count = 0;
  switch_count = 0;
  prev_type = 0;
  prev_task = no_task;
  next_task = no_task;
  prev_blocking = false;
  should_record = false;
}

-- The loop of `update_unblocked` over the pending ids.
unfoldable pub insert_pending : Tidset → List ℕ → Outcome Tidset
insert_pending t [] = ok t
insert_pending t (id ∷ ids) = do (t', added) ← insert t id; assert added; insert_pending t' ids

unfoldable pub update_unblocked : Sequencer → Outcome Sequencer
unfolding insert_pending clear
update_unblocked s = do
  t ← insert_pending s.unblocked s.pending.tasks
  ok (record s { unblocked = t; pending = clear s.pending })

unfoldable pub add_pending_unblocked : Sequencer → ℕ → Outcome Sequencer
add_pending_unblocked s id = do
  (t, added) ← insert s.pending id
  assert added
  ok (record s { pending = t })

-- src/engine/prng.c: `v` is what `prng_next` returns.
unfoldable pub prng_range : ℕ → ℕ → ℕ → Outcome ℕ
prng_range v min max = do assert (ltb min max); ok (min + v % (max - min))

-- The choice of `_dispatch_capture_event` by the selector, among a set that is not empty.
unfoldable pub choose : ℕ → Selector → Tidset → Outcome ℕ
unfolding prng_range
choose v first tset = get tset 0
choose v _ tset = do i ← prng_range v 0 (size tset); get tset i

-- SELECTOR_UNDEFINED becomes SELECTOR_RANDOM, which gives an unknown reason a name.
abbrev pub settled : Decision → Decision
settled e = record e {
  selector = elim e.selector [ first ↦ first | _ ↦ random ];
  reason = elim e.selector [
    | first ↦ e.reason
    | _ ↦ elim e.reason [ unknown ↦ deterministic | r ↦ r ]
  ];
}

-- `_dispatch_capture_event` after the handlers have run.
unfoldable pub select : ℕ → CapturePoint → Decision → Outcome (Decision × ℕ)
unfolding choose
select v cp e =
    if not e.is_chpt
    then (do assert ((e.next == no_task) || (e.next == cp.id)); ok (e, cp.id))
    else (if not (e.next == no_task)
        then ok (e, e.next)
        else (if size e.tset == 0
            then ok (e, any_task)
            else (do id ← choose v e.selector e.tset; ok (settled e, id))))

unfoldable pub dispatch :
    (CapturePoint → Decision → Outcome Decision)
    → ℕ
    → CapturePoint
    → Decision
    → Outcome (Decision × ℕ)
unfolding select
dispatch handlers v cp e = do e' ← handlers cp e; select v cp e'

abbrev pub wake_yield_resume : ℕ
wake_yield_resume = bit_or (bit_or action_wake action_yield) action_resume

abbrev pub blocking_actions : ℕ
blocking_actions =
    bit_or (bit_or (bit_or (bit_or action_wake action_block) action_return) action_yield)
      action_resume

abbrev pub create_actions : ℕ
create_actions = bit_or (bit_or action_block action_yield) action_resume

-- `_actions_for`
unfoldable pub actions_for : CapturePoint → ℕ → Decision → Outcome ℕ
actions_for cp next e =
    if cp.type_id == event_task_create
    then (do assert (e.replay || (next == any_task)); ok create_actions)
    else (if cp.type_id == event_task_init
        then (do assert (not (next == no_task)); ok wake_yield_resume)
        else (if cp.type_id == event_task_fini
            then (do assert (not (next == no_task)); ok action_wake)
            else (if cp.blocking
                then (do assert (not (next == no_task)); ok blocking_actions)
                else ok wake_yield_resume)))
