-- ===== src/Recorder.antt =====
-- The recorder of src/engine/recorder.c: it feeds the records of the input trace to the state
-- manager, says at each clock what is replayed, and appends what is recorded to the output trace.
--
-- A trace is the list of its records (TraceFlat shows that a flat trace implements that list);
-- NULL is `none`. The state manager's records are logged in `loaded`, in their order, and its marshaled
-- states are arguments, so is the answer of `trace_append`. The clocks are unbounded here.

mod Out
mod Replays
mod Ends
mod Runs
mod Tests
use Prim.Native.Nat.{ℕ, zero, suc, ◌+◌, ◌-◌, bit_and}
use mathlib.Core.Bool.{Bool, true, false, not, ◌&&◌, ◌||◌}
use mathlib.Core.List.{List, [], ◌∷◌, ◌++◌}
use mathlib.Core.Option.{Option, none, some}
use lotto.Base.{◌==◌, ltb, leb, if◌then◌else◌, Outcome, ok, fault, fatal, assert, ◌>>=◌, ◌>>◌}
use lotto.Base.Words.{no_task}
use lotto.Reason.{Reason, is_record_final}
use lotto.TraceFlat.{Record, selects, record_any}
use lotto.Sequencer.Capture.{
  Status, replay_done, replay_load, replay_force, replay_cont, Replay, is_done,
}

-- include/lotto/base/record.h
abbrev pub record_none : ℕ
record_none = 0

abbrev pub record_info : ℕ
record_info = 1

abbrev pub record_sched : ℕ
record_sched = 2

abbrev pub record_start : ℕ
record_start = 4

abbrev pub record_exit : ℕ
record_exit = 8

abbrev pub record_config : ℕ
record_config = 16

abbrev pub record_opaque : ℕ
record_opaque = 64

abbrev pub record_force : ℕ
record_force = 128

-- What `recorder_record` reads of the capture point
pub record Capture : Type 0 where
  pub id : ℕ
  pub chain_id : ℕ
  pub type_id : ℕ
  pub pc : ℕ

-- The static `_recorder`, the ghost state of its contracts, the `once` of the end of the replay,
-- and what the recorder has handed on.
pub record Recorder : Type 0 where
  pub input : Option (List Record)
  pub output : Option (List Record)
  pub has_final : Bool
  pub replay_clk : ℕ
  pub record_clk : ℕ
  pub finito : Bool
  pub replay_ended : Bool
  pub loaded : List Record
  pub published : List Record

-- `IS_AFTER_KIND`
unfoldable pub is_after_kind : ℕ → Bool
is_after_kind kind = not (bit_and kind 20 == 0)

-- The record belongs to a clock that has not started.
unfoldable pub is_ahead : ℕ → Record → Bool
is_ahead clk r = ltb clk r.clk || (is_after_kind r.kind && r.clk == clk)

-- `data_bytes` is the marshaled persistent state.
abbrev pub sched_record : Capture → ℕ → List ℕ → Record
sched_record cp clk bytes = record {
  id = cp.id;
  clk = clk;
  chain_id = cp.chain_id;
  type_id = cp.type_id;
  reason = 0;
  kind = record_sched;
  pc = cp.pc;
  data_bytes = bytes;
}

abbrev pub exit_record : ℕ → ℕ → ℕ → List ℕ → Record
exit_record clk id reason_value bytes = record {
  id = id;
  clk = clk;
  chain_id = 0;
  type_id = 0;
  reason = reason_value;
  kind = record_exit;
  pc = 0;
  data_bytes = bytes;
}

-- The kinds that `statemgr_record_unmarshal` (src/engine/statemgr.c) has a case for; all others are
-- fatal, RECORD_INFO too.
unfoldable pub is_state_kind : ℕ → Bool
is_state_kind kind =
    (kind == record_sched)
    || (kind == record_force)
    || (kind == record_opaque)
    || (kind == record_exit)
    || (kind == record_start)
    || (kind == record_config)

-- `statemgr_record_unmarshal`: the record is logged, for what the state manager makes of it.
unfoldable pub unmarshal_record : Record → Recorder → Outcome Recorder
unmarshal_record r s =
    if is_state_kind r.kind then ok (record s { loaded = s.loaded ++ r ∷ [] }) else fault fatal

module _ (append_ok : Record → Bool) where
  -- `_recorder_out` and `_recorder_out_safe`, and `_recorder_out_clone` where the record is `r` itself
  unfoldable pub out : Recorder → Record → Outcome Recorder
  out s r = elim s.output [
    | none ↦ ok s
    | some l ↦ do
      assert (not (r.kind == record_none))
      assert (append_ok r)
      ok (record s { output = some (l ++ r ∷ []) })
  ]

  -- `statemgr_record_unmarshal` and the `switch` of `_recorder_replay_next`
  unfoldable pub load_record : ℕ → Record → Recorder → Replay → Outcome (Recorder × Replay)
  load_record clk r s ry = do
    s' ← unmarshal_record r s
    if r.kind == record_info
        then ok (record s' { published = s'.published ++ r ∷ [] }, ry)
        else if r.kind == record_force
        then (do
          assert (is_done ry.status)
          s'' ← out s' r
          ok (s'', record { status = replay_force; id = r.id }))
        else if r.kind == record_sched
        then ok (
          s',
          record { status = if is_done ry.status then replay_load else ry.status; id = r.id },
        )
        else if r.kind == record_opaque
        then ok (s', ry)
        else if r.kind == record_exit
        then ok (s', ry)
        else if r.kind == record_start
        then (do assert (clk == 1); s'' ← out s' r; ok (s'', ry))
        else if r.kind == record_config
        then (do s'' ← out s' r; ok (s'', ry))
        else fault fatal

  -- The loop of `_recorder_replay_next`; `trace_next` passes over records of no kind.
  unfoldable pub replay_next : ℕ → List Record → Recorder → Replay → Outcome (Recorder × Replay)
  replay_next clk [] s ry = ok (record s { input = none }, ry)
  replay_next clk (r ∷ rest) s ry = elim (selects r.kind record_any) [
    | false ↦ replay_next clk rest s ry
    | true ↦ do
      assert ((clk == 0) || leb (clk - 1) r.clk)
      elim (is_ahead clk r) [
        | true ↦ ok (
          record s { input = some (r ∷ rest) },
          if is_done ry.status then record ry { status = replay_cont } else ry,
        )
        | false ↦ do (s', ry') ← load_record clk r s ry; replay_next clk rest s' ry'
      ]
  ]

  unfoldable pub recorder_replay : ℕ → Recorder → Outcome (Recorder × Replay)
  recorder_replay clk s = do
    assert (not s.finito)
    let ticked = record s { replay_clk = s.replay_clk + 1 }
    assert (clk == ticked.replay_clk)
    let ry : Replay = record { status = replay_done; id = no_task }
    elim ticked.input [ none ↦ ok (ticked, ry) | some l ↦ replay_next clk l ticked ry ]

  unfoldable pub recorder_record : Capture → ℕ → List ℕ → Recorder → Outcome Recorder
  recorder_record cp clk bytes s = do
    assert (not s.finito)
    assert (not (cp.id == no_task))
    assert (ltb 0 clk)
    assert (ltb s.record_clk clk)
    let ticked = record s { record_clk = clk }
    assert (leb s.replay_clk clk)
    elim ticked.output [
      | none ↦ ok ticked
      | some l ↦ do
        s' ← out ticked (sched_record cp clk bytes)
        elim s'.input [ none ↦ ok (record s' { replay_ended = true }) | some more ↦ ok s' ]
    ]

  -- The subscriber to EVENT_ENGINE__INFO_RECORD_SAVE
  unfoldable pub save_info : Recorder → Record → Outcome Recorder
  save_info s r = do assert (r.kind == record_info); out s r

  -- `reason_value` is the number of the reason; the states are those of `STATE_TYPE_FINAL` and of
  -- `STATE_TYPE_EMPTY`.
  unfoldable pub recorder_fini : ℕ → ℕ → Reason → ℕ → List ℕ → List ℕ → Recorder → Outcome Recorder
  recorder_fini clk id reason reason_value final_state empty_state s = do
    assert (not s.finito)
    let ended = record s { finito = true }
    elim ended.output [
      | none ↦ ok ended
      | some l ↦ elim s.has_final [
        | false ↦ ok ended
        | true ↦ out ended (
            exit_record clk id reason_value
              (if is_record_final reason then final_state else empty_state))
      ]
    ]

-- `recorder_init`, behind the static initialization and the `STATEMGR_REGISTER` that allocates the
-- final record
unfoldable pub recorder_init : Option (List Record) → Option (List Record) → Recorder
recorder_init input output = record {
  input = input;
  output = output;
  has_final = true;
  replay_clk = 0;
  record_clk = 0;
  finito = false;
  replay_ended = false;
  loaded = [];
  published = [];
}

-- `recorder_set_clks`
unfoldable pub recorder_set_clks : ℕ → ℕ → Recorder → Recorder
recorder_set_clks replay_clk record_clk s = record s {
  replay_clk = replay_clk;
  record_clk = record_clk;
}
