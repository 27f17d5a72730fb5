-- ===== src/Recorder/Tests.antt =====
-- Runs of the recorder, and the theorems at concrete runs (src/engine/recorder.c).
use lotto.Base.{
  ℕ, ◌≡◌, refl, true, false, List, [], ◌∷◌, ◌++◌, none, some, if◌then◌else◌, arith, ok, fault,
  fatal, ◌>>=◌, Returns,
}
use lotto.Reason.{success, is_record_final}
use lotto.TraceFlat.{Record}
use lotto.Sequencer.Capture.{Replay, replay_done, replay_load, replay_cont}
use lotto.Recorder.{
  Recorder, Capture, is_after_kind, is_ahead, replay_next, recorder_replay, save_info, load_record,
  unmarshal_record, is_state_kind, out, recorder_init, recorder_fini, exit_record,
}
use lotto.Recorder.Runs.{Entry, Ascend, record_all, replays, schedule, expected, replays-record_all}
use lotto.Recorder.Replays.{due, loadable, replayable, decides, Taken, replay_next-Taken}
use lotto.Recorder.Ends.{IsClosed, recorder_fini-Returns}

abbrev task : ℕ → Capture
task id = record { id = id; chain_id = 0; type_id = 7; pc = 100 }

abbrev at : ℕ → ℕ → Entry
at clk id = record { capture = task id; clk = clk; state = [] }

abbrev two_entries : List Entry
two_entries = at 1 5 ∷ at 3 6 ∷ []

two_entries-Ascend : Ascend 0 two_entries
two_entries-Ascend = (
  omega arith,
  (λ e. absurd (omega (arith, e))),
  (omega arith, (λ e. absurd (omega (arith, e))), tt),
)

schedule_runs :
    schedule 4 1 two_entries
    ≡ record { status = replay_load; id = 5 }
      ∷ record { status = replay_cont; id = 0 }
      ∷ record { status = replay_load; id = 6 }
      ∷ record { status = replay_done; id = 0 }
      ∷ []
unfolding schedule expected
schedule_runs = refl

replays-record_all_example :
    (do
      s ← record_all (λ r. true) two_entries (recorder_init none (some []))
      replays (λ r. true) 4 1 (recorder_init s.output none))
    ≡ ok (schedule 4 1 two_entries)
replays-record_all_example =
    replays-record_all (λ r. true) (λ r. refl) 4 two_entries two_entries-Ascend

abbrev of_kind : ℕ → ℕ → ℕ → Record
of_kind clk kind id = record {
  id = id;
  clk = clk;
  chain_id = 0;
  type_id = 0;
  reason = 0;
  kind = kind;
  pc = 0;
  data_bytes = [];
}

-- START and CONFIG of clock 0, the choice of clock 1, and the configuration behind it
abbrev trace : List Record
trace = of_kind 0 4 1 ∷ of_kind 0 16 1 ∷ of_kind 1 2 5 ∷ of_kind 1 16 5 ∷ of_kind 2 128 6 ∷ []

abbrev replaying : Recorder
replaying = record {
  input = some trace;
  output = some [];
  has_final = true;
  replay_clk = 0;
  record_clk = 0;
  finito = false;
  replay_ended = false;
  loaded = [];
  published = [];
}

abbrev undecided_yet : Replay
undecided_yet = record { status = replay_done; id = 0 }

first_clock_due : due 1 trace ≡ of_kind 0 4 1 ∷ of_kind 0 16 1 ∷ of_kind 1 2 5 ∷ []
unfolding due is_ahead is_after_kind
first_clock_due = refl

trace-replayable : replayable 1 true trace ≡ true
unfolding replayable loadable decides is_ahead is_after_kind
trace-replayable = refl

replay_next-Taken_example :
    Returns
      (replay_next (λ r. true) 1 trace replaying undecided_yet)
      (Taken (λ r. true) (λ r. refl) 1 trace replaying)
replay_next-Taken_example =
    replay_next-Taken (λ r. true) (λ r. refl) 1 trace replaying undecided_yet trace-replayable

-- An INFO record is saved, and the replay of the trace aborts.
info_not_replayed :
    (do
      s ← save_info (λ r. true) (recorder_init none (some [])) (of_kind 1 1 5)
      recorder_replay (λ r. true) 1 (recorder_init s.output none))
    ≡ fault fatal
unfolding save_info recorder_replay recorder_init replay_next load_record unmarshal_record
    is_state_kind out is_ahead is_after_kind
info_not_replayed = refl

recorder_fini-Returns_example :
    Returns (recorder_fini (λ r. true) 9 5 success 22 (1 ∷ []) [] replaying) (λ t.
      IsClosed (λ r. true) t
      × (t.output
          ≡ some ([] ++ exit_record 9 5 22 (if is_record_final success then 1 ∷ [] else []) ∷ [])))
recorder_fini-Returns_example =
    recorder_fini-Returns (λ r. true) replaying [] 9 5 success 22 (1 ∷ []) [] (λ r. refl) refl refl
      refl
