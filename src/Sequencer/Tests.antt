-- ===== src/Sequencer/Tests.antt =====
-- The sequencer's theorems at concrete decisions.
use lotto.Base.{ℕ, ◌≡◌, true, false, [], ◌∷◌, ok, Returns, arith, ◌||◌}
use lotto.Base.Words.{no_task}
use lotto.Reason.{unknown}
use lotto.Tidset.{Tidset, has}
use lotto.Tidset.Valid
use lotto.Sequencer.{CapturePoint, Decision, Config, random, select, Sequencer, update_unblocked}
use lotto.Sequencer.Select.{Picks, select-Picks}
use lotto.Sequencer.Pending.{update_unblocked-Returns}
use lotto.Sequencer.Record.{granularity_should_record, wanted, granularity_should_record-wanted}

abbrev point : CapturePoint
point = record { id = 1; type_id = 142; blocking = false }

abbrev tasks : Tidset
tasks = record { allocated = true; tasks = 1 ∷ 2 ∷ 3 ∷ []; capacity = 4 }

abbrev decision : Decision
decision = record {
  clk = 3;
  is_chpt = true;
  next = no_task;
  tset = tasks;
  unblocked = tasks;
  reason = unknown;
  selector = random;
  should_record = false;
  replay = false;
  filtered = false;
}

tasks-IsValid : Valid.IsValid tasks
tasks-IsValid = record { distinct = λ x. ground arith; fits = omega arith; backed = λ e. cc }

select-Picks_example : Returns (select 11 point decision) (λ r. Picks point decision r.1)
select-Picks_example = select-Picks 11 point decision tasks-IsValid (λ e. cc)

abbrev config : Config
config = record { gran = 3; slack = 0 }

granularity_should_record-wanted_example :
    granularity_should_record config point decision 2 ≡ ok (wanted 3 point decision 2)
granularity_should_record-wanted_example =
    granularity_should_record-wanted config point decision 2 (omega arith)

abbrev waking : Tidset
waking = record { allocated = true; tasks = 4 ∷ 5 ∷ []; capacity = 4 }

abbrev state : Sequencer
state = record {
  clk = 3;
  unblocked = tasks;
  pending = waking;
  chpt_count = 0;
  switch_count = 0;
  last_chpt = false;
  prev_type = 0;
  prev_task = no_task;
  next_task = no_task;
  prev_blocking = false;
  should_record = false;
}

update_unblocked-Returns_example : Returns (update_unblocked state) (λ r.
    Valid.IsValid r.unblocked
    × ((x : ℕ) → has r.unblocked x ≡ (has waking x || has tasks x))
    × ((x : ℕ) → has r.pending x ≡ false))
update_unblocked-Returns_example =
    update_unblocked-Returns state tasks-IsValid (omega arith) (omega arith) (λ x. ground arith)
