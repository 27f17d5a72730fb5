-- ===== src/Mediator/Tests.antt =====
-- A blocking capture point that is carried out by the mediator.
use lotto.Base.{◌≡◌, refl, true, false, [], ok, Returns}
use lotto.Reason.{unknown}
use lotto.Plan.{Plan, replay_off}
use lotto.Sequencer.{CapturePoint, Decision, random}
use lotto.Sequencer.Capture.{plan_actions}
use lotto.Mediator.{Mediator, optimize_none}
use lotto.Mediator.Protocol.{pass, UsedUp}
use lotto.Mediator.Carried.{pass-UsedUp}

abbrev point : CapturePoint
point = record { id = 1; type_id = 142; blocking = true }

abbrev laid_down : Plan
laid_down = record {
  actions = 0x3d;
  next = 2;
  with_slack = true;
  reason = unknown;
  replay_type = replay_off;
  clk = 1;
  filtered = false;
}

abbrev mediator : Mediator
mediator = record {
  id = 1;
  plan = record laid_down { actions = 0 };
  finito = false;
  optimization = optimize_none;
}

abbrev decision : Decision
decision = record {
  clk = 1;
  is_chpt = true;
  next = 2;
  tset = record { allocated = false; tasks = []; capacity = 0 };
  unblocked = record { allocated = false; tasks = []; capacity = 0 };
  reason = unknown;
  selector = random;
  should_record = false;
  replay = false;
  filtered = false;
}

asks : plan_actions point 2 decision ≡ ok 0x3d
unfolding plan_actions
asks = refl

pass-UsedUp_example : Returns (pass 10 mediator point laid_down) UsedUp
pass-UsedUp_example = pass-UsedUp 10 mediator point 2 decision laid_down refl refl asks
