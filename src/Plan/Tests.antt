-- ===== src/Plan/Tests.antt =====
-- A plan that is carried out.
use lotto.Base.{◌≡◌, refl, true, false, arith, [], ◌∷◌}
use lotto.Reason.{unknown}
use lotto.Plan.{Plan, replay_off}
use lotto.Plan.Order.{carried_out, carried_out_lem, sum, ascending}

abbrev blocking_plan : Plan
blocking_plan = record {
  actions = 0x3d;
  next = 2;
  with_slack = false;
  reason = unknown;
  replay_type = replay_off;
  clk = 1;
  filtered = false;
}

order : carried_out 9 blocking_plan ≡ 1 ∷ 4 ∷ 8 ∷ 16 ∷ 32 ∷ []
unfolding carried_out
order = refl

carried_out_lem_example :
    (sum (carried_out 9 blocking_plan) ≡ 0x3d) × (ascending 0 (carried_out 9 blocking_plan) ≡ true)
carried_out_lem_example = carried_out_lem blocking_plan (λ e. omega arith) (omega arith)
