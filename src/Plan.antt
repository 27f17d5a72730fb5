-- ===== src/Plan.antt =====
-- The plan that the sequencer hands to the mediator: a set of actions that are carried out from the
-- lowest bit up (src/engine/plan.c, include/lotto/engine/plan.h).
use Prim.Native.Nat.{bit_and}
use lotto.Base.{
  ℕ, zero, suc, ◌+◌, ◌-◌, ◌*◌, Bool, true, false, not, Option, ltb, ◌==◌, if◌then◌else◌,
}
use lotto.Reason.{Reason}
pub mod Order
mod Tests

abbrev pub action_none : ℕ
action_none = 0x000

abbrev pub action_wake : ℕ
action_wake = 0x001

abbrev pub action_block : ℕ
action_block = 0x004

abbrev pub action_return : ℕ
action_return = 0x008

abbrev pub action_yield : ℕ
action_yield = 0x010

abbrev pub action_resume : ℕ
action_resume = 0x020

abbrev pub action_continue : ℕ
action_continue = 0x040

abbrev pub action_snapshot : ℕ
action_snapshot = 0x080

abbrev pub action_shutdown : ℕ
action_shutdown = 0x100

abbrev pub action_end : ℕ
action_end = 0x200

pub data ReplayType : Type 0 where
  replay_off replay_any_task replay_on : ReplayType

-- `filtered` says that `any_task_filter` is set.
pub record Plan : Type 0 where
  pub actions : ℕ
  pub next : ℕ
  pub with_slack : Bool
  pub reason : Reason
  pub replay_type : ReplayType
  pub clk : ℕ
  pub filtered : Bool

-- The loop of `plan_next` from the bit `i` on; below `action_end` there are nine bits.
unfoldable pub lowest : ℕ → ℕ → ℕ → ℕ
lowest zero actions i = action_none
lowest (suc fuel) actions i =
    let rest = lowest fuel actions (i * 2) in
    if ltb i action_end then (if not (bit_and actions i == 0) then i else rest) else action_none

abbrev pub next_action : ℕ → ℕ
next_action actions = lowest 10 actions 1

unfoldable pub plan_next : Plan → ℕ
unfolding lowest
plan_next p = next_action p.actions

-- `actions & ~a` on `unsigned`
abbrev pub clear_action : ℕ → ℕ → ℕ
clear_action actions a = bit_and actions (0xffff_ffff - a)

unfoldable pub plan_done : Plan → Plan × Bool
unfolding plan_next
plan_done p =
    let left = clear_action p.actions (plan_next p) in
    (record p { actions = left }, left == action_none)

unfoldable pub plan_has : Plan → ℕ → Bool
plan_has p a = bit_and p.actions a == a
