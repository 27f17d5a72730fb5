-- ===== src/Event.antt =====
-- What a handler of a module reads of a capture point, and what it reads and writes of the sequencer's
-- decision (include/lotto/runtime/capture_point.h, include/lotto/engine/sequencer.h).
use lotto.Base.{ℕ, Bool}
use lotto.Reason.{Reason}
use lotto.Tidset.{Tidset}

-- `addr` is the address in the payload.
pub record CapturePoint : Type 0 where
  pub id : ℕ
  pub type_id : ℕ
  pub addr : ℕ

-- `filtered` says that `any_task_filter` is set, to the handler's `should_wait`.
pub record Decision : Type 0 where
  pub skip : Bool
  pub is_chpt : Bool
  pub filtered : Bool
  pub tset : Tidset
  pub reason : Reason
