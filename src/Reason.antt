-- ===== src/Reason.antt =====
-- Why a run ends or a task is picked, and which reasons end a run (include/lotto/base/reason.h,
-- src/base/reason.c).
use lotto.Base.{Bool, true, false, ◌||◌, ◌≡◌, arith}

pub data Reason : Type 0 where
  unknown deterministic nondeterministic blocking watchdog sys_yield user_yield user_order
        assert_fail rsrc_deadlock segfault segv_accerr sigint sigabrt sigterm sigkill success ignore
        abort shutdown runtime_segfault runtime_segv_accerr runtime_sigint runtime_sigabrt
        runtime_sigterm runtime_sigkill impasse :
      Reason

unfoldable pub is_runtime : Reason → Bool
is_runtime runtime_segfault = true
is_runtime runtime_sigint = true
is_runtime runtime_sigabrt = true
is_runtime runtime_sigterm = true
is_runtime runtime_sigkill = true
is_runtime runtime_segv_accerr = true
is_runtime _ = false

unfoldable pub is_shutdown : Reason → Bool
is_shutdown shutdown = true
is_shutdown success = true
is_shutdown ignore = true
is_shutdown _ = false

unfoldable pub is_abort : Reason → Bool
is_abort assert_fail = true
is_abort rsrc_deadlock = true
is_abort segfault = true
is_abort sigint = true
is_abort sigabrt = true
is_abort abort = true
is_abort runtime_segfault = true
is_abort runtime_sigint = true
is_abort runtime_sigabrt = true
is_abort impasse = true
is_abort sigterm = true
is_abort runtime_sigterm = true
is_abort sigkill = true
is_abort runtime_sigkill = true
is_abort segv_accerr = true
is_abort runtime_segv_accerr = true
is_abort _ = false

unfoldable pub is_terminate : Reason → Bool
unfolding is_shutdown is_abort
is_terminate r = is_shutdown r || is_abort r

unfoldable pub is_record_final : Reason → Bool
is_record_final success = true
is_record_final assert_fail = true
is_record_final shutdown = true
is_record_final abort = true
is_record_final _ = false

-- A reason of the runtime aborts, and no reason both aborts and shuts down.
pub is_abort_of_runtime : (r : Reason) → is_runtime r ≡ true → is_abort r ≡ true
unfolding is_runtime is_abort
is_abort_of_runtime r h = ground arith

pub not_both : (r : Reason) → is_shutdown r ≡ true → is_abort r ≡ false
unfolding is_shutdown is_abort
not_both r h = ground arith
