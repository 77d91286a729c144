-- ===== src/Api/Execution.antt =====
-- sleepinfoexecution_types.go: operations and phases of a SleepInfoExecution.
use kube_green.Base.{Bool, String, ◌==◌, ◌||◌}
use kube_green.Api.{SleepInfoExecution}

abbrev pub execution_op_sleep : String
execution_op_sleep = "SLEEP"

abbrev pub execution_op_wake : String
execution_op_wake = "WAKE_UP"

abbrev pub execution_phase_pending : String
execution_phase_pending = "Pending"

abbrev pub execution_phase_succeeded : String
execution_phase_succeeded = "Succeeded"

abbrev pub execution_phase_failed : String
execution_phase_failed = "Failed"

abbrev pub execution_phase_skipped : String
execution_phase_skipped = "Skipped"

unfoldable pub is_processed : SleepInfoExecution → Bool
is_processed s =
    s.status.phase == execution_phase_succeeded
    || s.status.phase == execution_phase_failed
    || s.status.phase == execution_phase_skipped
