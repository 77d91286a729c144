-- ===== src/Sleepinfo.antt =====
-- internal/controller/sleepinfo: the constants of the package, the data of one reconciliation and
-- the settings of the reconciler. The operations are in the modules below.
pub mod Schedule
pub mod OldSecret
pub mod Data
pub mod Secrets
pub mod Flow
pub mod Reconcile
pub mod Execution
pub mod Runs
pub mod Restored
use kube_green.Base.{Bool, String, ◌==◌, Option}
use kube_green.Base.Int.{ℤ}
use kube_green.Base.Dict.{Dict}
use kube_green.Base.Clock.{Time}
use kube_green.Libraries.{RestorePatches}

abbrev pub last_schedule_key : String
last_schedule_key = "scheduled-at"

abbrev pub last_operation_key : String
last_operation_key = "operation-type"

abbrev pub original_json_patch_data_key : String
original_json_patch_data_key = "original-resource-info"

abbrev pub replicas_before_sleep_key : String
replicas_before_sleep_key = "deployment-replicas"

abbrev pub original_cronjob_status_key : String
original_cronjob_status_key = "cronjobs-info"

abbrev pub sleep_operation : String
sleep_operation = "SLEEP"

abbrev pub wake_up_operation : String
wake_up_operation = "WAKE_UP"

pub record SleepInfoData : Type 0 where
  pub last_schedule : Time
  pub current_operation_type : String
  pub current_operation_schedule : String
  pub next_operation_schedule : String
  -- `none` is the nil map
  pub original_generic_resource_info : Option (Dict RestorePatches)

abbrev pub is_wake_up_operation : SleepInfoData → Bool
is_wake_up_operation s = s.current_operation_type == wake_up_operation

abbrev pub is_sleep_operation : SleepInfoData → Bool
is_sleep_operation s = s.current_operation_type == sleep_operation

-- The fields of `SleepInfoReconciler` that are values.
pub record Settings : Type 0 where
  pub sleep_delta : ℤ
  pub manager_name : String
