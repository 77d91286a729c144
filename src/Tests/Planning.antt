-- ===== src/Tests/Planning.antt =====
-- The next operation for the working hours, and an override of it.
use kube_green.Sleepinfo.Data.{after_operation, read_secret, read_secret_data}
use kube_green.Sleepinfo.OldSecret.{convert_old_secret_data_to_new_format}
use kube_green.Base.{not, ◌&&◌, String, ◌==◌, none, some, ◌≡◌, ◌≢◌, ◌⊎◌, refl, inr, arith, eq_iff}
use kube_green.Base.{ok}
use kube_green.Base.Dict.{lookup, insert}
use kube_green.Api.Schedule.{
  get_sleep_schedule, get_wake_up_schedule, get_schedule_from_weekday_and_time,
}
use kube_green.Api.Execution.{execution_op_sleep, execution_op_wake}
use kube_green.JsonPatch.Saved.{get_original_info_to_restore}
use kube_green.Sleepinfo.Data.{get_sleep_info_data, apply_execution_override}
use kube_green.Sleepinfo.Data.Operation.{
  PlansFor, get_sleep_info_data-PlansFor, apply_execution_override-guarded,
  apply_execution_override-keeps,
}
use kube_green.Sleepinfo.Execution.{is_asleep, guard_message}
use kube_green.Sleepinfo.OldSecret.{convert_old_secret_data_to_new_format}
use kube_green.Tests.Sample.{encodings}
use kube_green.Tests.Cluster.{working_hours}
use kube_green.Tests.Storing.{sleep_plan, wake_up_plan, wake_up_read, kept_sleep, wakes_at}

pub reads_wake_up : get_sleep_info_data encodings (some kept_sleep) working_hours ≡ ok wake_up_read
unfolding get_sleep_info_data get_sleep_schedule get_schedule_from_weekday_and_time
    get_wake_up_schedule read_secret read_secret_data get_original_info_to_restore lookup insert
    convert_old_secret_data_to_new_format after_operation
reads_wake_up = refl

get_sleep_info_data-PlansFor_example :
    (sleep_schedule : String) × (wake_up_schedule : String) × (get_sleep_schedule working_hours
      ≡ ok sleep_schedule)
    × (get_wake_up_schedule working_hours ≡ ok wake_up_schedule)
    × PlansFor
        (is_asleep (some kept_sleep) && not (wake_up_schedule == ""))
        sleep_schedule
        wake_up_schedule
        wake_up_read
get_sleep_info_data-PlansFor_example =
    get_sleep_info_data-PlansFor encodings (some kept_sleep) working_hours wake_up_read
      reads_wake_up

passes : guard_message execution_op_wake (is_asleep (some kept_sleep)) ≡ none
unfolding guard_message is_asleep lookup insert
passes = refl

has_wake_up : get_wake_up_schedule working_hours ≢ ok ""
has_wake_up e = absurd (ground (arith, wakes_at, e, eq_iff "00 08 * * 1-5" ""))

apply_execution_override-guarded_example :
    apply_execution_override wake_up_read execution_op_wake working_hours ≡ ok wake_up_read
apply_execution_override-guarded_example =
    apply_execution_override-guarded encodings (some kept_sleep) working_hours wake_up_read
      execution_op_wake reads_wake_up passes (inr (refl, has_wake_up))

overrides : apply_execution_override sleep_plan execution_op_wake working_hours ≡ ok wake_up_plan
unfolding apply_execution_override get_sleep_schedule get_schedule_from_weekday_and_time
    get_wake_up_schedule
overrides = refl

apply_execution_override-keeps_example :
    (wake_up_plan.last_schedule ≡ sleep_plan.last_schedule)
    × (wake_up_plan.original_generic_resource_info ≡ sleep_plan.original_generic_resource_info)
    × (wake_up_plan.current_operation_type ≡ execution_op_wake)
    × ((execution_op_wake ≡ execution_op_sleep) ⊎ (execution_op_wake ≡ execution_op_wake))
apply_execution_override-keeps_example =
    apply_execution_override-keeps working_hours sleep_plan wake_up_plan execution_op_wake overrides
