-- ===== src/Sleepinfo/Data.antt =====
-- sleepinfodata.go: the operation that is next for a SleepInfo, and its override.
pub mod Operation
use kube_green.Base.{String, ◌<>◌, ◌==◌, ◌&&◌, not, Option, none, some, if◌then◌else◌}
use kube_green.Base.{Result, ok, err, failure, annotate, ◌>>=◌}
use kube_green.Base.Dict.{Dict, lookup}
use kube_green.Base.Clock.{zero_time}
use kube_green.Libraries.{Codec}
use kube_green.Api.{SleepInfo}
use kube_green.Api.Schedule.{get_sleep_schedule, get_wake_up_schedule}
use kube_green.Api.Execution.{execution_op_sleep, execution_op_wake}
use kube_green.Cluster.{Secret}
use kube_green.JsonPatch.Saved.{get_original_info_to_restore}
use kube_green.Sleepinfo.{
  SleepInfoData, last_schedule_key, last_operation_key, original_json_patch_data_key,
  sleep_operation, wake_up_operation,
}
use kube_green.Sleepinfo.OldSecret.{convert_old_secret_data_to_new_format}

-- `string(data[key])`
abbrev pub text_at : String → Dict String → String
text_at key secret_data = elim (lookup key secret_data) [ none ↦ "" | some text ↦ text ]

-- The data with no secret: a sleep.
unfoldable pub initial_data : String → String → SleepInfoData
initial_data sleep_schedule wake_up_schedule = record {
  last_schedule = zero_time;
  current_operation_type = sleep_operation;
  current_operation_schedule = sleep_schedule;
  next_operation_schedule = if wake_up_schedule == "" then sleep_schedule else wake_up_schedule;
  original_generic_resource_info = none;
}

-- The last test: after a sleep comes the wake up, if there is one.
unfoldable pub after_operation : String → String → String → SleepInfoData → SleepInfoData
after_operation last_operation sleep_schedule wake_up_schedule info =
    if last_operation == sleep_operation && not (wake_up_schedule == "")
    then record info {
      current_operation_schedule = wake_up_schedule;
      next_operation_schedule = sleep_schedule;
      current_operation_type = wake_up_operation;
    }
    else info

-- `none` where the secret, or its data, is nil
abbrev pub data_of : Option Secret → Option (Dict String)
data_of none = none
data_of (some secret) = secret.data_map

module _ (codec : Codec) where
  -- The rest, for a secret that has data.
  unfoldable pub read_secret_data : SleepInfo → String → String → Dict String → Result SleepInfoData
  read_secret_data sleep_info sleep_schedule wake_up_schedule secret_data = do
    original ←
        annotate
          (λ m. failure (
            "fails to set original resource info to restore in SleepInfo "
            <> (sleep_info.name <> (": " <> m))))
          (get_original_info_to_restore codec (lookup original_json_patch_data_key secret_data))
    converted ← convert_old_secret_data_to_new_format codec original secret_data
    last_schedule ←
        annotate (λ m. failure ("fails to parse scheduled-at: " <> m))
          (codec.parse_rfc3339 (text_at last_schedule_key secret_data))
    ok (
        after_operation (text_at last_operation_key secret_data) sleep_schedule wake_up_schedule
          (record (initial_data sleep_schedule wake_up_schedule) {
            last_schedule = last_schedule;
            original_generic_resource_info = some converted;
          }))

  unfoldable pub read_secret :
      SleepInfo → String → String → Option (Dict String) → Result SleepInfoData
  read_secret sleep_info sleep_schedule wake_up_schedule none =
      ok (initial_data sleep_schedule wake_up_schedule)
  read_secret sleep_info sleep_schedule wake_up_schedule (some secret_data) =
      read_secret_data sleep_info sleep_schedule wake_up_schedule secret_data

  unfoldable pub get_sleep_info_data : Option Secret → SleepInfo → Result SleepInfoData
  get_sleep_info_data secret sleep_info = do
    sleep_schedule ← get_sleep_schedule sleep_info
    wake_up_schedule ← get_wake_up_schedule sleep_info
    read_secret sleep_info sleep_schedule wake_up_schedule (data_of secret)

override_sleep : SleepInfoData → String → String → SleepInfoData
override_sleep info sleep_schedule wake_schedule = record info {
  current_operation_type = sleep_operation;
  current_operation_schedule = sleep_schedule;
  next_operation_schedule = if wake_schedule == "" then sleep_schedule else wake_schedule;
}

override_wake : SleepInfo → SleepInfoData → String → String → Result SleepInfoData
override_wake sleep_info info sleep_schedule wake_schedule =
    if wake_schedule == ""
    then err (
        failure
          ("SleepInfo \"" <> (sleep_info.name <> "\" has no wakeUpAt; WAKE_UP is not supported")))
    else ok (record info {
      current_operation_type = wake_up_operation;
      current_operation_schedule = wake_schedule;
      next_operation_schedule = sleep_schedule;
    })

unfoldable pub apply_execution_override : SleepInfoData → String → SleepInfo → Result SleepInfoData
unfolding override_sleep override_wake
apply_execution_override info op sleep_info = do
  sleep_schedule ← get_sleep_schedule sleep_info
  wake_schedule ← get_wake_up_schedule sleep_info
  if op == execution_op_sleep
      then ok (override_sleep info sleep_schedule wake_schedule)
      else if op == execution_op_wake
      then override_wake sleep_info info sleep_schedule wake_schedule
      else err (failure ("unknown execution operation \"" <> (op <> "\"")))
