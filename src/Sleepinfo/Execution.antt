-- ===== src/Sleepinfo/Execution.antt =====
-- sleepinfoexecution_controller.go: an operation on demand.
pub mod Outcomes
use kube_green.Base.{Bool, false, not, ◌&&◌, ◌==◌, String, ◌<>◌, Option, none, some}
use kube_green.Base.{
  Result, ok, err, message, is_not_found, ignore_not_found, nat_eq, length, if◌then◌else◌,
}
use kube_green.Base.Clock.{Time}
use kube_green.Base.Exec.{Exec, lift}
use kube_green.Api.{SleepInfo, SleepInfoExecution}
use kube_green.Api.Execution.{
  is_processed, execution_op_sleep, execution_op_wake, execution_phase_failed,
  execution_phase_skipped, execution_phase_succeeded,
}
use kube_green.Cluster.{Secret, Client, Platform}
use kube_green.JsonPatch.{ManagedResources}
use kube_green.JsonPatch.Resources.{has_resource}
use kube_green.JsonPatch.Sleep.{sleep}
use kube_green.JsonPatch.WakeUp.{wake_up}
use kube_green.Sleepinfo.{
  Settings, SleepInfoData, is_sleep_operation, is_wake_up_operation, last_operation_key,
  sleep_operation,
}
use kube_green.Sleepinfo.Data.{get_sleep_info_data, apply_execution_override, text_at}
use kube_green.Sleepinfo.Secrets.{upsert_secret, get_secret_name}
use kube_green.Sleepinfo.Reconcile.{
  read_secret_of, load_resources, after_operation_call, handle_sleep_info_status,
}
use kube_green.Sleepinfo.Flow.{
  Outcome, failed, finished, next, return, Flow, or_return, stop_with, continue_with, run, ◌>>=◌,
  ◌>>◌,
}

-- `if StartTime == nil { StartTime = now }`
abbrev pub or_now : Option Time → Time → Option Time
or_now none now = some now
or_now (some t) now = some t

-- The execution with the status that is sent.
unfoldable pub with_status : SleepInfoExecution → Time → String → String → SleepInfoExecution
with_status execution now phase text = record execution {
  status = record {
    phase = phase;
    start_time = or_now execution.status.start_time now;
    completion_time = some now;
    message = text;
  };
}

-- The operation type that the secret holds.
unfoldable pub is_asleep : Option Secret → Bool
is_asleep none = false
is_asleep (some secret) = elim secret.data_map [
  | none ↦ false
  | some secret_data ↦ text_at last_operation_key secret_data == sleep_operation
]

-- The two guards: the message of the one that holds.
unfoldable pub guard_message : String → Bool → Option String
guard_message operation asleep =
    if operation == execution_op_wake && not asleep
    then some "resources are not asleep, nothing to wake up"
    else if operation == execution_op_sleep && asleep
    then some "resources are already asleep"
    else none

module _ {Object W : Type 0} (client : Client Object W) where
  unfoldable pub update_execution_status :
      SleepInfoExecution → Time → String → String → Exec W (Unit {0})
  unfolding with_status
  update_execution_status execution now phase text =
      client.update_execution_status (with_status execution now phase text)

  unfoldable pub owner_updated :
      SleepInfoExecution → Result SleepInfoExecution → Exec W SleepInfoExecution
  owner_updated execution (err e) w = (err e, w)
  owner_updated execution (ok owned) w =
      if nat_eq (length owned.owner_references) (length execution.owner_references)
      then (ok owned, w)
      else client.update_execution owned w

  -- `setOwnerReference`, with the execution after it.
  unfoldable pub set_owner_reference : SleepInfoExecution → SleepInfo → Exec W SleepInfoExecution
  unfolding owner_updated
  set_owner_reference execution sleep_info =
      owner_updated execution (client.set_owner_reference sleep_info execution)

module _ {Object Value Operations Schedule W : Type 0}
    (p : Platform Object Value Operations Schedule W) (r : Settings) where
  open p use {cron, codec, objects, client, metrics}

  -- The execution of the request, if it is there and not over.
  unfoldable pub fetch_execution : String → String → Flow W SleepInfoExecution
  fetch_execution namespace name w = elim (client.get_execution namespace name w) [
    | err e ↦ (return (record finished { error = ignore_not_found (some e) }), w)
    | ok execution ↦ (if is_processed execution then return finished else next execution, w)
  ]

  abbrev pub finish : SleepInfoExecution → Time → String → String → {A : Type 0} → Flow W A
  finish execution now phase text {A} =
      stop_with (update_execution_status client execution now phase text)

  -- The SleepInfo that the execution names.
  unfoldable pub fetch_target : Time → String → SleepInfoExecution → Flow W SleepInfo
  fetch_target now namespace execution w =
      elim (client.get_sleep_info namespace execution.spec.sleep_info_name w) [
        | ok sleep_info ↦ (next sleep_info, w)
        | err e ↦
            if is_not_found e
            then finish execution now execution_phase_failed
                ("SleepInfo \""
                  <> (execution.spec.sleep_info_name
                      <> ("\" not found in namespace \"" <> (namespace <> "\""))))
                w
            else (return (failed e), w)
      ]

  unfoldable pub check_guards : Time → SleepInfoExecution → Option String → Flow W (Unit {0})
  check_guards now execution none = continue_with tt
  check_guards now execution (some text) = finish execution now execution_phase_skipped text

  unfoldable pub override : Time → SleepInfoExecution → Result SleepInfoData → Flow W SleepInfoData
  override now execution (ok info) = continue_with info
  override now execution (err e) = finish execution now execution_phase_failed (message e)

  -- The `switch` on the operation, which has no default.
  unfoldable pub perform :
      SleepInfoData → ManagedResources Object W → Flow W (ManagedResources Object W)
  perform info resources w =
      if is_sleep_operation info
      then after_operation_call p r failed (sleep p resources w)
      else if is_wake_up_operation info
      then after_operation_call p r failed (wake_up p resources w)
      else (next resources, w)

  -- When there are resources: the operation, the secret, and the two statuses.
  unfoldable pub execute_on_resources :
      Time
      → String
      → SleepInfoExecution
      → SleepInfo
      → Option Secret
      → SleepInfoData
      → ManagedResources Object W
      → Flow W Outcome
  unfolding perform
  execute_on_resources now namespace execution sleep_info secret info resources = do
    resources' ← perform info resources
    or_return failed (
        upsert_secret codec client r now (get_secret_name sleep_info.name) namespace sleep_info
          secret info resources')
    or_return failed
        (handle_sleep_info_status client now sleep_info info.current_operation_type resources')
    finish execution now execution_phase_succeeded
        ("operation " <> (execution.spec.operation <> " executed"))

  -- From the guards on.
  unfoldable pub execute_guarded :
      Time → String → SleepInfoExecution → SleepInfo → Option Secret → Flow W Outcome
  unfolding check_guards override
  execute_guarded now namespace execution sleep_info secret = do
    check_guards now execution (guard_message execution.spec.operation (is_asleep secret))
    data_read ← or_return failed (lift (get_sleep_info_data codec secret sleep_info))
    info ←
        override now execution
          (apply_execution_override data_read execution.spec.operation sleep_info)
    resources ← or_return failed (load_resources p r sleep_info namespace info)
    if has_resource resources
        then execute_on_resources now namespace execution sleep_info secret info resources
        else finish execution now execution_phase_skipped "no resources to handle in namespace"

  unfoldable pub reconcile_flow : Time → String → String → Flow W Outcome
  unfolding fetch_execution fetch_target
  reconcile_flow now namespace name = do
    execution ← fetch_execution namespace name
    sleep_info ← fetch_target now namespace execution
    owned ← or_return failed (set_owner_reference client execution sleep_info)
    secret ← or_return failed (read_secret_of p r namespace sleep_info.name)
    execute_guarded now namespace owned sleep_info secret

  -- `SleepInfoExecutionReconciler.Reconcile` at an instant of its clock.
  unfoldable pub reconcile : Time → String → String → W → Outcome × W
  unfolding reconcile_flow
  reconcile now namespace name w = run (reconcile_flow now namespace name) w
