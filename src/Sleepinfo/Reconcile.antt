-- ===== src/Sleepinfo/Reconcile.antt =====
-- sleepinfo_controller.go: `SleepInfoReconciler.Reconcile`.
pub mod Outcomes
pub mod Unlisted
use kube_green.Base.{true, String, ◌<>◌, Option, none, some, if◌then◌else◌}
use kube_green.Base.{
  Error, failure, Result, ok, err, annotate, is_not_found, ignore_not_found, ◌>>=◌ as bind,
}
use kube_green.Base.Int.{ℤ}
use kube_green.Base.Clock.{Time}
use kube_green.Base.Exec.{Exec, lift}
use kube_green.Libraries.{Cron}
use kube_green.Api.{SleepInfo}
use kube_green.Cluster.{Secret, Client, Platform}
use kube_green.Resource.{ResourceClient}
use kube_green.JsonPatch.{ManagedResources}
use kube_green.JsonPatch.Resources.{new_resources, has_resource}
use kube_green.JsonPatch.Sleep.{sleep}
use kube_green.JsonPatch.WakeUp.{wake_up}
use kube_green.Sleepinfo.{Settings, SleepInfoData, is_sleep_operation, is_wake_up_operation}
use kube_green.Sleepinfo.Schedule.{get_next_schedule, get_requeue_after}
use kube_green.Sleepinfo.Data.{get_sleep_info_data}
use kube_green.Sleepinfo.Secrets.{get_secret_name, upsert_secret}
use kube_green.Sleepinfo.Flow.{
  Outcome, failed, finished, again, after, Step, next, return, Flow, or_return, stop, run, ◌>>=◌,
  ◌>>◌,
}

-- A secret that is not found is nil.
abbrev pub secret_or_nil : Result Secret → Result (Option Secret)
secret_or_nil (ok secret) = ok (some secret)
secret_or_nil (err e) = elim (ignore_not_found (some e)) [ none ↦ ok none | some e' ↦ err e ]

unfoldable pub skip_wake_up_if_sleep_not_performed :
    {Schedule : Type 0} → Cron Schedule → String → Time → Time → Result ℤ
skip_wake_up_if_sleep_not_performed cron current_operation_cron_schedule next_schedule now =
    bind
      (annotate (λ m. failure ("fails to parse cron current schedule: " <> m))
        (cron.parse_standard current_operation_cron_schedule))
      (λ next_op_sched. ok (get_requeue_after (cron.next next_op_sched next_schedule) now))

module _ {Object W : Type 0} (client : Client Object W) where
  -- The SleepInfo with the status that is sent.
  unfoldable pub new_status : Time → SleepInfo → String → ManagedResources Object W → SleepInfo
  new_status now sleep_info current_operation_type resources = record sleep_info {
    status = record {
      last_schedule_time = now;
      operation_type = if has_resource resources then current_operation_type else "";
    };
  }

  unfoldable pub handle_sleep_info_status :
      Time → SleepInfo → String → ManagedResources Object W → Exec W (Unit {0})
  handle_sleep_info_status now sleep_info current_operation_type resources =
      client.update_sleep_info_status (new_status now sleep_info current_operation_type resources)

module _ {Object Value Operations Schedule W : Type 0}
    (p : Platform Object Value Operations Schedule W) (r : Settings) where
  open p use {cron, codec, objects, client, metrics}

  -- `getSleepInfo`
  abbrev pub get_sleep_info : String → String → W → Result SleepInfo
  get_sleep_info namespace name w = client.get_sleep_info namespace name w

  -- The SleepInfo of the request, and the gauge.
  unfoldable pub fetch_sleep_info : String → String → Flow W SleepInfo
  fetch_sleep_info namespace name w = elim (get_sleep_info namespace name w) [
    | ok sleep_info ↦ (next sleep_info, metrics.set_gauge name namespace 1 w)
    | err e ↦ (
      return (record finished { error = ignore_not_found (some e) }),
      if is_not_found e then metrics.delete_gauge name namespace w else w,
    )
  ]

  abbrev pub read_secret_of : String → String → Exec W (Option Secret)
  read_secret_of namespace name w =
      (secret_or_nil (client.get_secret namespace (get_secret_name name) w), w)

  abbrev pub resource_client : SleepInfo → ResourceClient Object W
  resource_client sleep_info = record {
    client = some client;
    sleep_info = some sleep_info;
    field_manager_name = r.manager_name;
  }

  abbrev pub load_resources :
      SleepInfo → String → SleepInfoData → Exec W (ManagedResources Object W)
  load_resources sleep_info namespace info w = (
    new_resources objects (resource_client sleep_info) namespace info.original_generic_resource_info
        w,
    w,
  )

  -- `ctrl.Result{Requeue: true}, err`
  abbrev retry : Error → Outcome
  retry e = record (failed e) { requeue = true }

  -- The result of `Sleep` or `WakeUp`, with the resources that it leaves.
  abbrev pub after_operation_call :
      (Error → Outcome)
      → Result (Unit {0}) × ManagedResources Object W × W
      → Step (ManagedResources Object W) × W
  after_operation_call handler (ok u, resources, w) = (next resources, w)
  after_operation_call handler (err e, resources, w) = (return (handler e), w)

  -- The `switch` on the operation.
  unfoldable pub perform_operation :
      SleepInfoData → ManagedResources Object W → Flow W (ManagedResources Object W)
  perform_operation info resources w =
      if is_sleep_operation info
      then after_operation_call retry (sleep p resources w)
      else if is_wake_up_operation info
      then after_operation_call retry (wake_up p resources w)
      else (
        return
            (failed (failure ("operation " <> (info.current_operation_type <> " not supported")))),
        w,
      )

  -- When the namespace has nothing to handle: the secret, and the next instant.
  unfoldable pub reconcile_nothing :
      Time
      → String
      → String
      → SleepInfo
      → Option Secret
      → SleepInfoData
      → ManagedResources Object W
      → Time
      → ℤ
      → Flow W Outcome
  reconcile_nothing now namespace name sleep_info secret info resources next_schedule
        requeue_after =
      do
        or_return (λ e. again)
            (upsert_secret codec client r now (get_secret_name name) namespace sleep_info secret
              info resources)
        if is_sleep_operation info
            then (do
              requeue_after' ←
                  or_return (λ e. finished)
                    (lift (
                      skip_wake_up_if_sleep_not_performed cron info.current_operation_schedule
                        next_schedule now))
              stop (after requeue_after'))
            else stop (after requeue_after)

  -- When it has: the operation, and then the secret.
  unfoldable pub reconcile_resources :
      Time
      → String
      → String
      → SleepInfo
      → Option Secret
      → SleepInfoData
      → ManagedResources Object W
      → ℤ
      → Flow W Outcome
  reconcile_resources now namespace name sleep_info secret info resources requeue_after = do
    resources' ← perform_operation info resources
    or_return (λ e. again)
        (upsert_secret codec client r now (get_secret_name name) namespace sleep_info secret info
          resources')
    stop (after requeue_after)

  -- From the decision to execute on.
  unfoldable pub execute_operation :
      Time → String → String → SleepInfo → Option Secret → SleepInfoData → Time → ℤ → Flow W Outcome
  execute_operation now namespace name sleep_info secret info next_schedule requeue_after = do
    resources ← or_return failed (load_resources sleep_info namespace info)
    or_return failed
        (handle_sleep_info_status client now sleep_info info.current_operation_type resources)
    if has_resource resources
        then reconcile_resources now namespace name sleep_info secret info resources requeue_after
        else reconcile_nothing now namespace name sleep_info secret info resources next_schedule
            requeue_after

  unfoldable pub reconcile_flow : Time → String → String → Flow W Outcome
  reconcile_flow now namespace name = do
    sleep_info ← fetch_sleep_info namespace name
    secret ← or_return failed (read_secret_of namespace name)
    info ← or_return failed (lift (get_sleep_info_data codec secret sleep_info))
    schedule ← or_return failed (lift (get_next_schedule cron r.sleep_delta info now))
    if schedule.is_to_execute
        then execute_operation now namespace name sleep_info secret info schedule.next_schedule
            schedule.requeue_after
        else stop (after schedule.requeue_after)

  -- `Reconcile` at an instant of its clock.
  unfoldable pub reconcile : Time → String → String → W → Outcome × W
  unfolding reconcile_flow
  reconcile now namespace name w = run (reconcile_flow now namespace name) w
