-- ===== src/Sleepinfo/Runs/Scheduled.antt =====
-- How a run of `SleepInfoReconciler.Reconcile` changes the cluster.
use kube_green.Base.{String, Option, arith, inl, inr, Bool-cases, All}
use kube_green.Base.{if◌then◌else◌, Result-cases}
use kube_green.Base.Clock.{Time}
use kube_green.Base.Exec.{lift}
use kube_green.Base.Int.{ℤ}
use kube_green.Cluster.{Secret, Platform}
use kube_green.Api.{SleepInfo}
use kube_green.JsonPatch.{ManagedResources}
use kube_green.JsonPatch.Keeps.Namespace.{Reaching, sleep-Keeps, wake_up-Keeps}
use kube_green.JsonPatch.Sleep.{sleep}
use kube_green.JsonPatch.WakeUp.{wake_up}
use kube_green.Sleepinfo.{Settings, SleepInfoData, is_sleep_operation, is_wake_up_operation}
use kube_green.Sleepinfo.Secrets.{upsert_secret, get_secret_name}
use kube_green.Sleepinfo.Data.{get_sleep_info_data}
use kube_green.Sleepinfo.Schedule.{NextSchedule, get_next_schedule}
use kube_green.Sleepinfo.Flow.{Outcome, Flow, failed, or_return, stop, again, after, ◌>>=◌}
use kube_green.Sleepinfo.Reconcile.{
  fetch_sleep_info, read_secret_of, load_resources, perform_operation, reconcile_nothing,
  reconcile_resources, execute_operation, handle_sleep_info_status, reconcile_flow, reconcile,
}
use kube_green.Sleepinfo.Runs.Keeps.{
  KeepsFlow, >>=-KeepsFlow, or_return-KeepsFlow, KeepsCluster, upsert_secret-Keeps,
  load_resources-Reaching, after_operation_call-Keeps, handle_sleep_info_status-Keeps,
}

module _ {Object Value Operations Schedule W : Type 0}
    (p : Platform Object Value Operations Schedule W) (P : W → Type 0) where
  open p use {cron, codec, objects, client, metrics}

  module _ (h : KeepsCluster p P) (r : Settings) where
    perform_operation-KeepsFlow :
        (info : SleepInfoData) (g : ManagedResources Object W)
        → All (Reaching p P) g.res_mapping
        → KeepsFlow P (perform_operation p r info g)
    unfolding perform_operation
    perform_operation-KeepsFlow info g reach w hw = elim (Bool-cases (is_sleep_operation info)) [
      | inl e ↦
          rw e (after_operation_call-Keeps p P h r _ (sleep p g w) (sleep-Keeps p P g reach w hw))
      | inr e ↦ elim (Bool-cases (is_wake_up_operation info)) [
        | inl k ↦
            rw (e, k)
              (after_operation_call-Keeps p P h r _ (wake_up p g w)
                (wake_up-Keeps p P g reach w hw))
        | inr k ↦ rw (e, k) hw
      ]
    ]

    reconcile_resources-KeepsFlow :
        (now : Time) (namespace name : String) (s : SleepInfo) (secret : Option Secret)
        (info : SleepInfoData) (g : ManagedResources Object W) (requeue_after : ℤ)
        → All (Reaching p P) g.res_mapping
        → KeepsFlow P (reconcile_resources p r now namespace name s secret info g requeue_after)
    unfolding reconcile_resources
    reconcile_resources-KeepsFlow now namespace name s secret info g requeue_after reach =
        >>=-KeepsFlow P (perform_operation p r info g)
          (λ g'.
            or_return (λ e. again)
              (upsert_secret codec client r now (get_secret_name name) namespace s secret info g')
            >>= λ _. stop (after requeue_after))
          (perform_operation-KeepsFlow info g reach)
          (λ g'.
            or_return-KeepsFlow P (λ e. again)
              (upsert_secret codec client r now (get_secret_name name) namespace s secret info g')
              (λ _. stop (after requeue_after))
              (upsert_secret-Keeps p P h r now (get_secret_name name) namespace s secret info g')
              (λ _ w' hw. hw))

    reconcile_nothing-KeepsFlow :
        (now : Time) (namespace name : String) (s : SleepInfo) (secret : Option Secret)
        (info : SleepInfoData) (g : ManagedResources Object W) (next_schedule : Time)
        (requeue_after : ℤ)
        → KeepsFlow P
            (reconcile_nothing p r now namespace name s secret info g next_schedule requeue_after)
    unfolding reconcile_nothing
    reconcile_nothing-KeepsFlow now namespace name s secret info g next_schedule requeue_after w
          hw =
        ground (
          arith,
          upsert_secret-Keeps p P h r now (get_secret_name name) namespace s secret info g w hw,
        )

    execute_operation-KeepsFlow :
        (now : Time) (namespace name : String) (s : SleepInfo) (secret : Option Secret)
        (info : SleepInfoData) (next_schedule : Time) (requeue_after : ℤ)
        → KeepsFlow P
            (execute_operation p r now namespace name s secret info next_schedule requeue_after)
    unfolding execute_operation
    execute_operation-KeepsFlow now namespace name s secret info next_schedule requeue_after w hw =
        elim (Result-cases (load_resources p r s namespace info w).0) [
          | inr (e, failed) ↦ rw failed hw
          | inl (g, made) ↦
              let w' = (handle_sleep_info_status client now s info.current_operation_type g w).1 in
              let hw' =
                handle_sleep_info_status-Keeps p P h r now s info.current_operation_type g w hw in
              rw made (
                ground (
                  arith,
                  hw',
                  reconcile_resources-KeepsFlow now namespace name s secret info g requeue_after
                      (load_resources-Reaching p P h r s namespace info w g made) w' hw',
                  reconcile_nothing-KeepsFlow now namespace name s secret info g next_schedule
                      requeue_after w' hw',
                ))
        ]

    fetch_sleep_info-KeepsFlow :
        (namespace name : String) → KeepsFlow P (fetch_sleep_info p r namespace name)
    unfolding fetch_sleep_info
    fetch_sleep_info-KeepsFlow namespace name w hw =
        ground (arith, h.gauge_set name namespace w hw, h.gauge_deleted name namespace w hw)

    execute_if_due-KeepsFlow :
        (now : Time) (namespace name : String) (s : SleepInfo) (secret : Option Secret)
        (info : SleepInfoData) (schedule : NextSchedule)
        → KeepsFlow P (
            if schedule.is_to_execute
            then execute_operation p r now namespace name s secret info schedule.next_schedule
                schedule.requeue_after
            else stop (after schedule.requeue_after))
    execute_if_due-KeepsFlow now namespace name s secret info schedule w hw = ground (
      arith,
      execute_operation-KeepsFlow now namespace name s secret info schedule.next_schedule
          schedule.requeue_after w hw,
    )

    pub reconcile-Keeps :
        (now : Time) (namespace name : String) (w : W)
        → P w
        → P (reconcile p r now namespace name w).1
    unfolding reconcile reconcile_flow
    reconcile-Keeps now namespace name w hw =
        let due : SleepInfo → Option Secret → SleepInfoData → NextSchedule → Flow W Outcome =
          λ s secret info schedule.
            if schedule.is_to_execute
            then execute_operation p r now namespace name s secret info schedule.next_schedule
                schedule.requeue_after
            else stop (after schedule.requeue_after) in
        let decide : SleepInfo → Option Secret → SleepInfoData → Flow W Outcome = λ s secret info.
          or_return failed (lift (get_next_schedule cron r.sleep_delta info now))
          >>= due s secret info in
        let read : SleepInfo → Option Secret → Flow W Outcome = λ s secret.
          or_return failed (lift (get_sleep_info_data codec secret s)) >>= decide s secret in
        let body : SleepInfo → Flow W Outcome =
          λ s. or_return failed (read_secret_of p r namespace name) >>= read s in
        >>=-KeepsFlow P (fetch_sleep_info p r namespace name) body
          (fetch_sleep_info-KeepsFlow namespace name)
          (λ s.
            or_return-KeepsFlow P failed (read_secret_of p r namespace name) (read s) (λ w' k. k)
              (λ secret.
                or_return-KeepsFlow P failed (lift (get_sleep_info_data codec secret s))
                  (decide s secret) (λ w' k. k)
                  (λ info.
                    or_return-KeepsFlow P failed
                      (lift (get_next_schedule cron r.sleep_delta info now)) (due s secret info)
                      (λ w' k. k)
                      (λ schedule.
                        execute_if_due-KeepsFlow now namespace name s secret info schedule))))
          w hw
