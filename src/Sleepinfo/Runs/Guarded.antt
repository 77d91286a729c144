-- ===== src/Sleepinfo/Runs/Guarded.antt =====
-- How a run of `SleepInfoExecutionReconciler.Reconcile` changes the cluster, from its guards on.
use kube_green.Base.{String, Option, none, some, inl, inr, Bool-cases, All, ◌≡◌, refl}
use kube_green.Base.{◌<>◌, message, Result, ok, err, if◌then◌else◌, Result-cases}
use kube_green.Base.Clock.{Time}
use kube_green.Base.Exec.{lift}
use kube_green.Cluster.{Secret, Platform}
use kube_green.Api.Execution.{
  execution_phase_failed, execution_phase_skipped, execution_phase_succeeded,
}
use kube_green.Api.{SleepInfo, SleepInfoExecution}
use kube_green.JsonPatch.{ManagedResources}
use kube_green.JsonPatch.Keeps.Namespace.{Reaching, sleep-Keeps, wake_up-Keeps}
use kube_green.JsonPatch.Resources.{has_resource}
use kube_green.JsonPatch.Sleep.{sleep}
use kube_green.JsonPatch.WakeUp.{wake_up}
use kube_green.Sleepinfo.{Settings, SleepInfoData, is_sleep_operation, is_wake_up_operation}
use kube_green.Sleepinfo.Secrets.{upsert_secret, get_secret_name}
use kube_green.Sleepinfo.Data.{get_sleep_info_data, apply_execution_override}
use kube_green.Sleepinfo.Execution.{
  finish, check_guards, override, perform, execute_on_resources, execute_guarded,
  update_execution_status, guard_message, is_asleep, with_status, or_now,
}
use kube_green.Sleepinfo.Execution.Outcomes.{Reported}
use kube_green.Sleepinfo.Flow.{Outcome, Flow, failed, or_return, ◌>>=◌, ◌>>◌}
use kube_green.Sleepinfo.Reconcile.{load_resources, handle_sleep_info_status}
use kube_green.Sleepinfo.Runs.Keeps.{
  KeepsFlow, >>=-KeepsFlow, or_return-KeepsFlow, KeepsCluster, KeepsExecution, Follows,
  upsert_secret-Keeps, load_resources-Reaching, after_operation_call-Keeps,
  handle_sleep_info_status-Keeps,
}

or_now-some : (start : Option Time) (now : Time) → (t : Time) × (or_now start now ≡ some t)
or_now-some none now = (now, refl)
or_now-some (some t) now = (t, refl)

module _ {Object Value Operations Schedule W : Type 0}
    (p : Platform Object Value Operations Schedule W) (P : W → Type 0)
    (Of : SleepInfoExecution → Type 0) where
  open p use {cron, codec, objects, client, metrics}

  module _ (h : KeepsCluster p P) (k : KeepsExecution p P Of) (follows : Follows client Of)
      (r : Settings) where
    perform-KeepsFlow :
        (info : SleepInfoData) (g : ManagedResources Object W)
        → All (Reaching p P) g.res_mapping
        → KeepsFlow P (perform p r info g)
    unfolding perform
    perform-KeepsFlow info g reach w hw = elim (Bool-cases (is_sleep_operation info)) [
      | inl e ↦
          rw e (after_operation_call-Keeps p P h r _ (sleep p g w) (sleep-Keeps p P g reach w hw))
      | inr e ↦ elim (Bool-cases (is_wake_up_operation info)) [
        | inl k ↦
            rw (e, k)
              (after_operation_call-Keeps p P h r _ (wake_up p g w)
                (wake_up-Keeps p P g reach w hw))
        | inr k ↦ rw (e, k) hw
      ]
    ]

    pub finish-KeepsFlow :
        (A : Type 0) (execution : SleepInfoExecution) (now : Time) (phase text : String)
        → Of execution
        → Reported phase
        → KeepsFlow {W = W} P (finish p r execution now phase text {A = A})
    unfolding update_execution_status with_status
    finish-KeepsFlow A execution now phase text of final w hw =
        k.execution_status _ (follows.any_status execution _ of)
          (final, or_now-some execution.status.start_time now, (now, refl)) w hw

    check_guards-KeepsFlow :
        (now : Time) (execution : SleepInfoExecution) (guard : Option String)
        → Of execution
        → KeepsFlow P (check_guards p r now execution guard)
    unfolding check_guards
    check_guards-KeepsFlow now execution none of w hw = hw
    check_guards-KeepsFlow now execution (some text) of w hw =
        finish-KeepsFlow (Unit {0}) execution now execution_phase_skipped text of (inr (inr refl)) w
          hw

    override-KeepsFlow :
        (now : Time) (execution : SleepInfoExecution) (info : Result SleepInfoData)
        → Of execution
        → KeepsFlow P (override p r now execution info)
    unfolding override
    override-KeepsFlow now execution (ok info) of w hw = hw
    override-KeepsFlow now execution (err e) of w hw =
        finish-KeepsFlow SleepInfoData execution now execution_phase_failed (message e) of
          (inr (inl refl)) w hw

    execute_on_resources-KeepsFlow :
        (now : Time) (namespace : String) (execution : SleepInfoExecution) (s : SleepInfo)
        (secret : Option Secret) (info : SleepInfoData) (g : ManagedResources Object W)
        → Of execution
        → All (Reaching p P) g.res_mapping
        → KeepsFlow P (execute_on_resources p r now namespace execution s secret info g)
    unfolding execute_on_resources
    execute_on_resources-KeepsFlow now namespace execution s secret info g of reach =
        let name : String = get_secret_name s.name in
        let last : Flow W Outcome =
          finish p r execution now execution_phase_succeeded
            ("operation " <> (execution.spec.operation <> " executed")) {A = Outcome} in
        let report : ManagedResources Object W → Flow W Outcome = λ g'.
          or_return failed (handle_sleep_info_status client now s info.current_operation_type g')
          >> last in
        let store : ManagedResources Object W → Flow W Outcome = λ g'.
          or_return failed (upsert_secret codec client r now name namespace s secret info g')
          >> report g' in
        >>=-KeepsFlow P (perform p r info g) store (perform-KeepsFlow info g reach) (λ g'.
          or_return-KeepsFlow P failed
            (upsert_secret codec client r now name namespace s secret info g') (λ _. report g')
            (upsert_secret-Keeps p P h r now name namespace s secret info g')
            (λ _.
              or_return-KeepsFlow P failed
                (handle_sleep_info_status client now s info.current_operation_type g') (λ _. last)
                (handle_sleep_info_status-Keeps p P h r now s info.current_operation_type g')
                (λ _.
                  finish-KeepsFlow Outcome execution now execution_phase_succeeded _ of
                    (inl refl))))

    execute_loaded-KeepsFlow :
        (now : Time) (namespace : String) (execution : SleepInfoExecution) (s : SleepInfo)
        (secret : Option Secret) (info : SleepInfoData) (g : ManagedResources Object W)
        → Of execution
        → All (Reaching p P) g.res_mapping
        → KeepsFlow P (
            if has_resource g
            then execute_on_resources p r now namespace execution s secret info g
            else finish p r execution now execution_phase_skipped
                "no resources to handle in namespace")
    execute_loaded-KeepsFlow now namespace execution s secret info g of reach w hw =
        elim (Bool-cases (has_resource g)) [
          | inl e ↦
              rw e (
                execute_on_resources-KeepsFlow now namespace execution s secret info g of reach w
                  hw)
          | inr e ↦ rw e (
              finish-KeepsFlow Outcome execution now execution_phase_skipped
                "no resources to handle in namespace" of (inr (inr refl)) w hw)
        ]

    pub execute_guarded-KeepsFlow :
        (now : Time) (namespace : String) (execution : SleepInfoExecution) (s : SleepInfo)
        (secret : Option Secret)
        → Of execution
        → KeepsFlow P (execute_guarded p r now namespace execution s secret)
    unfolding execute_guarded
    execute_guarded-KeepsFlow now namespace execution s secret of =
        let operation : String = execution.spec.operation in
        let loaded : SleepInfoData → ManagedResources Object W → Flow W Outcome = λ info g.
          if has_resource g
          then execute_on_resources p r now namespace execution s secret info g
          else finish p r execution now execution_phase_skipped
              "no resources to handle in namespace" {A = Outcome} in
        let load : SleepInfoData → Flow W Outcome =
          λ info. or_return failed (load_resources p r s namespace info) >>= loaded info in
        let override_read : SleepInfoData → Flow W Outcome = λ data_read.
          override p r now execution (apply_execution_override data_read operation s) >>= load in
        let read : Unit {0} → Flow W Outcome =
          λ _. or_return failed (lift (get_sleep_info_data codec secret s)) >>= override_read in
        let guard : Option String = guard_message operation (is_asleep secret) in
        >>=-KeepsFlow P (check_guards p r now execution guard) read
          (check_guards-KeepsFlow now execution guard of)
          (λ _.
            or_return-KeepsFlow P failed (lift (get_sleep_info_data codec secret s)) override_read
              (λ w' k. k)
              (λ data_read.
                >>=-KeepsFlow P
                  (override p r now execution (apply_execution_override data_read operation s)) load
                  (override-KeepsFlow now execution (apply_execution_override data_read operation s)
                    of)
                  (λ info w hw. elim (Result-cases (load_resources p r s namespace info w).0) [
                    | inr (e, missing) ↦ rw missing hw
                    | inl (g, made) ↦ rw made (
                        execute_loaded-KeepsFlow now namespace execution s secret info g of
                          (load_resources-Reaching p P h r s namespace info w g made) w hw)
                  ])))
