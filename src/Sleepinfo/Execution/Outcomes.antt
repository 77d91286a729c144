-- ===== src/Sleepinfo/Execution/Outcomes.antt =====
-- What a run of `SleepInfoExecutionReconciler.Reconcile` changes and returns.
use kube_green.Base.{Bool, true, false, ◌≡◌, ◌⊎◌, inl, inr, String, Option, some, arith}
use kube_green.Base.{ok}
use kube_green.Base.Clock.{Time}
use kube_green.Api.{SleepInfo, SleepInfoExecution}
use kube_green.Api.Execution.{
  is_processed, execution_op_sleep, execution_op_wake, execution_phase_failed,
  execution_phase_skipped, execution_phase_succeeded,
}
use kube_green.Cluster.{Secret, Platform}
use kube_green.Sleepinfo.{Settings}
use kube_green.Sleepinfo.Secrets.{get_secret_name}
use kube_green.Sleepinfo.Flow.{finished, ended}
use kube_green.Sleepinfo.Reconcile.{secret_or_nil}
use kube_green.Sleepinfo.Execution.{
  with_status, is_asleep, guard_message, set_owner_reference, update_execution_status,
  execute_guarded, reconcile,
}

-- The phases that a run reports.
abbrev pub Reported : String → Type 0
Reported phase =
    (phase ≡ execution_phase_succeeded)
    ⊎ ((phase ≡ execution_phase_failed) ⊎ (phase ≡ execution_phase_skipped))

pub is_processed-Reported :
    (execution : SleepInfoExecution)
    → Reported execution.status.phase
    → is_processed execution ≡ true
unfolding is_processed
is_processed-Reported execution (inl e) = rw e
is_processed-Reported execution (inr (inl e)) = rw e
is_processed-Reported execution (inr (inr e)) = rw e

is_processed-with_status :
    (execution : SleepInfoExecution) (now : Time) (phase text : String)
    → Reported phase
    → is_processed (with_status execution now phase text) ≡ true
unfolding with_status
is_processed-with_status execution now phase text h =
    is_processed-Reported (with_status execution now phase text) h

guard_message-some :
    (operation : String) (asleep : Bool)
    → ((operation ≡ execution_op_sleep) × (asleep ≡ true))
      ⊎ ((operation ≡ execution_op_wake) × (asleep ≡ false))
    → (text : String) × (guard_message operation asleep ≡ some text)
unfolding guard_message
guard_message-some operation asleep (inl (op, e)) = ("resources are already asleep", rw (op, e))
guard_message-some operation asleep (inr (op, e)) =
    ("resources are not asleep, nothing to wake up", rw (op, e))

module _ {Object Value Operations Schedule W : Type 0}
    (p : Platform Object Value Operations Schedule W) (r : Settings) where
  open p use {client}

  -- Every status that a run reports is final: once the cluster holds the execution with such a status,
  -- any later run changes nothing at all.
  pub reconcile-with_status :
      (now before_now : Time) (namespace name phase text : String) (execution : SleepInfoExecution)
      (w : W)
      → Reported phase
      → client.get_execution namespace name w ≡ ok (with_status execution before_now phase text)
      → reconcile p r now namespace name w ≡ (finished, w)
  unfolding reconcile
  reconcile-with_status now before_now namespace name phase text execution w h stored =
      ground (arith, is_processed-with_status execution before_now phase text h)

  -- A sleep while the secret says asleep, and a wake up while it does not, are skipped: the run sends
  -- the status Skipped and nothing else after the owner reference, so that the stored state stays.
  pub reconcile-skips :
      (now : Time) (namespace name : String) (execution owned : SleepInfoExecution) (s : SleepInfo)
      (secret : Option Secret) (w w' : W)
      → client.get_execution namespace name w ≡ ok execution
      → is_processed execution ≡ false
      → client.get_sleep_info namespace execution.spec.sleep_info_name w ≡ ok s
      → set_owner_reference client execution s w ≡ (ok owned, w')
      → secret_or_nil (client.get_secret namespace (get_secret_name s.name) w') ≡ ok secret
      → ((owned.spec.operation ≡ execution_op_sleep) × (is_asleep secret ≡ true))
        ⊎ ((owned.spec.operation ≡ execution_op_wake) × (is_asleep secret ≡ false))
      → (text : String) × (reconcile p r now namespace name w ≡ (
          let (sent, w'') =
            client.update_execution_status
              (with_status owned now execution_phase_skipped text)
              w' in
          (ended sent, w'')))
  unfolding reconcile update_execution_status execute_guarded
  reconcile-skips now namespace name execution owned s secret w w' got fresh found owner read
        guarded =
      let (text, e) = guard_message-some owned.spec.operation (is_asleep secret) guarded in
      (text, ground arith)
