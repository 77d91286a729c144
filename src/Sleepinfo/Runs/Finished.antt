-- ===== src/Sleepinfo/Runs/Finished.antt =====
-- The statuses of the executions, in every state that the runs of the two controllers lead to.
use kube_green.Base.{◌≡◌, ◌⊎◌, inl, inr, String, Option, some, ok}
use kube_green.Api.{SleepInfo, SleepInfoExecution, SleepInfoExecutionStatus}
use kube_green.Cluster.{Secret, Client, Metrics, Platform}
use kube_green.Sleepinfo.Runs.{IsFinished, Reach}
use kube_green.Sleepinfo.Runs.Keeps.{KeepsCluster, KeepsExecution}
use kube_green.Sleepinfo.Runs.Reachable.{Any, Reach-Keeps}

-- What the API server does with the statuses of executions, of which `holds` tells what it holds: the
-- status is a subresource, so that only an update of the status writes it, as it is sent, or leaves
-- things as they were (an error), and concerns one execution; the other calls of the controllers
-- leave the statuses alone; what is read is what is held, of the name that is asked for; and no call
-- renames an execution.
pub record StoresStatuses {Object W : Type 0} (client : Client Object W) (metrics : Metrics W)
    (holds : String → String → W → Option SleepInfoExecutionStatus) : Type 0 where
  pub created :
      (sent : Secret) (w : W) (namespace name : String)
      → holds namespace name (client.create_secret sent w).1 ≡ holds namespace name w
  pub updated :
      (sent : Secret) (w : W) (namespace name : String)
      → holds namespace name (client.update_secret sent w).1 ≡ holds namespace name w
  pub patched :
      (new old : Object) (w : W) (namespace name : String)
      → holds namespace name (client.patch new old w).1 ≡ holds namespace name w
  pub applied :
      (o : Object) (owner : String) (w : W) (namespace name : String)
      → holds namespace name (client.apply o owner w).1 ≡ holds namespace name w
  pub status_updated :
      (s : SleepInfo) (w : W) (namespace name : String)
      → holds namespace name (client.update_sleep_info_status s w).1 ≡ holds namespace name w
  pub execution_updated :
      (e : SleepInfoExecution) (w : W) (namespace name : String)
      → holds namespace name (client.update_execution e w).1 ≡ holds namespace name w
  pub execution_status_updated :
      (e : SleepInfoExecution) (w : W) (namespace name : String) (status : SleepInfoExecutionStatus)
      → holds namespace name (client.update_execution_status e w).1 ≡ some status
      → (holds namespace name w ≡ some status) ⊎ (status ≡ e.status)
  pub others_kept :
      (e : SleepInfoExecution) (w : W) (namespace name : String)
      → ¬ ((e.namespace ≡ namespace) × (e.name ≡ name))
      → holds namespace name (client.update_execution_status e w).1 ≡ holds namespace name w
  pub got :
      (namespace name : String) (w : W) (e : SleepInfoExecution)
      → client.get_execution namespace name w ≡ ok e
      → ((e.namespace ≡ namespace) × (e.name ≡ name)) × (holds namespace name w ≡ some e.status)
  pub owner_named :
      (s : SleepInfo) (e owned : SleepInfoExecution)
      → client.set_owner_reference s e ≡ ok owned
      → (owned.namespace ≡ e.namespace) × (owned.name ≡ e.name)
  pub answer_named :
      (e answer : SleepInfoExecution) (w : W)
      → (client.update_execution e w).0 ≡ ok answer
      → (answer.namespace ≡ e.namespace) × (answer.name ≡ e.name)
  pub gauge_set :
      (gauge_name gauge_namespace : String) (w : W) (namespace name : String)
      → holds namespace name (metrics.set_gauge gauge_name gauge_namespace 1 w)
        ≡ holds namespace name w
  pub gauge_deleted :
      (gauge_name gauge_namespace : String) (w : W) (namespace name : String)
      → holds namespace name (metrics.delete_gauge gauge_name gauge_namespace w)
        ≡ holds namespace name w

module _ {Object Value Operations Schedule W : Type 0}
    (p : Platform Object Value Operations Schedule W)
    (holds : String → String → W → Option SleepInfoExecutionStatus) where
  open p use {client, metrics}

  -- Each status is one that was there at the start, or is finished.
  abbrev OldOrFinished : W → W → Type 0
  OldOrFinished start w =
      (namespace name : String) (status : SleepInfoExecutionStatus)
      → holds namespace name w ≡ some status
      → (holds namespace name start ≡ some status) ⊎ IsFinished status

  unchanged-OldOrFinished :
      (start w w' : W)
      → ((namespace name : String) → holds namespace name w' ≡ holds namespace name w)
      → OldOrFinished start w
      → OldOrFinished start w'
  unchanged-OldOrFinished start w w' same hw namespace name status e =
      hw namespace name status (rw (← same namespace name) e)

  written-OldOrFinished :
      (law : StoresStatuses client metrics holds) (start w : W) (e : SleepInfoExecution)
      → IsFinished e.status
      → OldOrFinished start w
      → OldOrFinished start (client.update_execution_status e w).1
  written-OldOrFinished law start w e finished hw namespace name status held =
      elim (law.execution_status_updated e w namespace name status held) [
        | inl old ↦ hw namespace name status old
        | inr same ↦ inr (rw same finished)
      ]

  OldOrFinished-KeepsCluster :
      StoresStatuses client metrics holds → (start : W) → KeepsCluster p (OldOrFinished start)
  OldOrFinished-KeepsCluster law start = record {
    resources = record {
      patches = λ new old w. unchanged-OldOrFinished start w _ (law.patched new old w);
      applies = λ o owner w. unchanged-OldOrFinished start w _ (law.applied o owner w);
    };
    created = λ sent m w. unchanged-OldOrFinished start w _ (law.created sent w);
    updated = λ sent m w. unchanged-OldOrFinished start w _ (law.updated sent w);
    status = λ s w. unchanged-OldOrFinished start w _ (law.status_updated s w);
    gauge_set = λ gauge_name gauge_namespace w.
        unchanged-OldOrFinished start w _ (law.gauge_set gauge_name gauge_namespace w);
    gauge_deleted = λ gauge_name gauge_namespace w.
        unchanged-OldOrFinished start w _ (law.gauge_deleted gauge_name gauge_namespace w);
  }

  OldOrFinished-KeepsExecution :
      StoresStatuses client metrics holds
      → (start : W) → KeepsExecution p (OldOrFinished start) (Any p)
  OldOrFinished-KeepsExecution law start = record {
    execution = λ e of w. unchanged-OldOrFinished start w _ (law.execution_updated e w);
    execution_status = λ e of finished w. written-OldOrFinished law start w e finished;
  }

  -- The controllers write no other statuses than finished ones. On such a server, in every state that
  -- any runs of the two controllers lead to, the status of an execution is the one that it had at the
  -- start, or its phase is Succeeded, Failed or Skipped, and it has the instants of its start and its
  -- completion.
  pub Reach-IsFinished :
      (law : StoresStatuses client metrics holds) (start w : W) (namespace name : String)
      (status : SleepInfoExecutionStatus)
      → Reach p start w
      → holds namespace name w ≡ some status
      → (holds namespace name start ≡ some status) ⊎ IsFinished status
  Reach-IsFinished law start w namespace name status runs held =
      Reach-Keeps p (OldOrFinished start) (OldOrFinished-KeepsCluster law start)
        (OldOrFinished-KeepsExecution law start) runs (λ _ _ _ old. inl old) namespace name status
        held
