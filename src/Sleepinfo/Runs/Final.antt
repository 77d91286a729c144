-- ===== src/Sleepinfo/Runs/Final.antt =====
-- Once an execution is over, it stays so.
use kube_green.Base.{false, ◌≡◌, ◌∙◌, sym, subst, String, Option, some, ok, arith}
use kube_green.Base.{Result-cases, inl, inr}
use kube_green.Base.Clock.{Time}
use kube_green.Sleepinfo.{Settings}
use kube_green.Sleepinfo.Execution
use kube_green.Api.{SleepInfoExecution, SleepInfoExecutionStatus}
use kube_green.Api.Execution.{is_processed}
use kube_green.Cluster.{Platform}
use kube_green.Sleepinfo.Execution.Outcomes.{Reported, is_processed-Reported}
use kube_green.Sleepinfo.Runs.{IsFinished, Step, Reach, scheduled, on_demand, here, later}
use kube_green.Sleepinfo.Runs.Keeps.{KeepsCluster, KeepsExecution, Follows}
use kube_green.Sleepinfo.Runs.Finished.{StoresStatuses}
use kube_green.Sleepinfo.Runs.Scheduled
use kube_green.Sleepinfo.Runs.OnDemand

module _ {Object Value Operations Schedule W : Type 0}
    (p : Platform Object Value Operations Schedule W)
    (holds : String → String → W → Option SleepInfoExecutionStatus)
    (law : StoresStatuses p.client p.metrics holds) (namespace name : String)
    (status : SleepInfoExecutionStatus) where
  open p use {client}

  abbrev Held : W → Type 0
  Held w = holds namespace name w ≡ some status

  -- Another execution.
  abbrev Other : SleepInfoExecution → Type 0
  Other e = ¬ ((e.namespace ≡ namespace) × (e.name ≡ name))

  Held-KeepsCluster : KeepsCluster p Held
  Held-KeepsCluster = record {
    resources = record {
      patches = λ new old w hw. law.patched new old w namespace name ∙ hw;
      applies = λ o owner w hw. law.applied o owner w namespace name ∙ hw;
    };
    created = λ sent m w hw. law.created sent w namespace name ∙ hw;
    updated = λ sent m w hw. law.updated sent w namespace name ∙ hw;
    status = λ s w hw. law.status_updated s w namespace name ∙ hw;
    gauge_set = λ gauge_name gauge_namespace w hw.
        law.gauge_set gauge_name gauge_namespace w namespace name ∙ hw;
    gauge_deleted = λ gauge_name gauge_namespace w hw.
        law.gauge_deleted gauge_name gauge_namespace w namespace name ∙ hw;
  }

  Held-KeepsExecution : KeepsExecution p Held Other
  Held-KeepsExecution = record {
    execution = λ e other w hw. law.execution_updated e w namespace name ∙ hw;
    execution_status = λ e other finished w hw. law.others_kept e w namespace name other ∙ hw;
  }

  renamed-Other :
      (e e' : SleepInfoExecution)
      → (e'.namespace ≡ e.namespace) × (e'.name ≡ e.name)
      → Other e
      → Other e'
  renamed-Other e e' (same, same') other (a, b) = other (sym same ∙ a, sym same' ∙ b)

  Other-Follows : Follows client Other
  Other-Follows = record {
    with_owner = λ s e owned found. renamed-Other e owned (law.owner_named s e owned found);
    answered = λ e answer w found. renamed-Other e answer (law.answer_named e answer w found);
    any_status = λ e new other. other;
  }

  -- An execution that is fetched and not over is another one.
  fetched-Other :
      (w : W) (namespace' name' : String) (e : SleepInfoExecution)
      → IsFinished status
      → Held w
      → client.get_execution namespace' name' w ≡ ok e
      → is_processed e ≡ false
      → Other e
  fetched-Other w namespace' name' e finished hw found open_still (a, b) =
      let ((c, d), held) = law.got namespace' name' w e found in
      let at : holds namespace name w ≡ some e.status = rw (← a, c, ← b, d) held in
      let same : e.status ≡ status = ground (arith, at, hw) in
      let over = is_processed-Reported e (subst (λ x. Reported x.phase) (sym same) finished.0) in
      absurd (ground (arith, over, open_still))

  Step-Held : {w w' : W} → IsFinished status → Step p w w' → Held w → Held w'
  Step-Held finished (scheduled r now namespace' name') hw =
      Scheduled.reconcile-Keeps p Held Held-KeepsCluster r now namespace' name' _ hw
  Step-Held finished (on_demand r now namespace' name') hw =
      OnDemand.reconcile-Keeps p Held Other Held-KeepsCluster Held-KeepsExecution Other-Follows r
        now namespace' name' _ (λ e. fetched-Other _ namespace' name' e finished hw) hw

  status-Reach : (start w : W) → IsFinished status → Held start → Reach p start w → Held w
  status-Reach start w finished held here = held
  status-Reach start w finished held (later {w = before} runs st) =
      Step-Held finished st (status-Reach start before finished held runs)

  -- A run for an execution that is over, or cannot be read.
  reconcile-Held :
      (r : Settings) (now : Time) (w : W)
      → IsFinished status
      → Held w
      → (Execution.reconcile p r now namespace name w).1 ≡ w
  unfolding Execution.reconcile Execution.reconcile_flow Execution.fetch_execution
  reconcile-Held r now w finished hw = elim (Result-cases (client.get_execution namespace name w)) [
    | inr (e, unread) ↦ ground (arith, unread)
    | inl (e, read) ↦
        let (named, held) = law.got namespace name w e read in
        let same : e.status ≡ status = ground (arith, held, hw) in
        let over = is_processed-Reported e (subst (λ x. Reported x.phase) (sym same) finished.0) in
        ground (arith, read, over)
  ]

  -- A finished execution is never run again. On a server that writes the statuses of executions as
  -- `StoresStatuses` tells, in every state that any runs of the two controllers lead to, for any
  -- requests, at any instants and in any order, an execution whose status was finished at the start
  -- has that very status, and a run for it, with any settings and at any instant, leaves the cluster
  -- as it is.
  pub holds-Reach :
      (start w : W) (r : Settings) (now : Time)
      → IsFinished status
      → holds namespace name start ≡ some status
      → Reach p start w
      → (holds namespace name w ≡ some status)
        × ((Execution.reconcile p r now namespace name w).1 ≡ w)
  holds-Reach start w r now finished held runs =
      let kept = status-Reach start w finished held runs in
      (kept, reconcile-Held r now w finished kept)
