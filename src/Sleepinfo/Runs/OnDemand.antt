-- ===== src/Sleepinfo/Runs/OnDemand.antt =====
-- How a run of `SleepInfoExecutionReconciler.Reconcile` changes the cluster.
use kube_green.Base.{
  subst, sym, false, nat_eq, length, String, Option, arith, inl, inr, Bool-cases, ◌≡◌, refl,
}
use kube_green.Base.{◌<>◌, ok, Result-cases}
use kube_green.Base.Clock.{Time}
use kube_green.Base.Keeps.{Keeps}
use kube_green.Cluster.{Secret, Platform}
use kube_green.Api.Execution.{is_processed, execution_phase_failed}
use kube_green.Api.{SleepInfo, SleepInfoExecution}
use kube_green.Sleepinfo.{Settings}
use kube_green.Sleepinfo.Execution.{
  fetch_execution, fetch_target, execute_guarded, owner_updated, set_owner_reference,
  reconcile_flow, reconcile,
}
use kube_green.Sleepinfo.Flow.{
  proceed, next, return, finished, Outcome, Flow, failed, or_return, ◌>>=◌,
}
use kube_green.Sleepinfo.Reconcile.{read_secret_of}
use kube_green.Sleepinfo.Runs.Keeps.{
  KeepsFlow, >>=-KeepsFlow, or_return-KeepsFlow, KeepsCluster, KeepsExecution, Follows,
}
use kube_green.Sleepinfo.Runs.Guarded.{finish-KeepsFlow, execute_guarded-KeepsFlow}

module _ {Object Value Operations Schedule W : Type 0}
    (p : Platform Object Value Operations Schedule W) (P : W → Type 0)
    (Of : SleepInfoExecution → Type 0) where
  open p use {cron, codec, objects, client, metrics}

  module _ (h : KeepsCluster p P) (k : KeepsExecution p P Of) (follows : Follows client Of)
      (r : Settings) where
    -- What is fetched is the execution of the request, and not over.
    fetch_execution->>= :
        {A : Type 0} (namespace name : String) (w : W) (rest : SleepInfoExecution → Flow W A)
        → P w
        → ((execution : SleepInfoExecution)
            → client.get_execution namespace name w ≡ ok execution
            → is_processed execution ≡ false
            → P (rest execution w).1)
        → P ((fetch_execution p r namespace name >>= rest) w).1
    unfolding fetch_execution
    fetch_execution->>= namespace name w rest hw h =
        elim (Result-cases (client.get_execution namespace name w)) [
          | inr (e, missing) ↦ rw (missing, fetch_execution) hw
          | inl (execution, found) ↦ elim (Bool-cases (is_processed execution)) [
            | inl e ↦
                let same : fetch_execution p r namespace name w ≡ (return finished, w) =
                  ground arith in
                subst (λ x. P (proceed x.0 rest x.1).1) (sym same) hw
            | inr e ↦
                let same : fetch_execution p r namespace name w ≡ (next execution, w) =
                  ground arith in
                subst (λ x. P (proceed x.0 rest x.1).1) (sym same) (h execution found e)
          ]
        ]

    fetch_target-KeepsFlow :
        (now : Time) (namespace : String) (execution : SleepInfoExecution)
        → Of execution
        → KeepsFlow P (fetch_target p r now namespace execution)
    unfolding fetch_target
    fetch_target-KeepsFlow now namespace execution of w hw =
        let text : String =
          "SleepInfo \""
          <> (execution.spec.sleep_info_name
              <> ("\" not found in namespace \"" <> (namespace <> "\""))) in
        ground (
          arith,
          hw,
          finish-KeepsFlow p P Of h k follows r SleepInfo execution now execution_phase_failed text
              of (inr (inl refl)) w hw,
        )

    set_owner_reference-Keeps :
        (execution : SleepInfoExecution) (s : SleepInfo)
        → Of execution
        → Keeps P (set_owner_reference client execution s)
    unfolding set_owner_reference owner_updated
    set_owner_reference-Keeps execution s of w hw =
        elim (Result-cases (client.set_owner_reference s execution)) [
          | inr (e, failed) ↦ rw failed hw
          | inl (owned, found) ↦
              ground
                (arith, hw, k.execution owned (follows.with_owner s execution owned found of) w hw)
        ]

    -- What is answered is still the execution.
    set_owner_reference-Of :
        (execution owned : SleepInfoExecution) (s : SleepInfo) (w : W)
        → Of execution
        → (set_owner_reference client execution s w).0 ≡ ok owned
        → Of owned
    unfolding set_owner_reference owner_updated
    set_owner_reference-Of execution owned s w of done =
        elim (Result-cases (client.set_owner_reference s execution)) [
          | inr (e, failed) ↦ absurd (ground arith)
          | inl (first, found) ↦
              let kept = follows.with_owner s execution first found of in
              elim (Bool-cases
                (nat_eq (length first.owner_references) (length execution.owner_references))) [
                  | inl e ↦ let same : first ≡ owned = ground arith in rw (← same) kept
                  | inr e ↦ follows.answered first owned w (ground arith) kept
                ]
        ]

    -- From the SleepInfo on.
    target-KeepsFlow :
        (now : Time) (namespace : String) (execution : SleepInfoExecution)
        → Of execution
        → KeepsFlow P (do
          sleep_info ← fetch_target p r now namespace execution
          owned ← or_return failed (set_owner_reference client execution sleep_info)
          secret ← or_return failed (read_secret_of p r namespace sleep_info.name)
          execute_guarded p r now namespace owned sleep_info secret)
    target-KeepsFlow now namespace execution of =
        let guarded : SleepInfo → SleepInfoExecution → Option Secret → Flow W Outcome =
          λ s owned secret. execute_guarded p r now namespace owned s secret in
        let read : SleepInfo → SleepInfoExecution → Flow W Outcome =
          λ s owned. or_return failed (read_secret_of p r namespace s.name) >>= guarded s owned in
        let own : SleepInfo → Flow W Outcome =
          λ s. or_return failed (set_owner_reference client execution s) >>= read s in
        >>=-KeepsFlow P (fetch_target p r now namespace execution) own
          (fetch_target-KeepsFlow now namespace execution of)
          (λ s w hw.
            let held = set_owner_reference-Keeps execution s of w hw in
            elim (Result-cases (set_owner_reference client execution s w).0) [
              | inr (e, failed) ↦ rw failed held
              | inl (owned, done) ↦ rw done (
                  or_return-KeepsFlow P failed (read_secret_of p r namespace s.name)
                    (guarded s owned) (λ w' k. k)
                    (λ secret.
                      execute_guarded-KeepsFlow p P Of h k follows r now namespace owned s secret
                        (set_owner_reference-Of execution owned s w of done))
                    (set_owner_reference client execution s w).1 held)
            ])

    pub reconcile-Keeps :
        (now : Time) (namespace name : String) (w : W)
        → ((execution : SleepInfoExecution)
            → client.get_execution namespace name w ≡ ok execution
            → is_processed execution ≡ false
            → Of execution)
        → P w
        → P (reconcile p r now namespace name w).1
    unfolding reconcile reconcile_flow
    reconcile-Keeps now namespace name w fetched hw =
        fetch_execution->>= namespace name w
          (λ execution. do
            sleep_info ← fetch_target p r now namespace execution
            owned ← or_return failed (set_owner_reference client execution sleep_info)
            secret ← or_return failed (read_secret_of p r namespace sleep_info.name)
            execute_guarded p r now namespace owned sleep_info secret)
          hw
          (λ execution found e.
            target-KeepsFlow now namespace execution (fetched execution found e) w hw)
