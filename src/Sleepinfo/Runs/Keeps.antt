-- ===== src/Sleepinfo/Runs/Keeps.antt =====
-- The calls by which the two controllers change the cluster.
use kube_green.Base.{◌≡◌, String, Option, none, some, inl, inr, All}
use kube_green.Base.{Error, Result, ok, err, Result-cases}
use kube_green.Base.Clock.{Time}
use kube_green.Base.Exec.{Exec}
use kube_green.Base.Keeps.{Keeps}
use kube_green.Cluster.{Secret, Client, Platform}
use kube_green.Api.{SleepInfo, SleepInfoExecution, SleepInfoExecutionStatus}
use kube_green.Resource.Keeps.{KeepsCalls, KeepsResources}
use kube_green.JsonPatch.{ManagedResources}
use kube_green.JsonPatch.Keeps.Namespace.{Reaching}
use kube_green.JsonPatch.Resources.Entries.{new_resources-All}
use kube_green.Sleepinfo.{Settings, SleepInfoData}
use kube_green.Sleepinfo.Secrets.{new_secret, send_secret, upsert_secret}
use kube_green.Sleepinfo.Flow.{Outcome, Step, Flow, proceed, next, return, failed, or_return, ◌>>=◌}
use kube_green.Sleepinfo.Reconcile.{
  resource_client, load_resources, after_operation_call, handle_sleep_info_status,
}
use kube_green.Sleepinfo.Runs.{IsSent, IsFinished}

module _ {W : Type 0} (P : W → Type 0) where
  -- The same of a step that may return from the whole function.
  abbrev pub KeepsFlow : {A : Type 0} → Flow W A → Type 0
  KeepsFlow flow = (w : W) → P w → P (flow w).1

  pub proceed-KeepsFlow :
      {A B : Type 0} (s : Step A) (rest : A → Flow W B)
      → ((a : A) → KeepsFlow (rest a))
      → KeepsFlow (proceed s rest)
  proceed-KeepsFlow (next a) rest h w hw = h a w hw
  proceed-KeepsFlow (return o) rest h w hw = hw

  pub >>=-KeepsFlow :
      {A B : Type 0} (flow : Flow W A) (rest : A → Flow W B)
      → KeepsFlow flow
      → ((a : A) → KeepsFlow (rest a))
      → KeepsFlow (flow >>= rest)
  >>=-KeepsFlow flow rest h k w hw = proceed-KeepsFlow (flow w).0 rest k (flow w).1 (h w hw)

  -- A call that ends the function if it fails.
  pub or_return-KeepsFlow :
      {A B : Type 0} (handler : Error → Outcome) (call : Exec W A) (rest : A → Flow W B)
      → Keeps P call
      → ((a : A) → KeepsFlow (rest a))
      → KeepsFlow (or_return handler call >>= rest)
  or_return-KeepsFlow handler call rest h k = >>=-KeepsFlow (or_return handler call) rest h k

-- What is true of an execution whatever its status, and stays true when it gets its owner.
pub record Follows {Object W : Type 0} (client : Client Object W) (Of : SleepInfoExecution → Type 0)
    : Type 0 where
  pub with_owner :
      (s : SleepInfo) (e owned : SleepInfoExecution)
      → client.set_owner_reference s e ≡ ok owned
      → Of e
      → Of owned
  pub answered :
      (e answer : SleepInfoExecution) (w : W)
      → (client.update_execution e w).0 ≡ ok answer
      → Of e
      → Of answer
  pub any_status :
      (e : SleepInfoExecution) (status : SleepInfoExecutionStatus)
      → Of e
      → Of (record e { status = status })

module _ {Object Value Operations Schedule W : Type 0}
    (p : Platform Object Value Operations Schedule W) (P : W → Type 0) where
  open p use {cron, codec, objects, client, metrics}

  -- The calls that keep `P`; of the secrets only those that `upsertSecret` makes are sent.
  pub record KeepsCluster : Type 0 where
    pub resources : KeepsCalls P client
    pub created : (sent : Secret) → IsSent Object W codec sent → Keeps P (client.create_secret sent)
    pub updated : (sent : Secret) → IsSent Object W codec sent → Keeps P (client.update_secret sent)
    pub status : (s : SleepInfo) → Keeps P (client.update_sleep_info_status s)
    pub gauge_set :
        (name namespace : String) (w : W) → P w → P (metrics.set_gauge name namespace 1 w)
    pub gauge_deleted :
        (name namespace : String) (w : W) → P w → P (metrics.delete_gauge name namespace w)

  -- The calls for an execution that keep `P`; of the statuses only finished ones are sent.
  pub record KeepsExecution (Of : SleepInfoExecution → Type 0) : Type 0 where
    pub execution : (e : SleepInfoExecution) → Of e → Keeps P (client.update_execution e)
    pub execution_status :
        (e : SleepInfoExecution)
        → Of e
        → IsFinished e.status
        → Keeps P (client.update_execution_status e)

  module _ (h : KeepsCluster) (r : Settings) where
    send_secret-Keeps :
        (secret : Option Secret) (sent : Secret)
        → IsSent Object W codec sent
        → Keeps P (send_secret codec client secret sent)
    send_secret-Keeps none sent m w hw = h.created sent m w hw
    send_secret-Keeps (some old) sent m w hw = h.updated sent m w hw

    pub upsert_secret-Keeps :
        (now : Time) (name namespace : String) (s : SleepInfo) (secret : Option Secret)
        (info : SleepInfoData) (g : ManagedResources Object W)
        → Keeps P (upsert_secret codec client r now name namespace s secret info g)
    unfolding upsert_secret
    upsert_secret-Keeps now name namespace s secret info g w hw =
        elim (Result-cases (new_secret codec r now name namespace s info g)) [
          | inr (e, failed) ↦ rw failed hw
          | inl (sent, made) ↦ rw made (
              send_secret-Keeps secret sent
                (record {
                  settings = r;
                  at = now;
                  name = name;
                  namespace = namespace;
                  sleep_info = s;
                  info = info;
                  resources = g;
                  made = made;
                })
                w hw)
        ]

    pub load_resources-Reaching :
        (s : SleepInfo) (namespace : String) (info : SleepInfoData) (w : W)
        (g : ManagedResources Object W)
        → (load_resources p r s namespace info w).0 ≡ ok g
        → All (Reaching p P) g.res_mapping
    load_resources-Reaching s namespace info w g made =
        new_resources-All objects (resource_client p r s) (λ res. KeepsResources P res.client)
          info.original_generic_resource_info (λ _ _ _. reaches) namespace w g made
      where
        reaches : KeepsResources P (resource_client p r s)
        reaches cl e = let same : client ≡ cl = cc in rw (← same) h.resources

    pub after_operation_call-Keeps :
        (handler : Error → Outcome) (called : Result (Unit {0}) × ManagedResources Object W × W)
        → P called.2
        → P (after_operation_call p r handler called).1
    after_operation_call-Keeps handler (ok u, g, w) hw = hw
    after_operation_call-Keeps handler (err e, g, w) hw = hw

    pub handle_sleep_info_status-Keeps :
        (now : Time) (s : SleepInfo) (operation : String) (g : ManagedResources Object W)
        → Keeps P (handle_sleep_info_status client now s operation g)
    unfolding handle_sleep_info_status
    handle_sleep_info_status-Keeps now s operation g = h.status _
