-- ===== src/Sleepinfo/Runs/Reachable.antt =====
-- What holds in every state that the runs of the two controllers lead to.
use kube_green.Base.{◌≡◌, ◌⊎◌, inl, inr, ap, String, Option, none, some, List, arith, true}
use kube_green.Base.{Result, ok, is_ok, is_ok-eq-ok}
use kube_green.Base.Dict.{Dict}
use kube_green.Base.Clock.{Time}
use kube_green.Api.{GroupKind, SleepInfo, SleepInfoExecution}
use kube_green.Api.Schedule.{get_sleep_schedule, get_wake_up_schedule}
use kube_green.Api.Validate.Sound.{validate_sound}
use kube_green.Cluster.{Secret, Client, Metrics, Platform}
use kube_green.Webhook.{validate_create}
use kube_green.Webhook.Admission.{get_next_schedule-validate_create}
use kube_green.Sleepinfo.{Settings}
use kube_green.Sleepinfo.Data.{get_sleep_info_data, read_secret}
use kube_green.Sleepinfo.Secrets.{get_secret_name}
use kube_green.Sleepinfo.Secrets.RoundTrip.{IsStored, ReadsBack}
use kube_green.Sleepinfo.Secrets.Readable.{new_secret-IsMarshalled, is_ok-get_sleep_info_data}
use kube_green.Sleepinfo.Reconcile.{secret_or_nil}
use kube_green.Sleepinfo.Reconcile.Outcomes.{decision}
use kube_green.Sleepinfo.Runs.{IsSent, Step, Reach, scheduled, on_demand, here, later}
use kube_green.Sleepinfo.Runs.Keeps.{KeepsCluster, KeepsExecution, Follows}
use kube_green.Sleepinfo.Runs.Scheduled
use kube_green.Sleepinfo.Runs.OnDemand

-- What the API server does with secrets, of which `holds` tells what it holds: a write of one that
-- has `data` stores it, as `Kept` tells how it is kept, or leaves things as they were (an error), and
-- concerns one secret; the other calls of the controllers, on objects that are not these secrets,
-- leave them alone; a read answers what is held.
pub record StoresSecrets {Object W : Type 0} (client : Client Object W) (metrics : Metrics W)
    (holds : String → String → W → Option Secret) (Kept : Secret → Secret → Type 0) : Type 0 where
  pub created :
      (sent : Secret) (entries : Dict String) (w : W) (namespace name : String) (stored : Secret)
      → sent.data_map ≡ some entries
      → holds namespace name (client.create_secret sent w).1 ≡ some stored
      → (holds namespace name w ≡ some stored) ⊎ Kept sent stored
  pub updated :
      (sent : Secret) (entries : Dict String) (w : W) (namespace name : String) (stored : Secret)
      → sent.data_map ≡ some entries
      → holds namespace name (client.update_secret sent w).1 ≡ some stored
      → (holds namespace name w ≡ some stored) ⊎ Kept sent stored
  pub patched :
      (new old : Object) (w : W) (namespace name : String)
      → holds namespace name (client.patch new old w).1 ≡ holds namespace name w
  pub applied :
      (o : Object) (owner : String) (w : W) (namespace name : String)
      → holds namespace name (client.apply o owner w).1 ≡ holds namespace name w
  pub status_updated :
      (s : SleepInfo) (w : W) (namespace name : String)
      → holds namespace name (client.update_sleep_info_status s w).1 ≡ holds namespace name w
  pub execution_updated :
      (e : SleepInfoExecution) (w : W) (namespace name : String)
      → holds namespace name (client.update_execution e w).1 ≡ holds namespace name w
  pub execution_status_updated :
      (e : SleepInfoExecution) (w : W) (namespace name : String)
      → holds namespace name (client.update_execution_status e w).1 ≡ holds namespace name w
  pub gauge_set :
      (gauge_name gauge_namespace : String) (w : W) (namespace name : String)
      → holds namespace name (metrics.set_gauge gauge_name gauge_namespace 1 w)
        ≡ holds namespace name w
  pub gauge_deleted :
      (gauge_name gauge_namespace : String) (w : W) (namespace name : String)
      → holds namespace name (metrics.delete_gauge gauge_name gauge_namespace w)
        ≡ holds namespace name w
  pub got :
      (namespace name : String) (w : W) (stored : Secret)
      → client.get_secret namespace name w ≡ ok stored
      → holds namespace name w ≡ some stored

module _ {Object Value Operations Schedule W : Type 0}
    (p : Platform Object Value Operations Schedule W) where
  open p use {cron, json, codec, client, metrics}

  -- Any execution.
  abbrev pub Any : SleepInfoExecution → Type 0
  Any e = Unit

  Any-Follows : Follows client Any
  Any-Follows = record {
    with_owner = λ s e owned found of. tt;
    answered = λ e answer w found of. tt;
    any_status = λ e status of. tt;
  }

  Step-Keeps :
      (P : W → Type 0)
      → KeepsCluster p P
      → KeepsExecution p P Any
      → {w w' : W} → Step p w w'
      → P w
      → P w'
  Step-Keeps P h k (scheduled r now namespace name) hw =
      Scheduled.reconcile-Keeps p P h r now namespace name _ hw
  Step-Keeps P h k (on_demand r now namespace name) hw =
      OnDemand.reconcile-Keeps p P Any h k Any-Follows r now namespace name _ (λ _ _ _. tt) hw

  -- Runs of both controllers, for any requests and in any order, change the cluster only by their
  -- calls: what each call keeps, where of the secrets only those that `upsertSecret` makes are sent,
  -- and of the statuses of executions only finished ones, is kept by every sequence of runs.
  pub Reach-Keeps :
      (P : W → Type 0)
      → KeepsCluster p P
      → KeepsExecution p P Any
      → {start w : W} → Reach p start w
      → P start
      → P w
  Reach-Keeps P h k here hw = hw
  Reach-Keeps P h k (later r st) hw = Step-Keeps P h k st (Reach-Keeps P h k r hw)

  module _ (holds : String → String → W → Option Secret) where
    -- Every secret that is held was sent by a run.
    abbrev pub AllSent : W → Type 0
    AllSent w =
        (namespace name : String) (stored : Secret)
        → holds namespace name w ≡ some stored
        → (sent : Secret) × IsSent Object W codec sent × IsStored sent stored

    unchanged-AllSent :
        (w w' : W)
        → ((namespace name : String) → holds namespace name w' ≡ holds namespace name w)
        → AllSent w
        → AllSent w'
    unchanged-AllSent w w' same hw namespace name stored e =
        hw namespace name stored (rw (← same namespace name) e)

    written-AllSent :
        (w w' : W) (sent : Secret)
        → IsSent Object W codec sent
        → ((namespace name : String) (stored : Secret)
            → holds namespace name w' ≡ some stored
            → (holds namespace name w ≡ some stored) ⊎ IsStored sent stored)
        → AllSent w
        → AllSent w'
    written-AllSent w w' sent m write hw namespace name stored e =
        elim (write namespace name stored e) [
          | inl old ↦ hw namespace name stored old
          | inr kept ↦ (sent, m, kept)
        ]

    -- Every secret that is sent has `data`.
    data_of :
        {sent : Secret}
        → IsSent Object W codec sent
        → (entries : Dict String) × (sent.data_map ≡ some entries)
    data_of {sent} m =
        let (entries, same, marshalled) =
          new_secret-IsMarshalled codec m.settings m.at m.name m.namespace m.sleep_info m.info
            m.resources sent m.made in
        (entries, same)

    pub AllSent-KeepsCluster : StoresSecrets client metrics holds IsStored → KeepsCluster p AllSent
    AllSent-KeepsCluster law = record {
      resources = record {
        patches = λ new old w. unchanged-AllSent w _ (law.patched new old w);
        applies = λ o owner w. unchanged-AllSent w _ (law.applied o owner w);
      };
      created = λ sent m w. written-AllSent w _ sent m (λ namespace name stored.
          law.created sent (data_of m).0 w namespace name stored (data_of m).1);
      updated = λ sent m w. written-AllSent w _ sent m (λ namespace name stored.
          law.updated sent (data_of m).0 w namespace name stored (data_of m).1);
      status = λ s w. unchanged-AllSent w _ (law.status_updated s w);
      gauge_set = λ gauge_name gauge_namespace w.
          unchanged-AllSent w _ (law.gauge_set gauge_name gauge_namespace w);
      gauge_deleted = λ gauge_name gauge_namespace w.
          unchanged-AllSent w _ (law.gauge_deleted gauge_name gauge_namespace w);
    }

    pub AllSent-KeepsExecution :
        StoresSecrets client metrics holds IsStored → KeepsExecution p AllSent Any
    AllSent-KeepsExecution law = record {
      execution = λ e of w. unchanged-AllSent w _ (law.execution_updated e w);
      execution_status =
          λ e of finished w. unchanged-AllSent w _ (law.execution_status_updated e w);
    }

    -- The data of an admitted SleepInfo can be read from what the cluster holds.
    is_ok-get_sleep_info_data-AllSent :
        (law : StoresSecrets client metrics holds IsStored) (back : ReadsBack codec) (s : SleepInfo)
        (namespace name : String) (w : W) (secret : Option Secret)
        → AllSent w
        → is_ok (get_sleep_schedule s) ≡ true
        → is_ok (get_wake_up_schedule s) ≡ true
        → secret_or_nil (client.get_secret namespace name w) ≡ ok secret
        → is_ok (get_sleep_info_data codec secret s) ≡ true
    unfolding get_sleep_info_data read_secret
    is_ok-get_sleep_info_data-AllSent law back s namespace name w none hw sleeps wakes read =
        ground arith
    is_ok-get_sleep_info_data-AllSent law back s namespace name w (some stored) hw sleeps wakes
          read =
        let got : client.get_secret namespace name w ≡ ok stored = ground arith in
        let (sent, m, kept) = hw namespace name stored (law.got namespace name w stored got) in
        is_ok-get_sleep_info_data codec back m.settings m.at m.name m.namespace m.sleep_info m.info
          m.resources sent stored s m.made kept sleeps wakes

    -- From its admission on, no run of the SleepInfo controller fails for the state that the runs have
    -- left behind. In every state that any runs of the two controllers lead to from one where no
    -- other secrets are held, the decision whether an operation is due, and when to look again, is
    -- made without an error, if the secret can be fetched at all: whatever errors the earlier runs
    -- met, whatever the instants and the settings.
    pub is_ok-decision :
        (law : StoresSecrets client metrics holds IsStored) (back : ReadsBack codec)
        {Mapping : Type 0} (rest_mapping : GroupKind → Result Mapping) (r : Settings) (now : Time)
        (namespace name : String) (s : SleepInfo) (warnings : List String) (start w : W)
        → AllSent start
        → Reach p start w
        → validate_create cron json rest_mapping (some s) ≡ ok warnings
        → is_ok (secret_or_nil (client.get_secret namespace (get_secret_name name) w)) ≡ true
        → is_ok (decision p r now namespace name s w) ≡ true
    is_ok-decision law back rest_mapping r now namespace name s warnings start w begun runs admitted
          read =
        let hw =
          Reach-Keeps AllSent (AllSent-KeepsCluster law) (AllSent-KeepsExecution law) runs begun in
        let (secret, got) =
          is_ok-eq-ok (secret_or_nil (client.get_secret namespace (get_secret_name name) w)) read in
        let (_, _, sleeps, wakes, _, _, _, _) =
          validate_sound cron json rest_mapping s warnings (unfold validate_create in admitted) in
        let (info, found) = is_ok-eq-ok (get_sleep_info_data codec secret s) (
          is_ok-get_sleep_info_data-AllSent law back s namespace (get_secret_name name) w secret hw
            (ap is_ok sleeps) (ap is_ok wakes) got) in
        ground (
          arith,
          got,
          found,
          get_next_schedule-validate_create cron json rest_mapping codec s warnings secret info
              r.sleep_delta now admitted found,
        )
