-- ===== src/Tests/Cluster.antt =====
-- A small cluster: Deployments, one SleepInfo, its secret and one execution.
use kube_green.Base.{ℕ, Bool, false, String, ◌<>◌, ◌==◌, List, [], ◌∷◌, ◌++◌, Option, none, some}
use kube_green.Base.{not_found, no_match, failure, Result, ok, err, if◌then◌else◌}
use kube_green.Base.Int.{pos}
use kube_green.Base.Dict.{Dict, insert}
use kube_green.Base.Text.{split}
use kube_green.Base.Clock.{zero_time}
use kube_green.Api.{GroupKind, SleepInfo, SleepInfoExecution}
use kube_green.Api.Patches.{deployment_patch}
use kube_green.Cluster.{GroupVersionKind, Secret, Objects, Client, Metrics, Platform}
use kube_green.Resource.{ResourceClient}
use kube_green.Patcher.{Patcher}
use kube_green.Sleepinfo.{Settings}
use kube_green.Sleepinfo.Secrets.RoundTrip.{entries_of}
use kube_green.Tests.Sample.{readable, Daily, daily, documents, encodings}

pub record Workload : Type 0 where
  pub name : String
  pub replicas : String
  pub version : String
  pub controlled : Bool

pub record World : Type 0 where
  pub items : List Workload
  pub sleep_info : Option SleepInfo
  pub secret : Option Secret
  pub execution : Option SleepInfoExecution
  pub gauge : ℕ

abbrev pub deployment_kind : GroupVersionKind
deployment_kind = record { group = "apps"; version = "v1"; kind = "Deployment" }

abbrev pub workload_of : List String → Result Workload
workload_of (name ∷ replicas ∷ version ∷ []) =
    ok (record { name = name; replicas = replicas; version = version; controlled = false })
workload_of _ = err (failure "not a document")

abbrev pub workloads : Objects Workload String
workloads = record {
  name = λ o. o.name;
  kind = λ o. "Deployment";
  namespace = λ o. "shop";
  group_version_kind = λ o. deployment_kind;
  has_controller = λ o. o.controlled;
  marshal = λ o. readable o.replicas (o.name <> (":" <> (o.replicas <> (":" <> o.version))));
  unmarshal = λ text. workload_of (split b':' text);
  unmarshal_fields = λ text. ok (("replicas", text) ∷ []);
  empty_object = record { name = ""; replicas = ""; version = ""; controlled = false };
  set_nested_field = λ o v key. ok (record o { replicas = v });
  set_group_version_kind = λ gvk o. o;
  set_name = λ name o. record o { name = name };
  set_namespace = λ namespace o. o;
  clear_managed_fields = λ o. o;
  clear_resource_version = λ o. o;
  parse_field_selector = λ text. ok text;
  parse_label_selector = λ text. ok text;
}

abbrev pub replicas_in : String → List Workload → Option String
replicas_in name [] = none
replicas_in name (o ∷ items) =
    let rest = replicas_in name items in if o.name == name then some o.replicas else rest

-- Only what differs from the old object is sent. Each write makes a new version.
abbrev diffed : Workload → Workload → Workload → Workload
diffed new old current = record current {
  replicas = if new.replicas == old.replicas then current.replicas else new.replicas;
  version = current.version <> "|";
}

abbrev pub patched_items : Workload → Workload → List Workload → List Workload
patched_items new old [] = []
patched_items new old (o ∷ items) =
    let rest = patched_items new old items in
    if o.name == new.name then diffed new old o ∷ items else o ∷ rest

abbrev applied_items : Workload → List Workload → List Workload
applied_items o [] = record o { version = "|" } ∷ []
applied_items o (current ∷ items) =
    let rest = applied_items o items in
    if current.name == o.name
    then record current { replicas = o.replicas; version = current.version <> "|" } ∷ items
    else current ∷ rest

abbrev found : {A : Type 0} → Option A → Result A
found none = err (not_found "not found")
found (some a) = ok a

abbrev pub answered_by {ℓ} : {A : Type ℓ} → Option A → Result (Unit {0})
answered_by none = err (not_found "not found")
answered_by (some a) = ok tt

-- `stringData` is written over `data`.
abbrev pub merged : Dict String → Dict String → Dict String
merged [] entries = entries
merged ((k, v) ∷ strings) entries = insert k v (merged strings entries)

abbrev pub kept : Secret → Secret
kept secret = record secret {
  data_map = some (merged secret.string_data (entries_of secret.data_map));
  string_data = [];
}

abbrev deployment_mapping : GroupKind → World → Result GroupVersionKind
deployment_mapping target w =
    if target.kind == "Deployment" then ok deployment_kind else err (no_match "no such kind")

abbrev add_owner : SleepInfo → SleepInfoExecution → Result SleepInfoExecution
add_owner s e = ok (record e {
  owner_references =
      e.owner_references
      ++ (record {
        api_version = "kube-green.com/v1alpha1";
        kind = "SleepInfo";
        name = s.name;
        uid = s.uid;
      })
        ∷ [];
})

abbrev pub server : Client Workload World
server = record {
  get_sleep_info = λ namespace name w. found w.sleep_info;
  get_execution = λ namespace name w. found w.execution;
  get_secret = λ namespace name w. found w.secret;
  create_secret = λ secret w. (ok tt, record w { secret = some (kept secret) });
  update_secret = λ secret w. (ok tt, record w { secret = some (kept secret) });
  update_sleep_info_status = λ s w. (ok tt, record w { sleep_info = some s });
  update_execution = λ e w. (ok e, record w { execution = some e });
  update_execution_status = λ e w. (ok tt, record w { execution = some e });
  rest_mapping = deployment_mapping;
  list = λ gvk options w. (w.items, none);
  patch = λ new old w. (
    answered_by (replicas_in new.name w.items),
    record w { items = patched_items new old w.items },
  );
  apply = λ o owner w. (ok tt, record w { items = applied_items o w.items });
  set_owner_reference = add_owner;
}

abbrev pub gauges : Metrics World
gauges = record {
  set_gauge = λ name namespace n w. record w { gauge = n };
  delete_gauge = λ name namespace w. record w { gauge = 0 };
}

abbrev pub platform : Platform Workload String String Daily World
platform = record {
  cron = daily;
  json = documents;
  codec = encodings;
  objects = workloads;
  client = server;
  metrics = gauges;
}

abbrev pub settings : Settings
settings = record { sleep_delta = pos 60; manager_name = "kube-green" }

abbrev pub working_hours : SleepInfo
working_hours = record {
  name = "working-hours";
  namespace = "shop";
  uid = "1";
  spec = record {
    weekdays = "1-5";
    sleep_time = "20:00";
    wake_up_time = "08:00";
    time_zone = "";
    exclude_ref = [];
    include_ref = [];
    suspend_cronjobs = false;
    suspend_deployments = none;
    suspend_stateful_sets = some false;
    patches = [];
  };
  status = record { last_schedule_time = zero_time; operation_type = "" };
}

abbrev pub web : Workload
web = record { name = "web"; replicas = "3"; version = "7"; controlled = false }

-- Put to sleep: another version.
abbrev pub sleeping_web : Workload
sleeping_web = record { name = "web"; replicas = "0"; version = "7|"; controlled = false }

-- Idle already, before any sleep.
abbrev pub idle : Workload
idle = record { name = "idle"; replicas = "0"; version = "2"; controlled = false }

abbrev pub awake : World
awake = record {
  items = web ∷ idle ∷ [];
  sleep_info = some working_hours;
  secret = none;
  execution = none;
  gauge = 0;
}

abbrev pub resource_client : ResourceClient Workload World
resource_client = record {
  client = some server;
  sleep_info = some working_hours;
  field_manager_name = "kube-green";
}

abbrev pub to_zero : Patcher String
to_zero = record { patch = deployment_patch.patch }
