-- ===== src/Cluster.antt =====
-- What the controllers use of Kubernetes and its client libraries, as records of operations over an
-- abstract cluster state `W`. A read answers from the state that it finds; a write returns its error
-- and the state after it. What other clients do during a reconciliation is not modelled.
use kube_green.Base.{ℕ, Bool, String, Option, List, Error, Result}
use kube_green.Base.Dict.{Dict}
use kube_green.Base.Exec.{Exec}
use kube_green.Libraries.{Cron, JsonLib, Codec}
use kube_green.Api.{GroupKind, SleepInfo, SleepInfoExecution, OwnerReference}

-- schema.GroupVersionKind
pub record GroupVersionKind : Type 0 where
  pub group : String
  pub version : String
  pub kind : String

-- client.ListOptions. A parsed selector is kept as the text that it prints.
pub record ListOptions : Type 0 where
  pub namespace : String
  pub limit : ℕ
  pub field_selector : Option String
  pub label_selector : Option String

-- v1.Secret; `data` is `none` where the map is nil.
pub record Secret : Type 0 where
  pub name : String
  pub namespace : String
  pub labels : Dict String
  pub owner_references : List OwnerReference
  pub data_map : Option (Dict String)
  pub string_data : Dict String

-- unstructured.Unstructured with encoding/json, and the selector parsers of apimachinery
pub record Objects (Object Value : Type 0) : Type 0 where
  pub name : Object → String
  pub kind : Object → String
  pub namespace : Object → String
  pub group_version_kind : Object → GroupVersionKind
  -- metav1.GetControllerOfNoCopy(o) != nil
  pub has_controller : Object → Bool
  pub marshal : Object → Result String
  pub unmarshal : String → Result Object
  pub unmarshal_fields : String → Result (Dict Value)
  pub empty_object : Object
  pub set_nested_field : Object → Value → String → Result Object
  pub set_group_version_kind : GroupVersionKind → Object → Object
  pub set_name : String → Object → Object
  pub set_namespace : String → Object → Object
  pub clear_managed_fields : Object → Object
  pub clear_resource_version : Object → Object
  pub parse_field_selector : String → Result String
  pub parse_label_selector : String → Result String

-- client.Client
pub record Client (Object W : Type 0) : Type 0 where
  pub get_sleep_info : String → String → W → Result SleepInfo
  pub get_execution : String → String → W → Result SleepInfoExecution
  pub get_secret : String → String → W → Result Secret
  pub create_secret : Secret → Exec W (Unit {0})
  pub update_secret : Secret → Exec W (Unit {0})
  pub update_sleep_info_status : SleepInfo → Exec W (Unit {0})
  -- the answer of the server replaces the object
  pub update_execution : SleepInfoExecution → Exec W SleepInfoExecution
  pub update_execution_status : SleepInfoExecution → Exec W (Unit {0})
  pub rest_mapping : GroupKind → W → Result GroupVersionKind
  -- items and error: on an error there can be items too
  pub list : GroupVersionKind → ListOptions → W → List Object × Option Error
  -- the new object and the one that the merge patch is from
  pub patch : Object → Object → Exec W (Unit {0})
  -- the object and its field owner, with ForceOwnership
  pub apply : Object → String → Exec W (Unit {0})
  -- controllerutil.SetOwnerReference, with the owner's kind from the scheme
  pub set_owner_reference : SleepInfo → SleepInfoExecution → Result SleepInfoExecution

-- prometheus.GaugeVec with the labels name and namespace; its registry is part of the state.
pub record Metrics (W : Type 0) : Type 0 where
  pub set_gauge : String → String → ℕ → W → W
  pub delete_gauge : String → String → W → W

pub record Platform (Object Value Operations Schedule W : Type 0) : Type 0 where
  pub cron : Cron Schedule
  pub json : JsonLib Operations
  pub codec : Codec
  pub objects : Objects Object Value
  pub client : Client Object W
  pub metrics : Metrics W
