-- ===== src/Api.antt =====
-- api/v1alpha1: the types of SleepInfo and SleepInfoExecution, and the default patches. The methods
-- are in the modules below; fields of the embedded metadata are those that the program reads.
pub mod Schedule
pub mod Patches
pub mod Validate
pub mod Execution
use kube_green.Base.{Bool, String, ◌<>◌, List, Option}
use kube_green.Base.Dict.{Dict}
use kube_green.Base.Clock.{Time}

pub record FilterRef : Type 0 where
  pub api_version : String
  pub kind : String
  pub name : String
  pub match_labels : Dict String

pub record PatchTarget : Type 0 where
  pub group : String
  pub kind : String

pub record Patch : Type 0 where
  pub target : PatchTarget
  pub patch : String

pub record SleepInfoSpec : Type 0 where
  pub weekdays : String
  pub sleep_time : String
  pub wake_up_time : String
  pub time_zone : String
  pub exclude_ref : List FilterRef
  pub include_ref : List FilterRef
  pub suspend_cronjobs : Bool
  pub suspend_deployments : Option Bool
  pub suspend_stateful_sets : Option Bool
  pub patches : List Patch

pub record SleepInfoStatus : Type 0 where
  pub last_schedule_time : Time
  pub operation_type : String

pub record SleepInfo : Type 0 where
  pub name : String
  pub namespace : String
  pub uid : String
  pub spec : SleepInfoSpec
  pub status : SleepInfoStatus

-- metav1.OwnerReference
pub record OwnerReference : Type 0 where
  pub api_version : String
  pub kind : String
  pub name : String
  pub uid : String

pub record SleepInfoExecutionSpec : Type 0 where
  pub sleep_info_name : String
  pub operation : String

pub record SleepInfoExecutionStatus : Type 0 where
  pub phase : String
  pub start_time : Option Time
  pub completion_time : Option Time
  pub message : String

pub record SleepInfoExecution : Type 0 where
  pub name : String
  pub namespace : String
  pub owner_references : List OwnerReference
  pub spec : SleepInfoExecutionSpec
  pub status : SleepInfoExecutionStatus

-- `PatchTarget.String`
abbrev pub target_string : PatchTarget → String
target_string p = p.kind <> ("." <> p.group)

-- schema.GroupKind
pub record GroupKind : Type 0 where
  pub group : String
  pub kind : String

-- `PatchTarget.GroupKind`
abbrev pub group_kind : PatchTarget → GroupKind
group_kind p = record { group = p.group; kind = p.kind }

abbrev pub get_include_ref : SleepInfo → List FilterRef
get_include_ref s = s.spec.include_ref

abbrev pub get_exclude_ref : SleepInfo → List FilterRef
get_exclude_ref s = s.spec.exclude_ref
