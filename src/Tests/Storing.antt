-- ===== src/Tests/Storing.antt =====
-- The secret of the working hours, and the resources that it is for.
use kube_green.JsonPatch.Saved.{save_mapping}
use kube_green.JsonPatch.Listing.{get_list_by_namespace}
use kube_green.JsonPatch.Selectors.{
  get_field_to_exclude, get_field_to_include, get_labels_to_exclude, get_labels_to_include,
  get_list_options,
}
use kube_green.Base.{true, false, String, [], ◌∷◌, Option, none, some, ◌≡◌, refl, inl, arith}
use kube_green.Base.{ok, or_else}
use kube_green.Base.Dict.{Dict, lookup, insert, lookup-insert}
use kube_green.Libraries.{RestorePatches}
use kube_green.Api.Patches.{deployment_target, deployment_patch, get_patches}
use kube_green.Api.Schedule.{
  get_sleep_schedule, get_wake_up_schedule, get_schedule_from_weekday_and_time,
}
use kube_green.Cluster.{Secret}
use kube_green.JsonPatch.{ManagedResources}
use kube_green.JsonPatch.Saved.{
  data_to_save, get_original_info_to_save, get_original_info_to_restore,
}
use kube_green.JsonPatch.Saved.RoundTrip.{
  patch_of, get_original_info_to_restore-get_original_info_to_save,
}
use kube_green.JsonPatch.Resources.{new_resources, has_resource, restore_patches_for}
use kube_green.JsonPatch.Resources.Mapping.{entry_of, last_resource, entry_of-new_resources}
use kube_green.Sleepinfo.{SleepInfoData, sleep_operation, wake_up_operation}
use kube_green.Sleepinfo.Data.{get_sleep_info_data}
use kube_green.Sleepinfo.Secrets.{new_secret}
use kube_green.Sleepinfo.Secrets.RoundTrip.{
  IsStored, entries_of, get_sleep_info_data-new_secret_sleep,
  get_sleep_info_data-new_secret_wake_up,
}
use kube_green.Tests.Sample.{encodings, encodings_read_back, distinct}
use kube_green.Tests.Cluster.{
  Workload, World, workloads, awake, web, idle, working_hours, resource_client, settings, kept,
  merged,
}

-- What `NewResources` finds before a sleep, and the same after it.
abbrev pub resources_with : RestorePatches → ManagedResources Workload World
resources_with patches = record {
  res_mapping =
      (
        deployment_target,
        record {
          client = resource_client;
          patch_data = deployment_patch;
          restore_patches = patches;
          items = web ∷ idle ∷ [];
          is_cache_invalid = false;
        },
      )
      ∷ [];
  namespace = "shop";
}

abbrev pub plan_of : String → String → String → SleepInfoData
plan_of operation current next = record {
  last_schedule = 7;
  current_operation_type = operation;
  current_operation_schedule = current;
  next_operation_schedule = next;
  original_generic_resource_info = none;
}

abbrev pub sleep_plan : SleepInfoData
sleep_plan = plan_of sleep_operation "00 20 * * 1-5" "00 08 * * 1-5"

abbrev pub wake_up_plan : SleepInfoData
wake_up_plan = plan_of wake_up_operation "00 08 * * 1-5" "00 20 * * 1-5"

abbrev blank_secret : Secret
blank_secret = record {
  name = "sleepinfo-working-hours";
  namespace = "shop";
  labels = ("app.kubernetes.io/managed-by", "kube-green") ∷ [];
  owner_references =
      record {
        api_version = "kube-green.com/v1alpha1";
        kind = "SleepInfo";
        name = "working-hours";
        uid = "1";
      }
      ∷ [];
  data_map = some [];
  string_data = [];
}

abbrev pub sent_sleep : Secret
sent_sleep = record blank_secret {
  data_map = some (("original-resource-info", "3") ∷ []);
  string_data = ("scheduled-at", "|||||||||") ∷ ("operation-type", "SLEEP") ∷ [];
}

abbrev pub kept_sleep : Secret
kept_sleep = kept sent_sleep

abbrev sent_wake_up : Secret
sent_wake_up = record blank_secret {
  string_data = ("scheduled-at", "|||||||||") ∷ ("operation-type", "WAKE_UP") ∷ [];
}

abbrev pub wake_up_read : SleepInfoData
wake_up_read = record wake_up_plan {
  last_schedule = 9;
  original_generic_resource_info = some (("Deployment.apps", ("web", "3") ∷ []) ∷ []);
}

abbrev pub before_sleep : ManagedResources Workload World
before_sleep = resources_with []

abbrev pub after_sleep : ManagedResources Workload World
after_sleep = resources_with (("web", "3") ∷ [])

lookup-merged :
    (k : String) (strings entries : Dict String)
    → lookup k (merged strings entries) ≡ or_else (lookup k strings) (lookup k entries)
unfolding lookup
lookup-merged k [] entries = refl
lookup-merged k ((j, v) ∷ strings) entries =
    ground (arith, lookup-insert j k v (merged strings entries), lookup-merged k strings entries)

pub kept-IsStored : (sent : Secret) → IsStored sent (kept sent)
kept-IsStored sent = record {
  entries = merged sent.string_data (entries_of sent.data_map);
  has_data = refl;
  merged = λ k. lookup-merged k sent.string_data (entries_of sent.data_map);
}

pub sleeps_at : get_sleep_schedule working_hours ≡ ok "00 20 * * 1-5"
unfolding get_sleep_schedule get_schedule_from_weekday_and_time
sleeps_at = refl

pub wakes_at : get_wake_up_schedule working_hours ≡ ok "00 08 * * 1-5"
unfolding get_wake_up_schedule get_schedule_from_weekday_and_time
wakes_at = refl

pub sends_sleep :
    new_secret encodings settings 9 "sleepinfo-working-hours" "shop" working_hours sleep_plan
      after_sleep
    ≡ ok sent_sleep
unfolding new_secret has_resource get_original_info_to_save save_mapping data_to_save insert
sends_sleep = refl

sends_wake_up :
    new_secret encodings settings 9 "sleepinfo-working-hours" "shop" working_hours wake_up_plan
      after_sleep
    ≡ ok sent_wake_up
unfolding new_secret has_resource insert
sends_wake_up = refl

pub handled : has_resource after_sleep ≡ true
unfolding has_resource
handled = refl

get_sleep_info_data-new_secret_sleep_example :
    (restored : Dict RestorePatches) × (get_sleep_info_data encodings
        (some kept_sleep)
        working_hours
      ≡ ok (record wake_up_plan {
        last_schedule = encodings_read_back.truncated 9;
        original_generic_resource_info = some restored;
      }))
    × ((shown resource : String)
        → patch_of shown resource restored
          ≡ patch_of shown resource (data_to_save [] after_sleep.res_mapping))
get_sleep_info_data-new_secret_sleep_example =
    get_sleep_info_data-new_secret_sleep encodings encodings_read_back settings 9
      "sleepinfo-working-hours" "shop" working_hours sleep_plan after_sleep sent_sleep kept_sleep
      "00 20 * * 1-5" "00 08 * * 1-5" sleeps_at wakes_at (distinct "00 08 * * 1-5" "" refl) handled
      refl sends_sleep (kept-IsStored sent_sleep)

get_sleep_info_data-new_secret_wake_up_example :
    get_sleep_info_data encodings (some (kept sent_wake_up)) working_hours
    ≡ ok (record sleep_plan {
      last_schedule = encodings_read_back.truncated 9;
      original_generic_resource_info = some [];
    })
get_sleep_info_data-new_secret_wake_up_example =
    get_sleep_info_data-new_secret_wake_up encodings encodings_read_back settings 9
      "sleepinfo-working-hours" "shop" working_hours wake_up_plan after_sleep sent_wake_up
      (kept sent_wake_up) "00 20 * * 1-5" "00 08 * * 1-5" sleeps_at wakes_at
      (distinct "00 08 * * 1-5" "" refl) handled refl sends_wake_up (kept-IsStored sent_wake_up)

saves_patches : get_original_info_to_save encodings after_sleep ≡ ok (some "3")
unfolding get_original_info_to_save save_mapping data_to_save insert
saves_patches = refl

get_original_info_to_restore-get_original_info_to_save_example :
    (restored : Option (Dict RestorePatches)) × (get_original_info_to_restore encodings (some "3")
      ≡ ok restored)
    × ((name : String)
        → lookup name (restore_patches_for restored deployment_target)
          ≡ lookup name (("web", "3") ∷ []))
get_original_info_to_restore-get_original_info_to_save_example =
    get_original_info_to_restore-get_original_info_to_save encodings encodings_read_back.patches
      after_sleep (some "3") deployment_target
      (record {
        client = resource_client;
        patch_data = deployment_patch;
        restore_patches = ("web", "3") ∷ [];
        items = web ∷ idle ∷ [];
        is_cache_invalid = false;
      })
      (tt, tt) (inl refl) saves_patches

finds_resources : new_resources workloads resource_client "shop" none awake ≡ ok before_sleep
unfolding new_resources get_patches get_list_by_namespace get_list_options get_field_to_include
    get_field_to_exclude get_labels_to_include get_labels_to_exclude
finds_resources = refl

entry_of-new_resources_example :
    entry_of deployment_target before_sleep.res_mapping
    ≡ last_resource workloads resource_client "shop" none awake deployment_target
        (get_patches working_hours)
entry_of-new_resources_example =
    entry_of-new_resources workloads resource_client working_hours "shop" none awake before_sleep
      deployment_target refl finds_resources
