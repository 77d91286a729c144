-- ===== src/Tests/Sleeping.antt =====
-- `Sleep` and `WakeUp` on the small cluster.
use kube_green.Base.{[], ◌∷◌, none, ◌≡◌, refl, sym, inl, inr, arith, true, false}
use kube_green.Base.{ok, err, Error, or_else}
use kube_green.Base.Dict.{lookup, insert}
use kube_green.Api.{PatchTarget, FilterRef}
use kube_green.Api.Patches.{deployment_target}
use kube_green.Patcher.{exec, is_resource_changed}
use kube_green.JsonPatch.{GenericResource, ManagedResources, Progress}
use kube_green.JsonPatch.Selectors.{match_patch_target_and_filter_ref}
use kube_green.JsonPatch.Selectors.Names.{match_patch_target_and_filter_ref-no_slash}
use kube_green.JsonPatch.Sleep.{sleep_resources, sleep_resource, patch_resource, apply_sleep, sleep}
use kube_green.JsonPatch.Sleep.Recorded.{restore_patch_of, DistinctNames, lookup-sleep_resources}
use kube_green.JsonPatch.Sleep.EmptyPatch.{sleep-empty_patch}
use kube_green.JsonPatch.WakeUp.{wake_up_resource}
use kube_green.JsonPatch.RoundTrip.{SleepsAs, wake_up_resource-sleep_resources_again}
use kube_green.JsonPatch.Unchanged.{IsAwaitingWakeUp, wake_up_resource-unchanged}
use kube_green.Base.Text.{split}
use kube_green.Resource.{ssa_patch}
use kube_green.JsonPatch.Sleep.{build_sparse_apply_object}
use kube_green.Tests.Sample.{distinct, documents, shown}
use kube_green.Tests.Restoring.{content}
use kube_green.Tests.Cluster.{
  Workload, World, platform, web, sleeping_web, idle, awake, resource_client, to_zero,
}

abbrev pub start : Progress World
start = record { world = awake; restore_patches = []; is_cache_invalid = false }

abbrev slept : Progress World
slept = record start { restore_patches = ("web", "3") ∷ [] }

pub web-SleepsAs : SleepsAs platform platform.objects.name content shown to_zero web sleeping_web
unfolding exec split
web-SleepsAs = record {
  original = "web:3:7";
  modified = "web:0:7";
  restore_patch = "3";
  current = "web:0:7|";
  again = "web:0:7|";
  restored = "web:3:7|";
  back = record sleeping_web { replicas = "3" };
  same_name = refl;
  same_object = refl;
  uncontrolled = refl;
  marshal_original = refl;
  applies = refl;
  merge_back = refl;
  changes = distinct "3" "{}" refl;
  says_modified = refl;
  marshal_asleep = refl;
  applies_again = refl;
  equal_again = refl;
  merges_back = refl;
  unmarshal_restored = refl;
  back_object = refl;
}

pub two_names : DistinctNames platform (web ∷ idle ∷ [])
two_names = ((distinct "idle" "web" refl, tt), (tt, tt))

pub loop_done : (sleep_resources platform resource_client to_zero (web ∷ idle ∷ []) start).0 ≡ ok tt
unfolding sleep_resources sleep_resource patch_resource exec split apply_sleep
    build_sparse_apply_object ssa_patch insert
loop_done = refl

pub loop_patches :
    (sleep_resources platform resource_client to_zero (web ∷ idle ∷ []) start).1.restore_patches
    ≡ ("web", "3") ∷ []
unfolding sleep_resources sleep_resource patch_resource exec split apply_sleep
    build_sparse_apply_object ssa_patch insert
loop_patches = refl

lookup-sleep_resources_example :
    lookup "web"
      (sleep_resources platform resource_client to_zero (web ∷ idle ∷ []) start).1.restore_patches
    ≡ or_else (restore_patch_of platform to_zero web) none
unfolding lookup
lookup-sleep_resources_example =
    lookup-sleep_resources platform resource_client to_zero (web ∷ idle ∷ []) start web two_names
      (inl refl) loop_done

pub idle_unchanged : restore_patch_of platform to_zero idle ≡ none
unfolding restore_patch_of exec split
idle_unchanged = refl

wake_up_resource-sleep_resources_again_example :
    (lookup "idle" slept.restore_patches ≡ none)
    × (wake_up_resource platform resource_client to_zero idle slept ≡ (ok tt, slept))
unfolding lookup
wake_up_resource-sleep_resources_again_example =
    wake_up_resource-sleep_resources_again platform resource_client resource_client to_zero
      (web ∷ idle ∷ []) start slept idle two_names (inr (inl refl)) idle_unchanged refl loop_done
      (sym loop_patches)

web_changed : is_resource_changed documents to_zero "web:3:7" ≡ ok true
unfolding is_resource_changed exec split
web_changed = refl

not_awaiting : ¬ IsAwaitingWakeUp platform to_zero web slept
not_awaiting h = absurd (ground (arith, h.marshalled, h.in_effect, web_changed))

wake_up_resource-unchanged_example :
    (wake_up_resource platform resource_client to_zero web slept).1 ≡ slept
wake_up_resource-unchanged_example =
    wake_up_resource-unchanged platform resource_client to_zero web slept not_awaiting

abbrev empty_resource : GenericResource Workload World
empty_resource = record {
  client = resource_client;
  patch_data = record { target = deployment_target; patch = "" };
  restore_patches = [];
  items = web ∷ [];
  is_cache_invalid = false;
}

abbrev pub with_empty_patch : ManagedResources Workload World
with_empty_patch = record {
  res_mapping = (deployment_target, empty_resource) ∷ [];
  namespace = "shop";
}

sleep-empty_patch_example : (e : Error) × ((sleep platform with_empty_patch awake).0 ≡ err e)
sleep-empty_patch_example =
    sleep-empty_patch platform with_empty_patch awake (deployment_target, empty_resource) (inl refl)
      refl

abbrev core_filter : FilterRef
core_filter = record { api_version = "v1"; kind = "Service"; name = "web"; match_labels = [] }

abbrev service_target : PatchTarget
service_target = record { group = ""; kind = "Service" }

match_patch_target_and_filter_ref-no_slash_example :
    match_patch_target_and_filter_ref service_target core_filter ≡ false
match_patch_target_and_filter_ref-no_slash_example =
    match_patch_target_and_filter_ref-no_slash service_target core_filter refl
