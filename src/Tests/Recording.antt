-- ===== src/Tests/Recording.antt =====
-- What a sleep of the namespace records, and what an old secret gives.
use kube_green.JsonPatch.Sleep.{
  apply_sleep, build_sparse_apply_object, patch_resource, sleep_entries, sleep_entry,
  sleep_resource, sleep_resources,
}
use kube_green.Patcher.{exec, new}
use kube_green.JsonPatch.Refresh.{refresh}
use kube_green.Base.Text.{decimal, split}
use kube_green.Resource.{ssa_patch}
use kube_green.Sleepinfo.OldSecret.{convert_old_secret_data_to_new_format}
use kube_green.Base.{false, String, [], ◌∷◌, Option, some, ◌≡◌, ◌≢◌, refl, inl}
use kube_green.Base.{ok}
use kube_green.Base.Dict.{Dict, lookup, insert}
use kube_green.Libraries.{RestorePatches}
use kube_green.Api.Patches.{deployment_target, deployment_patch}
use kube_green.JsonPatch.{GenericResource}
use kube_green.JsonPatch.Sleep.{sleep}
use kube_green.JsonPatch.Sleep.Namespace.{HoldsPatches, sleep-HoldsPatches}
use kube_green.Base.{In}
use kube_green.Sleepinfo.{replicas_before_sleep_key}
use kube_green.Sleepinfo.OldSecret.{deployments_to_restore, convert_old_secret_data_to_new_format}
use kube_green.Sleepinfo.OldSecret.Entries.{lookup-convert_old_secret_data_to_new_format}
use kube_green.Tests.Cluster.{platform}
use kube_green.Tests.Sample.{encodings, distinct}
use kube_green.Tests.Cluster.{Workload, World, awake, web, idle, resource_client}
use kube_green.Tests.Storing.{before_sleep}

abbrev listed_resource : GenericResource Workload World
listed_resource = record {
  client = resource_client;
  patch_data = deployment_patch;
  restore_patches = [];
  items = web ∷ idle ∷ [];
  is_cache_invalid = false;
}

slept : (sleep platform before_sleep awake).0 ≡ ok tt
unfolding sleep sleep_entries sleep_entry new refresh sleep_resources sleep_resource patch_resource
    exec split apply_sleep build_sparse_apply_object ssa_patch
slept = refl

sleep-HoldsPatches_example :
    (after : GenericResource Workload World) × In
      (deployment_target, after)
      (sleep platform before_sleep awake).1.res_mapping
    × HoldsPatches platform listed_resource after
sleep-HoldsPatches_example =
    sleep-HoldsPatches platform before_sleep awake deployment_target listed_resource
      ((refl, ((distinct "idle" "web" refl, tt), (tt, tt))), tt) (inl refl) slept

abbrev old_data : Dict String
old_data = ("deployment-replicas", "web 3") ∷ []

abbrev converted : Dict RestorePatches
converted =
    ("Service.", ("web", "4") ∷ [])
    ∷ ("Deployment.apps", ("web", "{\"spec\":{\"replicas\":3}}") ∷ [])
    ∷ []

abbrev stored_patches : Option (Dict RestorePatches)
stored_patches = some (("Service.", ("web", "4") ∷ []) ∷ [])

converts : convert_old_secret_data_to_new_format encodings stored_patches old_data ≡ ok converted
unfolding convert_old_secret_data_to_new_format lookup insert decimal
converts = refl

lookup-convert_old_secret_data_to_new_format_example :
    ((shown : String)
      → shown ≢ "Deployment.apps"
      → shown ≢ "CronJob.batch"
      → lookup shown converted ≡ lookup shown (("Service.", ("web", "4") ∷ []) ∷ []))
    × ((replicas : String)
        → lookup replicas_before_sleep_key old_data ≡ some replicas
        → (restored : RestorePatches) × (deployments_to_restore encodings (some replicas)
            ≡ ok restored)
          × (lookup "Deployment.apps" converted ≡ some restored))
lookup-convert_old_secret_data_to_new_format_example =
    lookup-convert_old_secret_data_to_new_format encodings stored_patches old_data converted
      converts
