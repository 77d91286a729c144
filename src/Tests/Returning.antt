-- ===== src/Tests/Returning.antt =====
-- A night of the small cluster: the sleep, its secret, and the wake up that reads it.
use kube_green.Base.{[], ◌∷◌, some, ◌≡◌, refl, List}
use kube_green.Base.{false}
use kube_green.Base.Dict.{lookup, insert}
use kube_green.Base.Text.{split}
use kube_green.Api.Patches.{deployment_target, deployment_patch}
use kube_green.Patcher.{new, exec, is_resource_changed}
use kube_green.Resource.{patch, ssa_patch}
use kube_green.JsonPatch.{GenericResource, ManagedResources}
use kube_green.JsonPatch.Refresh.{refresh}
use kube_green.JsonPatch.Sleep.{
  sleep, sleep_entry, sleep_entries, sleep_resources, sleep_resource, patch_resource, apply_sleep,
  build_sparse_apply_object,
}
use kube_green.JsonPatch.WakeUp.{
  wake_up, wake_up_entry, wake_up_entries, wake_up_resources, wake_up_resource, restore_resource,
}
use kube_green.JsonPatch.Restored.Namespace.{Round}
use kube_green.Tests.Cluster.{
  Workload, World, platform, awake, web, sleeping_web, idle, resource_client,
}
use kube_green.Tests.Restoring.{found}
use kube_green.Tests.Storing.{before_sleep, kept_sleep}

abbrev asleep : World
asleep = record awake { items = sleeping_web ∷ idle ∷ []; secret = some kept_sleep }

-- The Deployments that the sleep handles, and those that the wake up finds.
abbrev before_deployments : GenericResource Workload World
before_deployments = record {
  client = resource_client;
  patch_data = deployment_patch;
  restore_patches = [];
  items = web ∷ idle ∷ [];
  is_cache_invalid = false;
}

abbrev waking_deployments : GenericResource Workload World
waking_deployments = record before_deployments {
  restore_patches = ("web", "3") ∷ [];
  items = sleeping_web ∷ idle ∷ [];
}

abbrev waking : ManagedResources Workload World
waking = record { res_mapping = (deployment_target, waking_deployments) ∷ []; namespace = "shop" }

-- The world that the sleep leads to, but for the secret.
falls_asleep :
    (sleep platform before_sleep awake).2 ≡ record awake { items = sleeping_web ∷ idle ∷ [] }
unfolding sleep sleep_entries sleep_entry refresh sleep_resources sleep_resource patch_resource exec
    split apply_sleep build_sparse_apply_object ssa_patch insert new
falls_asleep = refl

-- The Deployment is back, in yet another version.
wakes_up :
    (wake_up platform waking asleep).2
    ≡ record asleep { items = record web { version = "7||" } ∷ idle ∷ [] }
unfolding wake_up wake_up_entries wake_up_entry refresh wake_up_resources wake_up_resource
    restore_resource is_resource_changed exec split patch lookup new
wakes_up = refl

abbrev night : List (Round Workload World)
night = ((deployment_target, waking_deployments), found) ∷ []
