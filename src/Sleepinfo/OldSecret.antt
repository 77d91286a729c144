-- ===== src/Sleepinfo/OldSecret.antt =====
-- deployments.go, cronjobs.go, and `convertOldSecretDataToNewFormat` of sleepinfodata.go: the state
-- that older versions stored, as restore patches.
pub mod Entries
use kube_green.Base.{Bool, true, false, String, ◌<>◌, ◌==◌, Option, none, some, List, [], ◌∷◌}
use kube_green.Base.{Result, ok, failure, annotate, ◌>>=◌, if◌then◌else◌}
use kube_green.Base.Text.{decimal}
use kube_green.Base.Dict.{Dict, lookup, insert}
use kube_green.Libraries.{Codec, RestorePatches, OriginalReplicas, OriginalCronJobStatus}
use kube_green.Api.{target_string}
use kube_green.Api.Patches.{deployment_target, cron_job_target}
use kube_green.Sleepinfo.{replicas_before_sleep_key, original_cronjob_status_key}

unfoldable pub replicas_patch : OriginalReplicas → String
replicas_patch info = "{\"spec\":{\"replicas\":" <> (decimal info.replicas <> "}}")

-- The loop of deployments.go; an entry with no name is left out.
unfoldable pub replicas_patches : RestorePatches → List OriginalReplicas → RestorePatches
unfolding replicas_patch
replicas_patches patches [] = patches
replicas_patches patches (info ∷ rest) =
    replicas_patches
      (if info.name == "" then patches else insert info.name (replicas_patch info) patches) rest

-- `%t`
show_bool : Bool → String
show_bool true = "true"
show_bool false = "false"

suspend_patch : OriginalCronJobStatus → String
unfolding show_bool
suspend_patch info = "{\"spec\":{\"suspend\":" <> (show_bool info.suspend <> "}}")

-- The loop of cronjobs.go.
unfoldable pub suspend_patches : RestorePatches → List OriginalCronJobStatus → RestorePatches
unfolding suspend_patch
suspend_patches patches [] = patches
suspend_patches patches (info ∷ rest) =
    suspend_patches
      (if info.name == "" then patches else insert info.name (suspend_patch info) patches) rest

module _ (codec : Codec) where
  -- deployments.GetOriginalInfoToRestore; nil bytes are `none`.
  unfoldable pub deployments_to_restore : Option String → Result RestorePatches
  unfolding replicas_patches
  deployments_to_restore none = ok []
  deployments_to_restore (some saved) = do
    replicas ← codec.unmarshal_replicas saved
    ok (replicas_patches [] replicas)

  -- cronjobs.GetOriginalInfoToRestore
  unfoldable pub cron_jobs_to_restore : Option String → Result RestorePatches
  unfolding suspend_patches
  cron_jobs_to_restore none = ok []
  cron_jobs_to_restore (some saved) = do
    statuses ← codec.unmarshal_cron_jobs saved
    ok (suspend_patches [] statuses)

  convert_deployments : Dict RestorePatches → Option String → Result (Dict RestorePatches)
  unfolding deployments_to_restore
  convert_deployments info none = ok info
  convert_deployments info (some replicas) = do
    restored ←
        annotate (λ m. failure ("fails to set original deployment replicas info to restore: " <> m))
          (deployments_to_restore (some replicas))
    ok (insert (target_string deployment_target) restored info)

  convert_cron_jobs : Dict RestorePatches → Option String → Result (Dict RestorePatches)
  unfolding cron_jobs_to_restore
  convert_cron_jobs info none = ok info
  convert_cron_jobs info (some status) = do
    restored ←
        annotate (λ m. failure ("fails to set original cronjob status info to restore: " <> m))
          (cron_jobs_to_restore (some status))
    ok (insert (target_string cron_job_target) restored info)

  -- `make` of a nil map
  abbrev pub or_empty : Option (Dict RestorePatches) → Dict RestorePatches
  or_empty none = []
  or_empty (some info) = info

  unfoldable pub convert_old_secret_data_to_new_format :
      Option (Dict RestorePatches) → Dict String → Result (Dict RestorePatches)
  unfolding convert_deployments convert_cron_jobs
  convert_old_secret_data_to_new_format original secret_data = do
    info ← convert_deployments (or_empty original) (lookup replicas_before_sleep_key secret_data)
    convert_cron_jobs info (lookup original_cronjob_status_key secret_data)
