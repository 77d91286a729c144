-- ===== src/Api/Patches.antt =====
-- sleepinfo_types.go and defaultpatches.go: the patches that a SleepInfo applies.
use kube_green.Base.{Bool, true, Option, none, some, List, [], ◌∷◌, ◌++◌, if◌then◌else◌}
use kube_green.Api.{PatchTarget, Patch, SleepInfo}

abbrev pub deployment_target : PatchTarget
deployment_target = record { group = "apps"; kind = "Deployment" }

abbrev pub stateful_set_target : PatchTarget
stateful_set_target = record { group = "apps"; kind = "StatefulSet" }

abbrev pub cron_job_target : PatchTarget
cron_job_target = record { group = "batch"; kind = "CronJob" }

abbrev pub deployment_patch : Patch
deployment_patch = record {
  target = deployment_target;
  patch = "\n- op: add\n  path: /spec/replicas\n  value: 0";
}

abbrev pub stateful_set_patch : Patch
stateful_set_patch = record {
  target = stateful_set_target;
  patch = "\n- op: add\n  path: /spec/replicas\n  value: 0";
}

abbrev pub cronjob_patch : Patch
cronjob_patch = record {
  target = cron_job_target;
  patch = "\n- op: add\n  path: /spec/suspend\n  value: true";
}

unfoldable pub is_cronjobs_to_suspend : SleepInfo → Bool
is_cronjobs_to_suspend s = s.spec.suspend_cronjobs

-- `nil` means true.
abbrev or_true : Option Bool → Bool
or_true none = true
or_true (some b) = b

unfoldable pub is_deployments_to_suspend : SleepInfo → Bool
is_deployments_to_suspend s = or_true s.spec.suspend_deployments

unfoldable pub is_stateful_sets_to_suspend : SleepInfo → Bool
is_stateful_sets_to_suspend s = or_true s.spec.suspend_stateful_sets

unfoldable pub get_patches : SleepInfo → List Patch
unfolding is_cronjobs_to_suspend is_deployments_to_suspend is_stateful_sets_to_suspend
get_patches s =
    let patches : List Patch = if is_deployments_to_suspend s then deployment_patch ∷ [] else [] in
    let patches' =
      patches ++ (if is_stateful_sets_to_suspend s then stateful_set_patch ∷ [] else []) in
    let patches'' = patches' ++ (if is_cronjobs_to_suspend s then cronjob_patch ∷ [] else []) in
    patches'' ++ s.spec.patches
