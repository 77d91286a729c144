-- ===== src/Api/Validate.antt =====
-- sleepinfo_types.go: `Validate`, which the admission webhook calls. The cron parser, the JSON patch
-- library and the REST mapping of the client are parameters.
pub mod Sound
pub mod Complete
use kube_green.Base.{String, ◌<>◌, ◌==◌, List, [], ◌∷◌, ◌++◌, if◌then◌else◌}
use kube_green.Base.{Result, ok, err, failure, message, ◌>>=◌}
use kube_green.Libraries.{Cron, JsonLib}
use kube_green.Patcher.{Patcher, new}
use kube_green.Api.{GroupKind, group_kind, PatchTarget, Patch, SleepInfo, target_string}
use kube_green.Api.Schedule.{get_sleep_schedule, get_wake_up_schedule}
use kube_green.Api.Patches.{get_patches}

module _ {Schedule Operations Mapping : Type 0} (cron : Cron Schedule) (json : JsonLib Operations)
    (rest_mapping : GroupKind → Result Mapping) where
  target_warnings : Result Mapping → List String
  target_warnings (ok m) = []
  target_warnings (err e) = ("SleepInfo patch target is invalid: " <> message e) ∷ []

  invalid_patch : Patch → Result (Patcher Operations) → Result (List String)
  invalid_patch patch (ok p) = ok []
  invalid_patch patch (err e) = err (
      failure
        ("patch is invalid for target " <> (target_string patch.target <> (": " <> message e))))

  -- The loop of `validatePatches`, with the warnings so far.
  validate_each : List String → List Patch → Result (List String)
  unfolding target_warnings invalid_patch
  validate_each warnings [] = ok warnings
  validate_each warnings (patch ∷ rest) =
      let later =
        validate_each (warnings ++ target_warnings (rest_mapping (group_kind patch.target))) rest in
      do _ ← invalid_patch patch (new json patch.patch); later

  unfoldable pub validate_patches : SleepInfo → Result (List String)
  unfolding validate_each
  validate_patches s = validate_each [] (get_patches s)

  validate_wake_up : SleepInfo → String → Result (List String)
  unfolding validate_patches
  validate_wake_up s schedule =
      if schedule == ""
      then validate_patches s
      else (do _ ← cron.parse_standard schedule; validate_patches s)

  unfoldable pub validate : SleepInfo → Result (List String)
  unfolding validate_wake_up
  validate s = do
    schedule ← get_sleep_schedule s
    _ ← cron.parse_standard schedule
    wake_up ← get_wake_up_schedule s
    validate_wake_up s wake_up
