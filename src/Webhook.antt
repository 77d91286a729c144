-- ===== src/Webhook.antt =====
-- internal/webhook/v1alpha1/sleepinfo_webhook.go: admission of SleepInfo objects. The object of a
-- request is `none` where it is not a SleepInfo.
pub mod Admission
use kube_green.Base.{String, Option, none, some, List, [], Result, ok, err, failure}
use kube_green.Libraries.{Cron, JsonLib}
use kube_green.Api.{GroupKind, group_kind, PatchTarget, SleepInfo}
use kube_green.Api.Validate.{validate}

module _ {Schedule Operations Mapping : Type 0} (cron : Cron Schedule) (json : JsonLib Operations)
    (rest_mapping : GroupKind → Result Mapping) where
  unfoldable pub validate_create : Option SleepInfo → Result (List String)
  validate_create none = err (failure "fails to decode SleepInfo")
  validate_create (some s) = validate cron json rest_mapping s

  -- The old object is not read.
  unfoldable pub validate_update : Option SleepInfo → Option SleepInfo → Result (List String)
  validate_update old none = err (failure "fails to decode SleepInfo")
  validate_update old (some s) = validate cron json rest_mapping s

unfoldable pub validate_delete : Option SleepInfo → Result (List String)
validate_delete none = err (failure "fails to decode SleepInfo")
validate_delete (some s) = ok []
