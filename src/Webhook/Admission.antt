-- ===== src/Webhook/Admission.antt =====
-- What the admission of a SleepInfo means for its reconciliation.
use kube_green.Base.{Bool, true, not, ◌&&◌, ◌≡◌, String, ◌==◌, List, Option, some, arith, ◌⊎◌}
use kube_green.Base.{Result, ok, is_ok, eq_iff}
use kube_green.Base.Int.{ℤ}
use kube_green.Base.Clock.{Time}
use kube_green.Libraries.{Cron, JsonLib, Codec}
use kube_green.Api.{GroupKind, SleepInfo}
use kube_green.Api.Validate.Sound.{validate_sound}
use kube_green.Cluster.{Secret}
use kube_green.Webhook.{validate_create}
use kube_green.Sleepinfo.{SleepInfoData}
use kube_green.Sleepinfo.Data.{get_sleep_info_data}
use kube_green.Sleepinfo.Data.Operation.{PlansFor, get_sleep_info_data-PlansFor}
use kube_green.Sleepinfo.Execution.{is_asleep}
use kube_green.Sleepinfo.Schedule.{get_next_schedule, decide_execution, get_cron_parsed}

module _ {Schedule : Type 0} (cron : Cron Schedule) where
  is_ok-get_next_schedule :
      (sleep_delta : ℤ) (info : SleepInfoData) (now : Time)
      → is_ok (cron.parse_standard info.current_operation_schedule) ≡ true
      → is_ok (cron.parse_standard info.next_operation_schedule) ≡ true
      → is_ok (get_next_schedule cron sleep_delta info now) ≡ true
  unfolding get_next_schedule decide_execution get_cron_parsed
  is_ok-get_next_schedule sleep_delta info now h k = ground arith

  plans-parse :
      (asleep : Bool) (a b : String) (info : SleepInfoData)
      → PlansFor (asleep && not (b == "")) a b info
      → is_ok (cron.parse_standard a) ≡ true
      → (b ≡ "") ⊎ (is_ok (cron.parse_standard b) ≡ true)
      → (is_ok (cron.parse_standard info.current_operation_schedule) ≡ true)
        × (is_ok (cron.parse_standard info.next_operation_schedule) ≡ true)
  plans-parse asleep a b info plans h k = ground (arith, eq_iff b "")

  -- Once a SleepInfo is admitted, no reconciliation fails for its schedules: whatever the secret, from
  -- which the data can be read, and whatever the delta and the instant, the next schedule is found.
  pub get_next_schedule-validate_create :
      {Operations Mapping : Type 0} (json : JsonLib Operations)
      (rest_mapping : GroupKind → Result Mapping) (codec : Codec) (s : SleepInfo)
      (warnings : List String) (secret : Option Secret) (info : SleepInfoData) (sleep_delta : ℤ)
      (now : Time)
      → validate_create cron json rest_mapping (some s) ≡ ok warnings
      → get_sleep_info_data codec secret s ≡ ok info
      → is_ok (get_next_schedule cron sleep_delta info now) ≡ true
  unfolding validate_create
  get_next_schedule-validate_create json rest_mapping codec s warnings secret info sleep_delta now
        admitted read =
      let (a, b, sleeps, wakes, parses, wake_parses, _, _) =
        validate_sound cron json rest_mapping s warnings admitted in
      let (a', b', sleeps', wakes', plans) =
        get_sleep_info_data-PlansFor codec secret s info read in
      let same_a : a ≡ a' = cc (sleeps, sleeps') in
      let same_b : b ≡ b' = cc (wakes, wakes') in
      let (h, k) =
        plans-parse (is_asleep secret) a' b' info plans (rw same_a at parses)
          (rw same_b at wake_parses) in
      is_ok-get_next_schedule sleep_delta info now h k
