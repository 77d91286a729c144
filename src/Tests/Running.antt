-- ===== src/Tests/Running.antt =====
-- Runs of the two controllers on the small cluster, one after the other.
use kube_green.Base.{◌*◌, ◌+◌, ◌≡◌, refl, String, [], Option, some, true, arith, inr, All}
use kube_green.Base.{ok, is_ok, failure}
use kube_green.Base.Int.{pos}
use kube_green.Base.Clock.{Time}
use kube_green.Api.Patches.{get_patches}
use kube_green.Api.Schedule.{
  get_schedule_from_weekday_and_time, get_sleep_schedule, get_wake_up_schedule,
}
use kube_green.Api.Validate.{validate}
use kube_green.Patcher.{new}
use kube_green.Webhook.{validate_create}
use kube_green.Cluster.{Secret, Platform}
use kube_green.JsonPatch.Listing.{get_list_by_namespace}
use kube_green.JsonPatch.Selectors.{
  get_field_to_exclude, get_field_to_include, get_labels_to_exclude, get_labels_to_include,
  get_list_options,
}
use kube_green.Sleepinfo.Data.{get_sleep_info_data, initial_data}
use kube_green.Sleepinfo.Secrets.RoundTrip.{IsStored}
use kube_green.Sleepinfo.Secrets.Readable.{is_ok-get_sleep_info_data}
use kube_green.Sleepinfo.Reconcile.{
  reconcile, execute_operation, resource_client, secret_or_nil, handle_sleep_info_status,
  new_status,
}
use kube_green.Sleepinfo.Reconcile.Outcomes.{decision}
use kube_green.Sleepinfo.Reconcile.Unlisted.{
  FindsNothing, forgetful_secret, execute_operation-FindsNothing,
}
use kube_green.Sleepinfo.Execution as Execution
use kube_green.Sleepinfo.Runs.{Reach, scheduled, on_demand, here, later}
use kube_green.Sleepinfo.Runs.Reachable.{StoresSecrets, AllSent, is_ok-decision}
use kube_green.Tests.Sample.{Daily, daily, documents, encodings, encodings_read_back}
use kube_green.Tests.Cluster.{
  Workload, World, platform, server, gauges, settings, awake, working_hours, kept, workloads,
}
use kube_green.Tests.Reconciling.{demand}
use kube_green.Tests.Storing.{
  kept_sleep, kept-IsStored, sleep_plan, after_sleep, sent_sleep, sends_sleep, sleeps_at, wakes_at,
  wake_up_read,
}

-- Eight in the evening of a day after the zero time, and of the next one.
abbrev evening_hour : Time
evening_hour = 106751991900000 * 86400000000000 + 72000000000000

abbrev next_evening : Time
next_evening = 106751991900001 * 86400000000000 + 72000000000000

-- The cluster holds one secret.
abbrev holds : String → String → World → Option Secret
holds namespace name w = w.secret

kept-write : (sent stored : Secret) → some (kept sent) ≡ some stored → IsStored sent stored
kept-write sent stored e = let same : kept sent ≡ stored = cc in rw (← same) (kept-IsStored sent)

fetched-secret :
    (w : World) (stored : Secret) → server.get_secret "" "" w ≡ ok stored → w.secret ≡ some stored
fetched-secret w stored e = ground arith

abbrev stores : StoresSecrets server gauges holds IsStored
stores = record {
  created = λ sent entries w namespace name stored h e. inr (kept-write sent stored e);
  updated = λ sent entries w namespace name stored h e. inr (kept-write sent stored e);
  patched = λ _ _ _ _ _. refl;
  applied = λ _ _ _ _ _. refl;
  status_updated = λ _ _ _ _. refl;
  execution_updated = λ _ _ _ _. refl;
  execution_status_updated = λ _ _ _ _. refl;
  gauge_set = λ _ _ _ _ _. refl;
  gauge_deleted = λ _ _ _ _ _. refl;
  got = λ namespace name w stored e. fetched-secret w stored e;
}

abbrev commanded : World
commanded = record awake { execution = some demand }

-- After a run in the evening and an execution.
abbrev after_runs : World
after_runs =
    (Execution.reconcile platform settings evening_hour "shop" "now"
      (reconcile platform settings evening_hour "shop" "working-hours" commanded).1).1

abbrev runs : Reach platform commanded after_runs
runs =
    later (later here (scheduled settings evening_hour "shop" "working-hours"))
      (on_demand settings evening_hour "shop" "now")

no_secret : AllSent platform holds commanded
no_secret namespace name stored e = absurd (ground arith)

admitted :
    validate_create daily documents
      (λ target. server.rest_mapping target awake)
      (some working_hours)
    ≡ ok []
unfolding validate_create validate get_sleep_schedule get_schedule_from_weekday_and_time
    get_wake_up_schedule get_patches new
admitted = refl

fetches : (w : World) → is_ok (secret_or_nil (server.get_secret "" "" w)) ≡ true
fetches w = ground arith

is_ok-decision_example :
    is_ok (decision platform settings next_evening "shop" "working-hours" working_hours after_runs)
    ≡ true
is_ok-decision_example =
    is_ok-decision platform holds stores encodings_read_back
      (λ target. server.rest_mapping target awake) settings next_evening "shop" "working-hours"
      working_hours [] commanded after_runs no_secret runs admitted (fetches after_runs)

sleeps : is_ok (get_sleep_schedule working_hours) ≡ true
unfolding get_sleep_schedule get_schedule_from_weekday_and_time
sleeps = refl

wakes : is_ok (get_wake_up_schedule working_hours) ≡ true
unfolding get_wake_up_schedule get_schedule_from_weekday_and_time
wakes = refl

is_ok-get_sleep_info_data_example :
    is_ok (get_sleep_info_data encodings (some kept_sleep) working_hours) ≡ true
is_ok-get_sleep_info_data_example =
    is_ok-get_sleep_info_data encodings encodings_read_back settings 9 "sleepinfo-working-hours"
      "shop" working_hours sleep_plan after_sleep sent_sleep kept_sleep working_hours sends_sleep
      (kept-IsStored sent_sleep) sleeps wakes

-- The same cluster, asleep, whose listings fail.
abbrev cut_off : Platform Workload String String Daily World
cut_off = record platform {
  client = record server { list = λ gvk options w. ([], some (failure "timeout")) };
}

abbrev asleep : World
asleep = record awake { secret = some kept_sleep }

abbrev forgetful : Secret
forgetful = forgetful_secret cut_off settings evening_hour "shop" "working-hours" working_hours

lists_nothing :
    All
      (λ patch. FindsNothing (
        get_list_by_namespace workloads
          (resource_client cut_off settings working_hours)
          "shop"
          patch.target
          asleep))
      (get_patches working_hours)
unfolding get_patches get_list_by_namespace get_list_options get_field_to_include
    get_field_to_exclude get_labels_to_include get_labels_to_exclude
lists_nothing = (tt, tt)

abbrev told : World
told = record asleep {
  sleep_info = some (
      new_status cut_off.client evening_hour working_hours "WAKE_UP"
        (record { res_mapping = []; namespace = "shop" }));
}

tells :
    handle_sleep_info_status cut_off.client evening_hour working_hours "WAKE_UP"
      (record { res_mapping = []; namespace = "shop" })
      asleep
    ≡ (ok tt, told)
unfolding handle_sleep_info_status new_status
tells = refl

execute_operation-FindsNothing_example :
    ((execute_operation cut_off settings evening_hour "shop" "working-hours" working_hours
        (some kept_sleep)
        wake_up_read
        evening_hour
        (pos 1)
        asleep).1
      ≡ record told { secret = some (kept forgetful) })
    × (get_sleep_info_data encodings (some (kept forgetful)) working_hours
        ≡ ok (record (initial_data "00 20 * * 1-5" "00 08 * * 1-5") {
          last_schedule = encodings_read_back.truncated evening_hour;
          original_generic_resource_info = some [];
        }))
execute_operation-FindsNothing_example =
    execute_operation-FindsNothing cut_off settings encodings_read_back evening_hour "shop"
      "working-hours" working_hours kept_sleep (kept forgetful) wake_up_read evening_hour (pos 1)
      asleep told "00 20 * * 1-5" "00 08 * * 1-5" lists_nothing tells sleeps_at wakes_at
      (kept-IsStored forgetful)
