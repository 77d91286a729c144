-- ===== src/Tests/Reconciling.antt =====
-- Runs of the two reconcilers on the small cluster.
use kube_green.Sleepinfo.Data.{get_sleep_info_data, initial_data, read_secret}
use kube_green.Api.Schedule.{
  get_schedule_from_weekday_and_time, get_sleep_schedule, get_wake_up_schedule,
}
use kube_green.Sleepinfo.Schedule.{
  candidate, decide_execution, get_cron_parsed, is_time_in_delta, schedule_delta, window_start,
}
use kube_green.JsonPatch.Sleep.{sleep_entries, sleep_entry}
use kube_green.Base.Dict.{insert, lookup}
use kube_green.Base.{
  ℕ, ◌<◌, ◌+◌, ◌*◌, true, false, String, [], ◌∷◌, none, some, ◌≡◌, ◌≢◌, refl, inl, arith,
}
use kube_green.Base.{json_patch, ok, err}
use kube_green.Base.Int.{pos}
use kube_green.Base.Clock.{Time, zero_time}
use kube_green.Api.{SleepInfoExecution}
use kube_green.Api.Execution.{
  is_processed, execution_op_sleep, execution_phase_succeeded, execution_phase_skipped,
}
use kube_green.JsonPatch.Sleep.{sleep}
use kube_green.Sleepinfo.{SleepInfoData, sleep_operation}
use kube_green.Sleepinfo.Schedule.{NextSchedule, not_due, get_next_schedule}
use kube_green.Sleepinfo.Schedule.Window.{nanos}
use kube_green.Sleepinfo.Flow.{after, finished, ended}
use kube_green.Sleepinfo.Execution.{with_status, set_owner_reference, is_asleep}
use kube_green.Sleepinfo.Execution as Execution
use kube_green.Sleepinfo.Execution.Outcomes.{reconcile-with_status, reconcile-skips}
use kube_green.Sleepinfo.Reconcile.{reconcile}
use kube_green.Sleepinfo.Reconcile.Outcomes.{decision, is_executed, reconcile-not_due}
use kube_green.Tests.Sample.{daily, daily_later}
use kube_green.Tests.Cluster.{World, platform, server, settings, awake, working_hours}
use kube_green.Tests.Sleeping.{with_empty_patch}
use kube_green.Tests.Storing.{kept_sleep}

-- Noon of a day after the zero time, and eight in the evening of that day.
abbrev noon : Time
noon = 106751991900000 * 86400000000000 + 43200000000000

abbrev pub evening_hour : Time
evening_hour = 106751991900000 * 86400000000000 + 72000000000000

abbrev observed : World
observed = record awake { gauge = 1 }

abbrev waiting : NextSchedule
waiting = not_due daily evening_hour noon

waits : decision platform settings noon "shop" "working-hours" working_hours observed ≡ ok waiting
unfolding get_next_schedule get_sleep_info_data get_sleep_schedule
    get_schedule_from_weekday_and_time get_wake_up_schedule read_secret get_cron_parsed initial_data
    decide_execution is_time_in_delta candidate window_start schedule_delta
waits = refl

not_now :
    is_executed platform settings
      (decision platform settings noon "shop" "working-hours" working_hours observed)
    ≡ false
unfolding get_next_schedule get_sleep_info_data get_sleep_schedule
    get_schedule_from_weekday_and_time get_wake_up_schedule read_secret get_cron_parsed initial_data
    decide_execution is_time_in_delta candidate window_start schedule_delta
not_now = refl

later_than_zero : evening_hour ≢ zero_time
later_than_zero e = omega (arith, e)

reconcile-not_due_example :
    (n : ℕ) × (reconcile platform settings noon "shop" "working-hours" awake
      ≡ (after (pos n), observed))
    × (nanos 60 < n)
reconcile-not_due_example =
    reconcile-not_due platform settings daily_later 60 noon "shop" "working-hours" awake
      working_hours waiting refl (omega arith) refl waits refl later_than_zero

abbrev sleep_plan : SleepInfoData
sleep_plan = record {
  last_schedule = zero_time;
  current_operation_type = sleep_operation;
  current_operation_schedule = "00 20 * * 1-5";
  next_operation_schedule = "00 08 * * 1-5";
  original_generic_resource_info = none;
}

refused :
    sleep platform with_empty_patch awake
    ≡ (err (json_patch "invalid empty patch"), with_empty_patch, awake)
unfolding sleep sleep_entries sleep_entry
refused = refl

abbrev pub demand : SleepInfoExecution
demand = record {
  name = "now";
  namespace = "shop";
  owner_references = [];
  spec = record { sleep_info_name = "working-hours"; operation = execution_op_sleep };
  status = record { phase = ""; start_time = none; completion_time = none; message = "" };
}

abbrev pub demand_done : World
demand_done = record awake {
  execution = some (with_status demand noon execution_phase_succeeded "operation SLEEP executed");
}

reconcile-with_status_example :
    Execution.reconcile platform settings evening_hour "shop" "now" demand_done
    ≡ (finished, demand_done)
reconcile-with_status_example =
    reconcile-with_status platform settings evening_hour noon "shop" "now" execution_phase_succeeded
      "operation SLEEP executed" demand demand_done (inl refl) refl

abbrev asleep : World
asleep = record awake { secret = some kept_sleep; execution = some demand }

abbrev pub demand_owned : SleepInfoExecution
demand_owned = record demand {
  owner_references =
      record {
        api_version = "kube-green.com/v1alpha1";
        kind = "SleepInfo";
        name = "working-hours";
        uid = "1";
      }
      ∷ [];
}

abbrev asleep_owned : World
asleep_owned = record asleep { execution = some demand_owned }

owns : set_owner_reference server demand working_hours asleep ≡ (ok demand_owned, asleep_owned)
unfolding set_owner_reference
owns = refl

fresh : is_processed demand ≡ false
unfolding is_processed
fresh = refl

says_asleep : is_asleep (some kept_sleep) ≡ true
unfolding is_asleep lookup insert
says_asleep = refl

reconcile-skips_example :
    (text : String) × (Execution.reconcile platform settings noon "shop" "now" asleep ≡ (
      let (sent, w) =
        server.update_execution_status
          (with_status demand_owned noon execution_phase_skipped text)
          asleep_owned in
      (ended sent, w)))
reconcile-skips_example =
    reconcile-skips platform settings noon "shop" "now" demand demand_owned working_hours
      (some kept_sleep) asleep asleep_owned refl fresh refl owns refl (inl (refl, says_asleep))
