-- ===== src/Tests/Alternating.antt =====
-- Runs at the instants that the controller asks for.
use kube_green.Base.{◌+◌, ◌-◌, ◌≡◌, refl, [], ◌∷◌, none, some, true, arith}
use kube_green.Base.{ok}
use kube_green.Base.Dict.{insert}
use kube_green.Base.Int.{pos}
use kube_green.Base.Clock.{Time}
use kube_green.Cluster.{Secret}
use kube_green.JsonPatch.Resources.{has_resource}
use kube_green.JsonPatch.Saved.{data_to_save, get_original_info_to_save, save_mapping}
use kube_green.Sleepinfo.{SleepInfoData, is_sleep_operation, is_wake_up_operation}
use kube_green.Sleepinfo.Data.{get_sleep_info_data}
use kube_green.Sleepinfo.Schedule.{
  NextSchedule, due, not_due, get_next_schedule, get_cron_parsed, decide_execution,
  is_time_in_delta, candidate, window_start, schedule_delta, get_requeue_after,
}
use kube_green.Sleepinfo.Schedule.Requeue.{get_next_schedule-requeued}
use kube_green.Sleepinfo.Secrets.{new_secret}
use kube_green.Sleepinfo.Secrets.Alternates.{get_next_schedule-new_secret}
use kube_green.Tests.Sample.{daily, daily_next, morning, encodings, encodings_read_back, distinct}
use kube_green.Tests.Cluster.{settings, working_hours, kept}
use kube_green.Tests.Scheduling.{plan, evening_hour, half_past, decided, decided_lem, read_first}
use kube_green.Tests.Storing.{after_sleep, sent_sleep, kept-IsStored, handled, wakes_at}

-- Noon, after a wake up in the morning.
abbrev noon : Time
noon = evening_hour - 28800000000000

abbrev woken_up : SleepInfoData
woken_up = record plan { last_schedule = evening_hour - 43200000000000 }

abbrev waits : NextSchedule
waits = not_due daily evening_hour noon

waits_lem : get_next_schedule daily (pos 60) woken_up noon ≡ ok waits
unfolding get_next_schedule get_cron_parsed decide_execution is_time_in_delta candidate window_start
    schedule_delta
waits_lem = refl

eight_hours : waits.requeue_after ≡ pos 28800000000000
unfolding get_requeue_after
eight_hours = refl

-- Five seconds late.
get_next_schedule-requeued_example :
    get_next_schedule daily (pos 60) woken_up (noon + 28800000000000 + 5000000000)
    ≡ ok (
        due daily
          (daily.next morning (noon + 28800000000000 + 5000000000 + 60000000000))
          (noon + 28800000000000 + 5000000000))
get_next_schedule-requeued_example =
    get_next_schedule-requeued daily daily_next 60 woken_up noon 28800000000000 5000000000 waits
      morning (omega arith) waits_lem refl (omega arith) refl (omega arith) eight_hours
      (omega arith) (omega arith)

abbrev sent : Secret
sent = record sent_sleep {
  string_data =
      ("scheduled-at", encodings.format_rfc3339 half_past) ∷ ("operation-type", "SLEEP") ∷ [];
}

sends :
    new_secret encodings settings half_past "sleepinfo-working-hours" "shop" working_hours plan
      after_sleep
    ≡ ok sent
unfolding new_secret has_resource get_original_info_to_save save_mapping data_to_save insert
sends = refl

until_morning : decided.requeue_after ≡ pos 43170000000000
unfolding get_requeue_after
until_morning = refl

get_next_schedule-new_secret_example :
    (info' : SleepInfoData) × (schedule' : NextSchedule) × (get_sleep_info_data encodings
        (some (kept sent))
        working_hours
      ≡ ok info')
    × (is_wake_up_operation info' ≡ true)
    × (is_sleep_operation info' ≡ is_wake_up_operation plan)
    × (get_next_schedule daily (pos 60) info' (half_past + 43170000000000 + 5000000000)
        ≡ ok schedule')
    × (schedule'.is_to_execute ≡ true)
get_next_schedule-new_secret_example =
    get_next_schedule-new_secret encodings encodings_read_back daily daily_next settings 60
      half_past 43170000000000 5000000000 "sleepinfo-working-hours" "shop" "00 08 * * 1-5"
      working_hours none plan decided after_sleep sent (kept sent) (omega arith) wakes_at
      (distinct "00 08 * * 1-5" "" refl) read_first decided_lem refl (omega arith) handled sends
      (kept-IsStored sent) (omega arith) until_morning (omega arith) (omega arith)
