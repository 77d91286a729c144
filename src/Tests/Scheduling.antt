-- ===== src/Tests/Scheduling.antt =====
-- Schedules, their validation and what is due, for the working hours.
use kube_green.Base.{
  ℕ, ◌+◌, ◌-◌, ◌*◌, ◌^◌, ◌<◌, ◌⊎◌, true, not, ◌&&◌, String, ◌==◌, [], none, ◌≡◌, refl, inl, arith,
}
use kube_green.Base.{ok, is_ok, All, nat_eq}
use kube_green.Base.Int.{pos}
use kube_green.Base.Clock.{Time, zero_time}
use kube_green.Api.Patches.{get_patches}
use kube_green.Api.Schedule.{
  get_schedule_from_weekday_and_time, get_sleep_schedule, get_wake_up_schedule,
}
use kube_green.Api.Schedule.Format.{occurrences, is_ok-get_schedule}
use kube_green.Api.Validate.{validate}
use kube_green.Api.Validate.Sound.{validate_sound, unmapped}
use kube_green.Patcher.{new}
use kube_green.Webhook.{validate_create}
use kube_green.Webhook.Admission.{get_next_schedule-validate_create}
use kube_green.Sleepinfo.{SleepInfoData, sleep_operation}
use kube_green.Sleepinfo.Data.{initial_data, read_secret, get_sleep_info_data}
use kube_green.Sleepinfo.Schedule.{
  is_time_in_delta, get_next_schedule, NextSchedule, due, get_cron_parsed, decide_execution,
  candidate, window_start, schedule_delta,
}
use kube_green.Sleepinfo.Schedule.Window.{nanos}
use kube_green.Sleepinfo.Schedule.Next.{get_next_schedule-requeue}
use kube_green.Sleepinfo.Schedule.Due.{get_next_schedule_sound, get_next_schedule_complete}
use kube_green.Tests.Sample.{
  Daily, evening, morning, daily, daily_later, daily_first, documents, encodings,
}
use kube_green.Tests.Cluster.{server, awake, working_hours}

abbrev pub plan : SleepInfoData
plan = record {
  last_schedule = zero_time;
  current_operation_type = sleep_operation;
  current_operation_schedule = "00 20 * * 1-5";
  next_operation_schedule = "00 08 * * 1-5";
  original_generic_resource_info = none;
}

-- Eight in the evening of a day, and half a minute later.
abbrev pub evening_hour : Time
evening_hour = 106751991900000 * 86400000000000 + 72000000000000

abbrev pub half_past : Time
half_past = evening_hour + 30000000000

abbrev pub decided : NextSchedule
decided = due daily (106751991900001 * 86400000000000 + 28800000000000) half_past

pub decided_lem : get_next_schedule daily (pos 60) plan half_past ≡ ok decided
unfolding get_next_schedule get_cron_parsed decide_execution is_time_in_delta candidate window_start
    schedule_delta
decided_lem = refl

get_next_schedule_complete_example :
    get_next_schedule daily (pos 60) plan half_past
    ≡ ok (due daily (daily.next morning (half_past + nanos 60)) half_past)
get_next_schedule_complete_example =
    get_next_schedule_complete daily daily_first 60 plan half_past evening_hour evening morning
      (omega arith) refl refl refl (omega arith) (omega arith) (inl refl)

get_next_schedule-requeue_example :
    (decided.next_schedule ≡ zero_time)
    ⊎ ((half_past + nanos 60 < decided.next_schedule)
        × ((n : ℕ) × (decided.requeue_after ≡ pos n) × (nanos 60 < n)))
get_next_schedule-requeue_example =
    get_next_schedule-requeue daily daily_later 60 plan half_past decided (omega arith) decided_lem

get_next_schedule_sound_example :
    (sched : Daily) × (daily.parse_standard plan.current_operation_schedule ≡ ok sched)
    × ((t : Time) × ((t ≡ half_past - nanos 60) ⊎ (t ≡ plan.last_schedule))
        × (half_past < daily.next sched t + nanos 60 + 10 ^ 6)
        × (daily.next sched t < half_past + nanos 60 + 10 ^ 6))
get_next_schedule_sound_example =
    get_next_schedule_sound daily 60 plan half_past decided (omega arith) decided_lem refl

is_ok-get_schedule_example :
    is_ok (get_schedule_from_weekday_and_time working_hours "20:00:00")
    ≡ not (working_hours.spec.weekdays == "") && nat_eq (occurrences b':' "20:00:00") 1
is_ok-get_schedule_example = is_ok-get_schedule working_hours "20:00:00"

admitted :
    validate daily documents (λ target. server.rest_mapping target awake) working_hours ≡ ok []
unfolding validate get_sleep_schedule get_schedule_from_weekday_and_time get_wake_up_schedule
    get_patches new
admitted = refl

validate_sound_example :
    (sleep_schedule : String) × (wake_up_schedule : String) × (get_sleep_schedule working_hours
      ≡ ok sleep_schedule)
    × (get_wake_up_schedule working_hours ≡ ok wake_up_schedule)
    × (is_ok (daily.parse_standard sleep_schedule) ≡ true)
    × ((wake_up_schedule ≡ "") ⊎ (is_ok (daily.parse_standard wake_up_schedule) ≡ true))
    × All (λ patch. is_ok (new documents patch.patch) ≡ true) (get_patches working_hours)
    × (0
        ≡ unmapped daily documents
            (λ target. server.rest_mapping target awake)
            (get_patches working_hours))
validate_sound_example =
    validate_sound daily documents (λ target. server.rest_mapping target awake) working_hours []
      admitted

pub read_first : get_sleep_info_data encodings none working_hours ≡ ok plan
unfolding get_sleep_info_data get_sleep_schedule get_schedule_from_weekday_and_time
    get_wake_up_schedule read_secret initial_data
read_first = refl

get_next_schedule-validate_create_example :
    is_ok (get_next_schedule daily (pos 60) plan half_past) ≡ true
unfolding validate_create
get_next_schedule-validate_create_example =
    get_next_schedule-validate_create daily documents (λ target. server.rest_mapping target awake)
      encodings working_hours [] none plan (pos 60) half_past admitted read_first
