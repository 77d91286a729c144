-- ===== src/Api/Schedule.antt =====
-- sleepinfo_types.go: the cron schedules of a SleepInfo.
pub mod Format
use kube_green.Base.{String, ◌<>◌, ◌==◌, List, [], ◌∷◌, Result, ok, err, failure, if◌then◌else◌}
use kube_green.Base.Text.{split}
use kube_green.Api.{SleepInfo}

-- From the test of `len(splittedTime)` on.
unfoldable pub schedule_from_parts : SleepInfo → String → List String → Result String
schedule_from_parts s hour_and_minute (hour ∷ minute ∷ []) =
    let schedule = minute <> (" " <> (hour <> (" * * " <> s.spec.weekdays))) in
    ok (
      if s.spec.time_zone == ""
      then schedule
      else "CRON_TZ=" <> (s.spec.time_zone <> (" " <> schedule)))
schedule_from_parts s hour_and_minute _ =
    err (failure ("time should be of format HH:mm, actual: " <> hour_and_minute))

unfoldable pub get_schedule_from_weekday_and_time : SleepInfo → String → Result String
unfolding schedule_from_parts split
get_schedule_from_weekday_and_time s hour_and_minute =
    if s.spec.weekdays == ""
    then err (failure "empty weekdays from SleepInfo configuration")
    else schedule_from_parts s hour_and_minute (split b':' hour_and_minute)

unfoldable pub get_sleep_schedule : SleepInfo → Result String
get_sleep_schedule s = get_schedule_from_weekday_and_time s s.spec.sleep_time

unfoldable pub get_wake_up_schedule : SleepInfo → Result String
get_wake_up_schedule s =
    if s.spec.wake_up_time == ""
    then ok ""
    else get_schedule_from_weekday_and_time s s.spec.wake_up_time
