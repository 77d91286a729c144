-- ===== src/Sleepinfo/Schedule.antt =====
-- schedule.go: whether an operation is due, and when the controller looks again.
pub mod Window
pub mod Next
pub mod Due
pub mod Requeue
use kube_green.Base.{Bool, true, false, not, ◌&&◌, String, ◌<>◌, ◌*◌, ◌^◌}
use kube_green.Base.{Result, ok, failure, annotate, ◌>>=◌, nat_eq, if◌then◌else◌}
use kube_green.Base.Int.{ℤ, -ℤ◌, leb_ℤ, wrap64, mul64}
use kube_green.Base.Clock.{Time, is_zero, add_time, before, sub_time, milliseconds}
use kube_green.Libraries.{Cron}
use kube_green.Sleepinfo.{SleepInfoData}

unfoldable pub is_time_in_delta : Time → Time → ℤ → Bool
is_time_in_delta t1 t2 delta =
    let diff_in_ms =
      if before t1 t2 then milliseconds (sub_time t2 t1) else milliseconds (sub_time t1 t2) in
    leb_ℤ diff_in_ms (milliseconds delta)

unfoldable pub get_requeue_after : Time → Time → ℤ
get_requeue_after schedule now = sub_time schedule now

-- The results of `getNextSchedule` but the error.
pub record NextSchedule : Type 0 where
  pub is_to_execute : Bool
  pub next_schedule : Time
  pub requeue_after : ℤ

-- time.Duration(r.SleepDelta) * time.Second
unfoldable pub schedule_delta : ℤ → ℤ
schedule_delta sleep_delta = mul64 sleep_delta (10 ^ 9)

-- now.Add(-scheduleDelta)
unfoldable pub window_start : Time → ℤ → Time
window_start now delta = add_time now (wrap64 (-ℤ◌ delta))

module _ {Schedule : Type 0} (cron : Cron Schedule) where
  unfoldable pub get_cron_parsed : (String → String) → String → Result Schedule
  get_cron_parsed context schedule =
      annotate (λ m. failure (context m)) (cron.parse_standard schedule)

  -- The activation of the current schedule that `now` is compared with.
  unfoldable pub candidate : Schedule → ℤ → Time → Time → Time
  candidate sched delta last_schedule now =
      let earliest_time = if is_zero last_schedule then window_start now delta else last_schedule in
      let next_schedule = cron.next sched earliest_time in
      if nat_eq earliest_time last_schedule
        && before next_schedule now
        && not (is_time_in_delta next_schedule now delta)
      then cron.next sched (window_start now delta)
      else next_schedule

  abbrev pub due : Time → Time → NextSchedule
  due next_schedule now = record {
    is_to_execute = true;
    next_schedule = next_schedule;
    requeue_after = get_requeue_after next_schedule now;
  }

  abbrev pub not_due : Time → Time → NextSchedule
  not_due next_schedule now = record {
    is_to_execute = false;
    next_schedule = next_schedule;
    requeue_after = get_requeue_after next_schedule now;
  }

  -- The rest, with the activation at hand.
  unfoldable pub decide_execution : ℤ → SleepInfoData → Time → Time → Result NextSchedule
  decide_execution delta info now next_schedule =
      if is_time_in_delta now next_schedule delta
      then (do
        next_op_sched ←
            get_cron_parsed (λ m. "next op schedule not valid: " <> m) info.next_operation_schedule
        ok (due (cron.next next_op_sched (add_time now delta)) now))
      else ok (not_due next_schedule now)

  unfoldable pub get_next_schedule : ℤ → SleepInfoData → Time → Result NextSchedule
  get_next_schedule sleep_delta info now = do
    sched ←
        get_cron_parsed (λ m. "current schedule not valid: " <> m) info.current_operation_schedule
    decide_execution (schedule_delta sleep_delta) info now
        (candidate sched (schedule_delta sleep_delta) info.last_schedule now)
