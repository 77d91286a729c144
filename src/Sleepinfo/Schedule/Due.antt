-- ===== src/Sleepinfo/Schedule/Due.antt =====
-- Which activations `getNextSchedule` executes, for a delta of at most 10^9 seconds.
use kube_green.Base.{ℕ, ◌+◌, ◌-◌, ◌^◌, ◌≤◌, ◌<◌, ◌≡◌, ◌⊎◌, inl, inr, refl, true, arith}
use kube_green.Base.{ok}
use kube_green.Base.Int.{pos}
use kube_green.Base.Clock.{Time, zero_time}
use kube_green.Libraries.{Cron}
use kube_green.Sleepinfo.{SleepInfoData}
use kube_green.Sleepinfo.Schedule.{
  NextSchedule, is_time_in_delta, get_cron_parsed, candidate, decide_execution, due,
  get_next_schedule,
}
use kube_green.Sleepinfo.Schedule.Window.{nanos, schedule_delta_pos, is_time_in_delta_iff}
use kube_green.Sleepinfo.Schedule.Next.{
  candidate_cases, get_next_schedule_cases, decide_execution_cases,
}

-- `Next` gives the first activation after an instant.
pub record FindsFirst {Schedule : Type 0} (cron : Cron Schedule) (Fires : Schedule → Time → Type 0)
    : Type 0 where
  pub first :
      (s : Schedule) (t fire : Time)
      → Fires s fire
      → t < fire
      → (t < cron.next s t) × (cron.next s t ≤ fire)

module _ {Schedule : Type 0} (cron : Cron Schedule) where
  -- What is executed lies within the delta and a millisecond of `now`, and is the next activation of
  -- the current schedule after the last run, or after the start of the window.
  pub get_next_schedule_sound :
      (seconds : ℕ) (info : SleepInfoData) (now : Time) (r : NextSchedule)
      → seconds ≤ 10 ^ 9
      → get_next_schedule cron (pos seconds) info now ≡ ok r
      → r.is_to_execute ≡ true
      → (sched : Schedule) × (cron.parse_standard info.current_operation_schedule ≡ ok sched)
        × ((t : Time) × ((t ≡ now - nanos seconds) ⊎ (t ≡ info.last_schedule))
            × (now < cron.next sched t + nanos seconds + 10 ^ 6)
            × (cron.next sched t < now + nanos seconds + 10 ^ 6))
  get_next_schedule_sound seconds info now r k h e =
      let (sched, parsed, decided) = get_next_schedule_cases cron seconds info now r k h in
      let d : ℕ = nanos seconds in
      let c = candidate cron sched (pos d) info.last_schedule now in
      elim (decide_execution_cases cron (pos d) info now c r decided) [
        | inl (inside, _) ↦
            let bounds = (is_time_in_delta_iff now c seconds k).0 inside in
            elim (candidate_cases cron sched seconds info.last_schedule now k) [
              | inl same ↦
                  (sched, parsed, (now - d, inl refl, omega (arith, bounds), omega (arith, bounds)))
              | inr (same, _, _) ↦ (
                sched,
                parsed,
                (info.last_schedule, inr refl, omega (arith, bounds), omega (arith, bounds)),
              )
            ]
        | inr (_, same) ↦ absurd (ground arith)
      ]

  candidate_in_window :
      {Fires : Schedule → Time → Type 0}
      → FindsFirst cron Fires
      → (sched : Schedule) (seconds last_schedule now fire : ℕ) → seconds ≤ 10 ^ 9
      → Fires sched fire
      → now - nanos seconds < fire
      → fire ≤ now + nanos seconds
      → (last_schedule ≡ zero_time) ⊎ (last_schedule < fire)
      → is_time_in_delta now
          (candidate cron sched (pos (nanos seconds)) last_schedule now)
          (pos (nanos seconds))
        ≡ true
  candidate_in_window law sched seconds last_schedule now fire k fires after upto fresh =
      let c = candidate cron sched (pos (nanos seconds)) last_schedule now in
      ground (
        arith,
        candidate_cases cron sched seconds last_schedule now k,
        law.first sched (now - nanos seconds) fire fires,
        law.first sched last_schedule fire fires,
        is_time_in_delta_iff now c seconds k,
        is_time_in_delta_iff c now seconds k,
      )

  -- No activation is missed: one that lies within the delta of `now`, and after the last run if
  -- there was one, is executed, and the next instant is that of the next operation, the delta
  -- after `now`. Both schedules are ones that cron parses.
  pub get_next_schedule_complete :
      {Fires : Schedule → Time → Type 0}
      → FindsFirst cron Fires
      → (seconds : ℕ) (info : SleepInfoData) (now fire : Time) (sched next_op : Schedule)
      → seconds ≤ 10 ^ 9
      → cron.parse_standard info.current_operation_schedule ≡ ok sched
      → cron.parse_standard info.next_operation_schedule ≡ ok next_op
      → Fires sched fire
      → now - nanos seconds < fire
      → fire ≤ now + nanos seconds
      → (info.last_schedule ≡ zero_time) ⊎ (info.last_schedule < fire)
      → get_next_schedule cron (pos seconds) info now
        ≡ ok (due cron (cron.next next_op (now + nanos seconds)) now)
  unfolding get_next_schedule get_cron_parsed decide_execution
  get_next_schedule_complete law seconds info now fire sched next_op k p q fires after upto fresh =
      rw (
        p,
        schedule_delta_pos seconds k,
        candidate_in_window law sched seconds info.last_schedule now fire k fires after upto fresh,
        q,
      )
