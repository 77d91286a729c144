-- ===== src/Sleepinfo/Schedule/Next.antt =====
-- What `getNextSchedule` decides, for a delta of at most 10^9 seconds.
use Prim.Native.Nat.{min}
use kube_green.Base.{ℕ, ◌+◌, ◌-◌, ◌^◌, ◌≤◌, ◌<◌, ◌≡◌, ◌≢◌, ◌⊎◌, inl, inr, true, false, arith}
use kube_green.Base.{ok, Bool-cases, Result-cases}
use kube_green.Base.Int.{ℤ, pos}
use kube_green.Base.Clock.{Time, zero_time, add_time}
use kube_green.Libraries.{Cron, NextIsLater}
use kube_green.Sleepinfo.{SleepInfoData}
use kube_green.Sleepinfo.Schedule.{
  NextSchedule, is_time_in_delta, get_requeue_after, get_cron_parsed, candidate, decide_execution,
  due, not_due, get_next_schedule,
}
use kube_green.Sleepinfo.Schedule.Window.{
  nanos, schedule_delta_pos, is_time_in_delta_iff, window_start_lem,
}

module _ {Schedule : Type 0} (cron : Cron Schedule) where
  -- The three ways to the candidate.
  pub candidate_cases :
      (sched : Schedule) (seconds last_schedule now : ℕ)
      → seconds ≤ 10 ^ 9
      → let c = candidate cron sched (pos (nanos seconds)) last_schedule now in
        (c ≡ cron.next sched (now - nanos seconds))
        ⊎ ((c ≡ cron.next sched last_schedule)
            × (last_schedule ≢ zero_time)
            × ((now ≤ c) ⊎ (is_time_in_delta c now (pos (nanos seconds)) ≡ true)))
  unfolding candidate
  candidate_cases sched seconds last_schedule now h = ground (arith, window_start_lem now seconds h)

  -- A candidate outside the window lies behind it.
  pub candidate_later :
      NextIsLater cron
      → (sched : Schedule) (seconds last_schedule now : ℕ) → seconds ≤ 10 ^ 9
      → let c = candidate cron sched (pos (nanos seconds)) last_schedule now in
        is_time_in_delta now c (pos (nanos seconds)) ≡ false
        → (c ≡ zero_time) ⊎ (now + nanos seconds < c)
  candidate_later law sched seconds last_schedule now h out =
      let d : ℕ = nanos seconds in
      let c = candidate cron sched (pos d) last_schedule now in
      ground (
        arith,
        candidate_cases sched seconds last_schedule now h,
        law.later sched (now - d),
        is_time_in_delta_iff now c seconds h,
        is_time_in_delta_iff c now seconds h,
      )

  requeue_later :
      (next now d : ℕ)
      → d ≤ 10 ^ 18
      → (next ≡ zero_time) ⊎ (now + d < next)
      → (next ≡ zero_time)
        ⊎ ((now + d < next) × ((n : ℕ) × (get_requeue_after next now ≡ pos n) × (d < n)))
  unfolding get_requeue_after
  requeue_later next now d k (inl e) = inl e
  requeue_later next now d k (inr h) =
      inr (h, (min (next - now) (2 ^ 63 - 1), ground arith, ground arith))

  -- The two ways to a result.
  pub decide_execution_cases :
      (delta : ℤ) (info : SleepInfoData) (now next : Time) (r : NextSchedule)
      → decide_execution cron delta info now next ≡ ok r
      → ((is_time_in_delta now next delta ≡ true)
          × ((sched : Schedule) × (cron.parse_standard info.next_operation_schedule ≡ ok sched)
              × (r ≡ due cron (cron.next sched (add_time now delta)) now)))
        ⊎ ((is_time_in_delta now next delta ≡ false) × (r ≡ not_due cron next now))
  unfolding decide_execution get_cron_parsed
  decide_execution_cases delta info now next r h =
      elim (Bool-cases (is_time_in_delta now next delta)) [
        | inl e ↦ elim (Result-cases (cron.parse_standard info.next_operation_schedule)) [
          | inl (sched, parsed) ↦ inl (e, (sched, parsed, ground arith))
          | inr (m, failed) ↦ absurd (ground arith)
        ]
        | inr e ↦ inr (e, ground arith)
      ]

  pub get_next_schedule_cases :
      (seconds : ℕ) (info : SleepInfoData) (now : Time) (r : NextSchedule)
      → seconds ≤ 10 ^ 9
      → get_next_schedule cron (pos seconds) info now ≡ ok r
      → (sched : Schedule) × (cron.parse_standard info.current_operation_schedule ≡ ok sched)
        × (decide_execution cron
              (pos (nanos seconds))
              info
              now
              (candidate cron sched (pos (nanos seconds)) info.last_schedule now)
            ≡ ok r)
  unfolding get_next_schedule get_cron_parsed
  get_next_schedule_cases seconds info now r k h =
      elim (Result-cases (cron.parse_standard info.current_operation_schedule)) [
        | inl (sched, parsed) ↦ (sched, parsed, ground (arith, schedule_delta_pos seconds k))
        | inr (m, failed) ↦ absurd (ground arith)
      ]

  -- A run that is over in good order is looked at again only after the window: the next instant is
  -- more than the delta ahead, unless cron found no activation at all (its zero time), and so is
  -- the requeue. The delta is at most 10^9 seconds.
  pub get_next_schedule-requeue :
      NextIsLater cron
      → (seconds : ℕ) (info : SleepInfoData) (now : Time) (r : NextSchedule) → seconds ≤ 10 ^ 9
      → get_next_schedule cron (pos seconds) info now ≡ ok r
      → (r.next_schedule ≡ zero_time)
        ⊎ ((now + nanos seconds < r.next_schedule)
            × ((n : ℕ) × (r.requeue_after ≡ pos n) × (nanos seconds < n)))
  get_next_schedule-requeue law seconds info now r k h =
      let (sched, parsed, decided) = get_next_schedule_cases seconds info now r k h in
      let d : ℕ = nanos seconds in
      let c = candidate cron sched (pos d) info.last_schedule now in
      elim (decide_execution_cases (pos d) info now c r decided) [
        | inl (e, (next_op, p, same)) ↦
            rw same (requeue_later _ now d (omega arith) (law.later next_op (now + d)))
        | inr (e, same) ↦ rw same (
            requeue_later _ now d (omega arith)
              (candidate_later law sched seconds info.last_schedule now k e))
      ]
