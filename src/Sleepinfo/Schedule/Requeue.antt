-- ===== src/Sleepinfo/Schedule/Requeue.antt =====
-- What the controller finds when it looks again, for a delta of at most 10^9 seconds.
use kube_green.Base.{ℕ, ◌+◌, ◌-◌, ◌^◌, ◌≤◌, ◌<◌, ◌≡◌, ◌≢◌, ◌⊎◌, inl, inr, refl, true, false, arith}
use kube_green.Base.{ok}
use kube_green.Base.Int.{pos}
use kube_green.Base.Clock.{Time, zero_time}
use kube_green.Libraries.{Cron, NextIsLater}
use kube_green.Sleepinfo.{SleepInfoData}
use kube_green.Sleepinfo.Schedule.{
  NextSchedule, get_requeue_after, candidate, due, get_next_schedule,
}
use kube_green.Sleepinfo.Schedule.Window.{nanos}
use kube_green.Sleepinfo.Schedule.Next.{
  candidate_cases, candidate_later, get_next_schedule_cases, decide_execution_cases,
}
use kube_green.Sleepinfo.Schedule.Due.{FindsFirst, get_next_schedule_complete}

-- `Next` gives an activation, the first after an instant, or the zero time if there is none.
pub record FindsNext {Schedule : Type 0} (cron : Cron Schedule) (Fires : Schedule → Time → Type 0)
    : Type 0 where
  pub first : FindsFirst cron Fires
  pub later : NextIsLater cron
  pub fires : (s : Schedule) (t : Time) → (cron.next s t ≡ zero_time) ⊎ Fires s (cron.next s t)

-- A requeue that is not cut off at the longest duration ends at the next schedule.
requeue_end :
    (next now n : ℕ)
    → get_requeue_after next now ≡ pos n
    → n < 2 ^ 63 - 1
    → now < next
    → now + n ≡ next
unfolding get_requeue_after
requeue_end next now n e k h = ground arith

module _ {Schedule : Type 0} (cron : Cron Schedule) {Fires : Schedule → Time → Type 0}
    (law : FindsNext cron Fires) where
  activates :
      (s : Schedule) (t next : Time) → next ≡ cron.next s t → next ≢ zero_time → Fires s next
  activates s t next e some_next = elim (law.fires s t) [
    | inl none_left ↦ absurd (ground arith)
    | inr fires ↦ rw e fires
  ]

  -- The next schedule of a run that executes is an activation of the next operation.
  next_op-Fires :
      (seconds : ℕ) (info : SleepInfoData) (now : Time) (r : NextSchedule)
      → seconds ≤ 10 ^ 9
      → get_next_schedule cron (pos seconds) info now ≡ ok r
      → r.is_to_execute ≡ true
      → r.next_schedule ≢ zero_time
      → (next_op : Schedule) × (cron.parse_standard info.next_operation_schedule ≡ ok next_op)
        × Fires next_op r.next_schedule
        × (now + nanos seconds < r.next_schedule)
        × (r.requeue_after ≡ get_requeue_after r.next_schedule now)
  next_op-Fires seconds info now r k h e some_next =
      let (sched, parsed, decided) = get_next_schedule_cases cron seconds info now r k h in
      let d : ℕ = nanos seconds in
      let c = candidate cron sched (pos d) info.last_schedule now in
      elim (decide_execution_cases cron (pos d) info now c r decided) [
        | inr (_, same) ↦ absurd (ground arith)
        | inl (inside, (next_op, p, same)) ↦
            let next : r.next_schedule ≡ cron.next next_op (now + d) = ground arith in
            (
              next_op,
              p,
              activates next_op (now + d) r.next_schedule next some_next,
              ground (arith, law.later.later next_op (now + d)),
              ground arith,
            )
      ]

  -- The next schedule of one that does not is an activation of the current operation.
  current-Fires :
      (seconds : ℕ) (info : SleepInfoData) (now : Time) (r : NextSchedule)
      → seconds ≤ 10 ^ 9
      → get_next_schedule cron (pos seconds) info now ≡ ok r
      → r.is_to_execute ≡ false
      → r.next_schedule ≢ zero_time
      → (sched : Schedule) × (cron.parse_standard info.current_operation_schedule ≡ ok sched)
        × Fires sched r.next_schedule
        × (now + nanos seconds < r.next_schedule)
        × (r.requeue_after ≡ get_requeue_after r.next_schedule now)
  current-Fires seconds info now r k h e some_next =
      let (sched, parsed, decided) = get_next_schedule_cases cron seconds info now r k h in
      let d : ℕ = nanos seconds in
      let c = candidate cron sched (pos d) info.last_schedule now in
      elim (decide_execution_cases cron (pos d) info now c r decided) [
        | inl (_, (_, _, same)) ↦ absurd (ground arith)
        | inr (outside, same) ↦
            let next : r.next_schedule ≡ c = ground arith in
            (
              sched,
              parsed,
              candidate-Fires sched next,
              ground (
                arith,
                candidate_later cron law.later sched seconds info.last_schedule now k outside,
              ),
              ground arith,
            )
      ]
    where
      candidate-Fires :
          (sched : Schedule)
          → r.next_schedule ≡ candidate cron sched (pos (nanos seconds)) info.last_schedule now
          → Fires sched r.next_schedule
      candidate-Fires sched next =
          elim (candidate_cases cron sched seconds info.last_schedule now k) [
            | inl c ↦ activates sched (now - nanos seconds) r.next_schedule (ground arith) some_next
            | inr (c, _, _) ↦
                activates sched info.last_schedule r.next_schedule (ground arith) some_next
          ]

  -- A run at which nothing is due asks to be run again at an instant at which, and less than the
  -- delta after which, the operation is executed: for the same data, the last run not later than now, and a
  -- requeue of less than the longest duration.
  pub get_next_schedule-requeued :
      (seconds : ℕ) (info : SleepInfoData) (now n late : Time) (r : NextSchedule)
      (next_op : Schedule)
      → seconds ≤ 10 ^ 9
      → get_next_schedule cron (pos seconds) info now ≡ ok r
      → r.is_to_execute ≡ false
      → r.next_schedule ≢ zero_time
      → cron.parse_standard info.next_operation_schedule ≡ ok next_op
      → info.last_schedule ≤ now
      → r.requeue_after ≡ pos n
      → n < 2 ^ 63 - 1
      → late < nanos seconds
      → get_next_schedule cron (pos seconds) info (now + n + late)
        ≡ ok (due cron (cron.next next_op (now + n + late + nanos seconds)) (now + n + late))
  get_next_schedule-requeued seconds info now n late r next_op k h e some_next p past requeued short
        lateness =
      let (sched, parsed, fires, ahead, after) = current-Fires seconds info now r k h e some_next in
      let end : now + n ≡ r.next_schedule =
        requeue_end r.next_schedule now n (ground arith) short (omega arith) in
      get_next_schedule_complete cron law.first seconds info (now + n + late) r.next_schedule sched
        next_op k parsed p fires (omega arith) (omega arith) (inr (omega arith))

  -- What comes after a run that executes: for data that has the two schedules exchanged.
  pub get_next_schedule-exchanged :
      (seconds : ℕ) (info info' : SleepInfoData) (now n late : Time) (r : NextSchedule)
      → seconds ≤ 10 ^ 9
      → get_next_schedule cron (pos seconds) info now ≡ ok r
      → r.is_to_execute ≡ true
      → r.next_schedule ≢ zero_time
      → info'.current_operation_schedule ≡ info.next_operation_schedule
      → info'.next_operation_schedule ≡ info.current_operation_schedule
      → info'.last_schedule ≤ now
      → r.requeue_after ≡ pos n
      → n < 2 ^ 63 - 1
      → late < nanos seconds
      → (r' : NextSchedule) × (get_next_schedule cron (pos seconds) info' (now + n + late) ≡ ok r')
        × (r'.is_to_execute ≡ true)
  get_next_schedule-exchanged seconds info info' now n late r k h e some_next current next past
        requeued short lateness =
      let (next_op, parsed, fires, ahead, after) =
        next_op-Fires seconds info now r k h e some_next in
      let (sched, p, _) = get_next_schedule_cases cron seconds info now r k h in
      let end : now + n ≡ r.next_schedule =
        requeue_end r.next_schedule now n (ground arith) short (omega arith) in
      let parsed' : cron.parse_standard info'.current_operation_schedule ≡ ok next_op = cc in
      let p' : cron.parse_standard info'.next_operation_schedule ≡ ok sched = cc in
      (
        _,
        get_next_schedule_complete cron law.first seconds info' (now + n + late) r.next_schedule
            next_op sched k parsed' p' fires (omega arith) (omega arith) (inr (omega arith)),
        refl,
      )
