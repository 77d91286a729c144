-- ===== src/Sleepinfo/Secrets/Alternates.antt =====
-- After a sleep the wake up, and after a wake up the sleep.
use kube_green.Base.{
  ℕ, ◌+◌, ◌-◌, ◌^◌, ◌≤◌, ◌<◌, ◌≡◌, ◌≢◌, refl, Option, some, true, false, not, ◌&&◌, String, ◌==◌,
  arith, eq_iff, Bool-cases, inl, inr,
}
use kube_green.Base.{ok}
use kube_green.Base.Int.{pos}
use kube_green.Base.Clock.{Time, zero_time}
use kube_green.Libraries.{Cron, Codec}
use kube_green.Api.{SleepInfo}
use kube_green.Api.Schedule.{get_wake_up_schedule}
use kube_green.Cluster.{Secret}
use kube_green.JsonPatch.{ManagedResources}
use kube_green.JsonPatch.Resources.{has_resource}
use kube_green.Sleepinfo.{
  Settings, SleepInfoData, sleep_operation, wake_up_operation, is_sleep_operation,
  is_wake_up_operation,
}
use kube_green.Sleepinfo.Data.{get_sleep_info_data}
use kube_green.Sleepinfo.Data.Operation.{get_sleep_info_data-PlansFor}
use kube_green.Sleepinfo.Execution.{is_asleep}
use kube_green.Sleepinfo.Schedule.{NextSchedule, get_next_schedule}
use kube_green.Sleepinfo.Schedule.Window.{nanos}
use kube_green.Sleepinfo.Schedule.Requeue.{FindsNext, get_next_schedule-exchanged}
use kube_green.Sleepinfo.Secrets.{new_secret}
use kube_green.Sleepinfo.Secrets.RoundTrip.{
  IsStored, ReadsBack, get_sleep_info_data-new_secret_sleep, get_sleep_info_data-new_secret_wake_up,
}

-- The other operation, with the schedules exchanged, after a run at `now`.
abbrev Exchanged : SleepInfoData → Time → SleepInfoData → Type 0
Exchanged info stamp info' =
    (is_wake_up_operation info' ≡ is_sleep_operation info)
    × (is_sleep_operation info' ≡ is_wake_up_operation info)
    × (info'.current_operation_schedule ≡ info.next_operation_schedule)
    × (info'.next_operation_schedule ≡ info.current_operation_schedule)
    × (info'.last_schedule ≡ stamp)

module _ {Object W : Type 0} (codec : Codec) (back : ReadsBack codec) where
  new_secret-Exchanged :
      (r : Settings) (now : Time) (name namespace wake_up_schedule : String) (s : SleepInfo)
      (secret : Option Secret) (info : SleepInfoData) (g : ManagedResources Object W)
      (sent stored : Secret)
      → get_wake_up_schedule s ≡ ok wake_up_schedule
      → wake_up_schedule ≢ ""
      → has_resource g ≡ true
      → get_sleep_info_data codec secret s ≡ ok info
      → new_secret codec r now name namespace s info g ≡ ok sent
      → IsStored sent stored
      → (info' : SleepInfoData) × (get_sleep_info_data codec (some stored) s ≡ ok info')
        × Exchanged info (back.truncated now) info'
  new_secret-Exchanged r now name namespace wake s secret info g sent stored wakes set h read made
        kept =
      let (a, b, sleeps, wakes', plans) = get_sleep_info_data-PlansFor codec secret s info read in
      let same : b ≡ wake = ground arith in
      elim (Bool-cases (is_asleep secret && not (b == ""))) [
        | inl asleep ↦
            let op : info.current_operation_type ≡ wake_up_operation = ground arith in
            let wakes_up : (is_wake_up_operation info ≡ true) × (is_sleep_operation info ≡ false) =
              rw op (refl, refl) in
            (
              _,
              get_sleep_info_data-new_secret_wake_up codec back r now name namespace s info g sent
                  stored a wake sleeps wakes set h op made kept,
              ground arith,
            )
        | inr awake ↦
            let op : info.current_operation_type ≡ sleep_operation = ground arith in
            let sleeps_now : (is_sleep_operation info ≡ true)
                × (is_wake_up_operation info ≡ false) =
              rw op (refl, refl) in
            let (restored, read', _) =
              get_sleep_info_data-new_secret_sleep codec back r now name namespace s info g sent
                stored a wake sleeps wakes set h op made kept in
            (_, read', ground (arith, eq_iff b ""))
      ]

  -- A run that executes an operation on some resources, and writes its secret, asks to be run again
  -- at an instant at which, and less than the delta after which, the other operation is executed: a
  -- sleep is followed by its wake up, and a wake up by the sleep. The SleepInfo has both schedules,
  -- cron has a next activation less than the longest duration ahead, and the stored instant is not
  -- later than the run.
  pub get_next_schedule-new_secret :
      {Schedule : Type 0} {Fires : Schedule → Time → Type 0} (cron : Cron Schedule)
      (law : FindsNext cron Fires) (r : Settings) (seconds : ℕ) (now n late : Time)
      (name namespace wake_up_schedule : String) (s : SleepInfo) (secret : Option Secret)
      (info : SleepInfoData) (schedule : NextSchedule) (g : ManagedResources Object W)
      (sent stored : Secret)
      → seconds ≤ 10 ^ 9
      → get_wake_up_schedule s ≡ ok wake_up_schedule
      → wake_up_schedule ≢ ""
      → get_sleep_info_data codec secret s ≡ ok info
      → get_next_schedule cron (pos seconds) info now ≡ ok schedule
      → schedule.is_to_execute ≡ true
      → schedule.next_schedule ≢ zero_time
      → has_resource g ≡ true
      → new_secret codec r now name namespace s info g ≡ ok sent
      → IsStored sent stored
      → back.truncated now ≤ now
      → schedule.requeue_after ≡ pos n
      → n < 2 ^ 63 - 1
      → late < nanos seconds
      → (info' : SleepInfoData) × (schedule' : NextSchedule) × (get_sleep_info_data codec
            (some stored)
            s
          ≡ ok info')
        × (is_wake_up_operation info' ≡ is_sleep_operation info)
        × (is_sleep_operation info' ≡ is_wake_up_operation info)
        × (get_next_schedule cron (pos seconds) info' (now + n + late) ≡ ok schedule')
        × (schedule'.is_to_execute ≡ true)
  get_next_schedule-new_secret cron law r seconds now n late name namespace wake s secret info
        schedule g sent stored k wakes set read decided e some_next h made kept truncated requeued
        short lateness =
      let (info', read', (wake_up, sleep, current, next, stamp)) =
        new_secret-Exchanged r now name namespace wake s secret info g sent stored wakes set h read
          made kept in
      let (schedule', decided', due') =
        get_next_schedule-exchanged cron law seconds info info' now n late schedule k decided e
          some_next current next (omega (arith, stamp)) requeued short lateness in
      (info', schedule', read', wake_up, sleep, decided', due')
