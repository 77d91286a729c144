-- ===== src/Sleepinfo/Data/Operation.antt =====
-- Which operation comes next, and what an override changes of it.
use kube_green.Base.{
  Bool, true, false, not, ◌&&◌, ◌≡◌, ◌≢◌, ◌⊎◌, ◌∙◌, ap, String, ◌==◌, Option, none, some, arith,
}
use kube_green.Base.{ok, if◌then◌else◌, Result-cases, inl, inr, eq_iff}
use kube_green.Libraries.{Codec}
use kube_green.Api.{SleepInfo}
use kube_green.Api.Schedule.{get_sleep_schedule, get_wake_up_schedule}
use kube_green.Api.Execution.{execution_op_sleep, execution_op_wake}
use kube_green.Cluster.{Secret}
use kube_green.Sleepinfo.{SleepInfoData, sleep_operation, wake_up_operation}
use kube_green.Sleepinfo.Data.{
  get_sleep_info_data, read_secret, read_secret_data, after_operation, initial_data,
  apply_execution_override, data_of,
}
use kube_green.Sleepinfo.Execution.{is_asleep, guard_message}

-- The operation and its schedules, for a namespace that sleeps or not.
abbrev pub PlansFor : Bool → String → String → SleepInfoData → Type 0
PlansFor asleep sleep_schedule wake_up_schedule info =
    (info.current_operation_type ≡ (if asleep then wake_up_operation else sleep_operation))
    × (info.current_operation_schedule ≡ (if asleep then wake_up_schedule else sleep_schedule))
    × (info.next_operation_schedule ≡ (
        if asleep
        then sleep_schedule
        else if wake_up_schedule == ""
        then sleep_schedule
        else wake_up_schedule))

override_sleep-PlansFor :
    (s : SleepInfo) (info : SleepInfoData) (asleep : Bool) (a b : String)
    → PlansFor (asleep && not (b == "")) a b info
    → guard_message execution_op_sleep asleep ≡ none
    → get_sleep_schedule s ≡ ok a
    → get_wake_up_schedule s ≡ ok b
    → apply_execution_override info execution_op_sleep s ≡ ok info
unfolding apply_execution_override guard_message
override_sleep-PlansFor s info true a b plans passed sleeps wakes = absurd (ground arith)
override_sleep-PlansFor s info false a b plans passed sleeps wakes =
    rw (sleeps, wakes) (ground arith)

override_wake-PlansFor :
    (s : SleepInfo) (info : SleepInfoData) (asleep : Bool) (a b : String)
    → PlansFor (asleep && not (b == "")) a b info
    → guard_message execution_op_wake asleep ≡ none
    → get_sleep_schedule s ≡ ok a
    → get_wake_up_schedule s ≡ ok b
    → b ≢ ""
    → apply_execution_override info execution_op_wake s ≡ ok info
unfolding apply_execution_override guard_message
override_wake-PlansFor s info false a b plans passed sleeps wakes set = absurd (ground arith)
override_wake-PlansFor s info true a b plans passed sleeps wakes set =
    rw (sleeps, wakes) (ground (arith, eq_iff b ""))

module _ (codec : Codec) where
  read_secret-PlansFor :
      (secret : Option Secret) (s : SleepInfo) (sleep_schedule wake_up_schedule : String)
      (info : SleepInfoData)
      → read_secret codec s sleep_schedule wake_up_schedule (data_of secret) ≡ ok info
      → PlansFor
          (is_asleep secret && not (wake_up_schedule == ""))
          sleep_schedule
          wake_up_schedule
          info
  unfolding read_secret read_secret_data initial_data is_asleep after_operation
  read_secret-PlansFor none s sleep_schedule wake_up_schedule info h = ground arith
  read_secret-PlansFor (some secret) s sleep_schedule wake_up_schedule info h = ground arith

  -- After a sleep, and with a wake up configured, the wake up is next, and the sleep after it.
  -- Otherwise a sleep is next, and after it the wake up if there is one. This is so for every secret
  -- and SleepInfo from which the data can be read at all.
  pub get_sleep_info_data-PlansFor :
      (secret : Option Secret) (s : SleepInfo) (info : SleepInfoData)
      → get_sleep_info_data codec secret s ≡ ok info
      → (sleep_schedule : String) × (wake_up_schedule : String) × (get_sleep_schedule s
          ≡ ok sleep_schedule)
        × (get_wake_up_schedule s ≡ ok wake_up_schedule)
        × PlansFor
            (is_asleep secret && not (wake_up_schedule == ""))
            sleep_schedule
            wake_up_schedule
            info
  unfolding get_sleep_info_data
  get_sleep_info_data-PlansFor secret s info h = elim (Result-cases (get_sleep_schedule s)) [
    | inr (e, failed) ↦ absurd (ground arith)
    | inl (a, sleeps) ↦ elim (Result-cases (get_wake_up_schedule s)) [
      | inr (e, failed) ↦ absurd (ground arith)
      | inl (b, wakes) ↦
          (a, b, sleeps, wakes, read_secret-PlansFor secret s a b info (ground arith))
    ]
  ]

  -- An execution that has passed the guards, and that does not ask for a wake up which is not
  -- configured, runs the very operation that the schedule has next: the override changes nothing.
  pub apply_execution_override-guarded :
      (secret : Option Secret) (s : SleepInfo) (info : SleepInfoData) (op : String)
      → get_sleep_info_data codec secret s ≡ ok info
      → guard_message op (is_asleep secret) ≡ none
      → (op ≡ execution_op_sleep) ⊎ ((op ≡ execution_op_wake) × (get_wake_up_schedule s ≢ ok ""))
      → apply_execution_override info op s ≡ ok info
  apply_execution_override-guarded secret s info op h passed (inl e) =
      let (a, b, sleeps, wakes, plans) = get_sleep_info_data-PlansFor secret s info h in
      rw e
        (override_sleep-PlansFor s info (is_asleep secret) a b plans (rw e at passed) sleeps wakes)
  apply_execution_override-guarded secret s info op h passed (inr (e, set)) =
      let (a, b, sleeps, wakes, plans) = get_sleep_info_data-PlansFor secret s info h in
      rw e (
        override_wake-PlansFor s info (is_asleep secret) a b plans (rw e at passed) sleeps wakes
          (λ q. set (wakes ∙ ap ok q)))

-- An override keeps the last schedule and the stored patches, names the operation that is asked for,
-- and takes no operation but the two.
pub apply_execution_override-keeps :
    (s : SleepInfo) (info out : SleepInfoData) (op : String)
    → apply_execution_override info op s ≡ ok out
    → (out.last_schedule ≡ info.last_schedule)
      × (out.original_generic_resource_info ≡ info.original_generic_resource_info)
      × (out.current_operation_type ≡ op)
      × ((op ≡ execution_op_sleep) ⊎ (op ≡ execution_op_wake))
unfolding apply_execution_override
apply_execution_override-keeps s info out op h =
    ground (arith, eq_iff op execution_op_sleep, eq_iff op execution_op_wake)
