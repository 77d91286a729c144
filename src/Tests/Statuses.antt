-- ===== src/Tests/Statuses.antt =====
-- A server that has executions by their names, with the status as a subresource.
use kube_green.Base.{
  ◌+◌, ◌≡◌, ◌⊎◌, refl, true, String, ◌==◌, ◌&&◌, Bool, Option, none, some, arith, inl, inr, sym,
  ◌∙◌,
}
use kube_green.Base.{not_found, Result, ok, err, Option-cases, Bool-cases, eq_iff, if◌then◌else◌}
use kube_green.Base.Dict.{lookup, insert}
use kube_green.Base.Exec.{Exec}
use kube_green.Api.{SleepInfo, SleepInfoExecution, SleepInfoExecutionStatus}
use kube_green.Api.Execution.{is_processed, execution_phase_skipped}
use kube_green.Sleepinfo.Reconcile
use kube_green.Base.Clock.{Time}
use kube_green.Cluster.{Platform}
use kube_green.Sleepinfo.Execution.{
  with_status, is_asleep, guard_message, update_execution_status, owner_updated,
  set_owner_reference, fetch_execution, fetch_target, check_guards, execute_guarded, reconcile_flow,
  reconcile,
}
use kube_green.Sleepinfo.Runs.{scheduled, IsFinished, on_demand, here, later}
use kube_green.Sleepinfo.Runs.Finished.{StoresStatuses, Reach-IsFinished}
use kube_green.Sleepinfo.Runs.Final.{holds-Reach}
use kube_green.Tests.Sample.{Daily}
use kube_green.Tests.Cluster.{Workload, World, platform, server, gauges, settings, awake}
use kube_green.Tests.Storing.{kept_sleep}
use kube_green.Tests.Reconciling.{demand, evening_hour}

abbrev is_named : String → String → SleepInfoExecution → Bool
is_named namespace name e = e.namespace == namespace && e.name == name

abbrev missing : {A : Type 0} → Result A
missing = err (not_found "not found")

abbrev execution_named : String → String → World → Result SleepInfoExecution
execution_named namespace name w = elim w.execution [
  | none ↦ missing
  | some e ↦ if is_named namespace name e then ok e else missing
]

-- An update of an execution leaves its status alone, an update of the status the rest.
abbrev update_owner : SleepInfoExecution → Exec World SleepInfoExecution
update_owner e w = elim w.execution [
  | none ↦ (missing, w)
  | some old ↦
      let new : SleepInfoExecution = record e { status = old.status } in
      if is_named e.namespace e.name old
      then (ok new, record w { execution = some new })
      else (missing, w)
]

abbrev update_status : SleepInfoExecution → Exec World (Unit {0})
update_status e w = elim w.execution [
  | none ↦ (missing, w)
  | some old ↦
      if is_named e.namespace e.name old
      then (ok tt, record w { execution = some (record old { status = e.status }) })
      else (missing, w)
]

abbrev status_platform : Platform Workload String String Daily World
status_platform = record platform {
  client = record server {
    get_execution = execution_named;
    update_execution = update_owner;
    update_execution_status = update_status;
  };
}

abbrev status_of : String → String → World → Option SleepInfoExecutionStatus
status_of namespace name w = elim w.execution [
  | none ↦ none
  | some e ↦ if is_named namespace name e then some e.status else none
]

is_named-eq :
    (namespace name : String) (e : SleepInfoExecution)
    → is_named namespace name e ≡ true
    → (e.namespace ≡ namespace) × (e.name ≡ name)
is_named-eq namespace name e h =
    (ground (arith, h, eq_iff e.namespace namespace), ground (arith, h, eq_iff e.name name))

update_owner-status :
    (e : SleepInfoExecution) (w : World) (namespace name : String)
    → status_of namespace name (update_owner e w).1 ≡ status_of namespace name w
update_owner-status e w namespace name = elim (Option-cases w.execution) [
  | inl absent ↦ rw absent refl
  | inr (old, found) ↦ elim (Bool-cases (is_named e.namespace e.name old)) [
    | inr k ↦ ground (arith, found, k)
    | inl k ↦
        let (same, same') = is_named-eq e.namespace e.name old k in
        ground (arith, found, k, same, same')
  ]
]

update_status-held :
    (e : SleepInfoExecution) (w : World) (namespace name : String)
    (status : SleepInfoExecutionStatus)
    → status_of namespace name (update_status e w).1 ≡ some status
    → (status_of namespace name w ≡ some status) ⊎ (status ≡ e.status)
update_status-held e w namespace name status held = elim (Option-cases w.execution) [
  | inl absent ↦ absurd (ground (arith, absent, held))
  | inr (old, found) ↦ elim (Bool-cases (is_named e.namespace e.name old)) [
    | inr k ↦ inl (ground (arith, found, k, held))
    | inl k ↦ elim (Bool-cases (is_named namespace name old)) [
      | inl m ↦ inr (ground (arith, found, k, m, held))
      | inr m ↦ absurd (ground (arith, found, k, m, held))
    ]
  ]
]

update_status-other :
    (e : SleepInfoExecution) (w : World) (namespace name : String)
    → ¬ ((e.namespace ≡ namespace) × (e.name ≡ name))
    → status_of namespace name (update_status e w).1 ≡ status_of namespace name w
update_status-other e w namespace name other = elim (Option-cases w.execution) [
  | inl absent ↦ rw absent refl
  | inr (old, found) ↦ elim (Bool-cases (is_named e.namespace e.name old)) [
    | inr k ↦ ground (arith, found, k)
    | inl k ↦ elim (Bool-cases (is_named namespace name old)) [
      | inr m ↦ ground (arith, found, k, m)
      | inl m ↦ absurd (
          let (a, b) = is_named-eq e.namespace e.name old k in
          let (c, d) = is_named-eq namespace name old m in other (sym a ∙ c, sym b ∙ d))
    ]
  ]
]

named_found :
    (namespace name : String) (w : World) (e : SleepInfoExecution)
    → execution_named namespace name w ≡ ok e
    → ((e.namespace ≡ namespace) × (e.name ≡ name)) × (status_of namespace name w ≡ some e.status)
named_found namespace name w e h = elim (Option-cases w.execution) [
  | inl absent ↦ absurd (ground (arith, absent, h))
  | inr (old, found) ↦ elim (Bool-cases (is_named namespace name old)) [
    | inr k ↦ absurd (ground (arith, found, k, h))
    | inl k ↦
        let same : old ≡ e = ground (arith, found, k, h) in
        rw (← same) (is_named-eq namespace name old k, ground (arith, found, k))
  ]
]

owner_named :
    (s : SleepInfo) (e owned : SleepInfoExecution)
    → server.set_owner_reference s e ≡ ok owned
    → (owned.namespace ≡ e.namespace) × (owned.name ≡ e.name)
owner_named s e owned found = (ground (arith, found), ground (arith, found))

answer_named :
    (e answer : SleepInfoExecution) (w : World)
    → (update_owner e w).0 ≡ ok answer
    → (answer.namespace ≡ e.namespace) × (answer.name ≡ e.name)
answer_named e answer w h = elim (Option-cases w.execution) [
  | inl absent ↦ absurd (ground (arith, absent, h))
  | inr (old, found) ↦ elim (Bool-cases (is_named e.namespace e.name old)) [
    | inr k ↦ absurd (ground (arith, found, k, h))
    | inl k ↦ (ground (arith, found, k, h), ground (arith, found, k, h))
  ]
]

stores_statuses : StoresStatuses status_platform.client gauges status_of
stores_statuses = record {
  created = λ _ _ _ _. refl;
  updated = λ _ _ _ _. refl;
  patched = λ _ _ _ _ _. refl;
  applied = λ _ _ _ _ _. refl;
  status_updated = λ _ _ _ _. refl;
  execution_updated = update_owner-status;
  execution_status_updated = update_status-held;
  others_kept = update_status-other;
  got = named_found;
  owner_named = owner_named;
  answer_named = answer_named;
  gauge_set = λ _ _ _ _ _. refl;
  gauge_deleted = λ _ _ _ _ _. refl;
}

-- Asleep already, when a sleep is asked for.
abbrev asked : World
asked = record awake { secret = some kept_sleep; execution = some demand }

abbrev skipped : SleepInfoExecutionStatus
skipped = record {
  phase = execution_phase_skipped;
  start_time = some evening_hour;
  completion_time = some evening_hour;
  message = "resources are already asleep";
}

abbrev answered : World
answered = (reconcile status_platform settings evening_hour "shop" "now" asked).1

skips : status_of "shop" "now" answered ≡ some skipped
unfolding reconcile reconcile_flow fetch_execution is_processed fetch_target set_owner_reference
    owner_updated execute_guarded guard_message is_asleep check_guards update_execution_status
    with_status lookup insert
skips = refl

Reach-IsFinished_example : (status_of "shop" "now" asked ≡ some skipped) ⊎ IsFinished skipped
Reach-IsFinished_example =
    Reach-IsFinished status_platform status_of stores_statuses asked answered "shop" "now" skipped
      (later here (on_demand settings evening_hour "shop" "now")) skips

-- After that, runs of both controllers the next evening.
abbrev next_evening : Time
next_evening = evening_hour + 86400000000000

abbrev next_day : World
next_day =
    (reconcile status_platform settings next_evening "shop" "now"
      (Reconcile.reconcile status_platform settings next_evening "shop" "working-hours"
        answered).1).1

skipped-IsFinished : IsFinished skipped
skipped-IsFinished = (inr (inr refl), (evening_hour, refl), (evening_hour, refl))

holds-Reach_example :
    (status_of "shop" "now" next_day ≡ some skipped)
    × ((reconcile status_platform settings next_evening "shop" "now" next_day).1 ≡ next_day)
holds-Reach_example =
    holds-Reach status_platform status_of stores_statuses "shop" "now" skipped answered next_day
      settings next_evening skipped-IsFinished skips
      (later (later here (scheduled settings next_evening "shop" "working-hours"))
        (on_demand settings next_evening "shop" "now"))
