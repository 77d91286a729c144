-- ===== src/Sleepinfo/Reconcile/Outcomes.antt =====
-- What a run of `SleepInfoReconciler.Reconcile` changes and returns.
use kube_green.Base.{Bool, false, ◌≡◌, ◌≢◌, inl, inr, String, Option, arith, ℕ, ◌^◌, ◌≤◌, ◌<◌}
use kube_green.Base.{Result, ok, err, Result-cases}
use kube_green.Base.Int.{pos}
use kube_green.Base.Clock.{Time, zero_time}
use kube_green.Libraries.{NextIsLater}
use kube_green.Api.{SleepInfo}
use kube_green.Cluster.{Secret, Platform}
use kube_green.Sleepinfo.{Settings, SleepInfoData}
use kube_green.Sleepinfo.Schedule.{NextSchedule, get_next_schedule}
use kube_green.Sleepinfo.Schedule.Window.{nanos}
use kube_green.Sleepinfo.Schedule.Next.{get_next_schedule-requeue}
use kube_green.Sleepinfo.Data.{get_sleep_info_data}
use kube_green.Sleepinfo.Secrets.{get_secret_name}
use kube_green.Sleepinfo.Flow.{Outcome, failed, after}
use kube_green.Sleepinfo.Reconcile.{secret_or_nil, fetch_sleep_info, reconcile}

module _ {Object Value Operations Schedule W : Type 0}
    (p : Platform Object Value Operations Schedule W) (r : Settings) where
  open p use {cron, codec, client, metrics}

  abbrev scheduled : Time → SleepInfo → Result (Option Secret) → Result NextSchedule
  scheduled now s (err e) = err e
  scheduled now s (ok secret) = elim (get_sleep_info_data codec secret s) [
    | err e ↦ err e
    | ok info ↦ get_next_schedule cron r.sleep_delta info now
  ]

  -- The decision for a SleepInfo, from its secret.
  abbrev pub decision : Time → String → String → SleepInfo → W → Result NextSchedule
  decision now namespace name s w =
      scheduled now s (secret_or_nil (client.get_secret namespace (get_secret_name name) w))

  abbrev pub not_executed : Result NextSchedule → Outcome
  not_executed (err e) = failed e
  not_executed (ok schedule) = after schedule.requeue_after

  abbrev pub is_executed : Result NextSchedule → Bool
  is_executed (err e) = false
  is_executed (ok schedule) = schedule.is_to_execute

  reconcile-not_executed :
      (now : Time) (namespace name : String) (w : W) (s : SleepInfo)
      → client.get_sleep_info namespace name w ≡ ok s
      → is_executed (decision now namespace name s (metrics.set_gauge name namespace 1 w)) ≡ false
      → reconcile p r now namespace name w ≡ (
        not_executed (decision now namespace name s (metrics.set_gauge name namespace 1 w)),
        metrics.set_gauge name namespace 1 w,
      )
  unfolding reconcile fetch_sleep_info
  reconcile-not_executed now namespace name w s found idle = ground arith

  scheduled-eq-ok :
      (now : Time) (s : SleepInfo) (secret : Result (Option Secret)) (schedule : NextSchedule)
      → scheduled now s secret ≡ ok schedule
      → (info : SleepInfoData) × (get_next_schedule cron r.sleep_delta info now ≡ ok schedule)
  scheduled-eq-ok now s (err e) schedule h = absurd (ground arith)
  scheduled-eq-ok now s (ok secret) schedule h =
      elim (Result-cases (get_sleep_info_data codec secret s)) [
        | inl (info, read) ↦ (info, rw (read, scheduled) at h)
        | inr (e, unread) ↦ absurd (ground arith)
      ]

  -- A run that finds nothing due, and a next schedule, asks for the next run more than the delta
  -- later, and does nothing to the cluster but set the gauge. The delta is at most 10^9 seconds.
  pub reconcile-not_due :
      (law : NextIsLater cron) (seconds : ℕ) (now : Time) (namespace name : String) (w : W)
      (s : SleepInfo) (schedule : NextSchedule)
      → r.sleep_delta ≡ pos seconds
      → seconds ≤ 10 ^ 9
      → client.get_sleep_info namespace name w ≡ ok s
      → decision now namespace name s (metrics.set_gauge name namespace 1 w) ≡ ok schedule
      → schedule.is_to_execute ≡ false
      → schedule.next_schedule ≢ zero_time
      → (n : ℕ) × (reconcile p r now namespace name w
          ≡ (after (pos n), metrics.set_gauge name namespace 1 w))
        × (nanos seconds < n)
  reconcile-not_due law seconds now namespace name w s schedule delta k found decided idle
        scheduled_next =
      let w' = metrics.set_gauge name namespace 1 w in
      let secret = secret_or_nil (client.get_secret namespace (get_secret_name name) w') in
      let (info, computed) = scheduled-eq-ok now s secret schedule decided in
      let stays : is_executed (decision now namespace name s w') ≡ false = ground arith in
      let outcome = reconcile-not_executed now namespace name w s found stays in
      elim (get_next_schedule-requeue cron law seconds info now schedule k (rw delta at computed)) [
        | inl none_found ↦ absurd (scheduled_next none_found)
        | inr (_, (n, e, longer)) ↦ (n, ground (arith, outcome), longer)
      ]
