-- ===== src/Registration.antt =====
-- What the manager registers: the gauge (internal/controller/sleepinfo/metrics/metrics.go), both
-- controllers and the webhook (their SetupWithManager functions), and the controllers' clock.
use kube_green.Base.{Bool, true, String, List, [], ◌∷◌, Option, none, some, or_else}
use kube_green.Base.Int.{ℤ}
use kube_green.Base.Clock.{Time}
use kube_green.Base.Exec.{Exec, pure, ◌>>◌}
use kube_green.Sleepinfo.{Settings}

-- prometheus.GaugeOpts, with the names of the labels
pub record Gauge : Type 0 where
  pub namespace : String
  pub name : String
  pub help : String
  pub labels : List String

-- What the builder of controller-runtime is given for a controller; no number of workers is its
-- own default.
pub record Controller : Type 0 where
  pub watched_kind : String
  pub name : String
  pub max_concurrent_reconciles : Option ℤ
  pub only_new_generations : Bool

-- What is called of time, prometheus and controller-runtime. A panic is an error here.
pub record Registry (W : Type 0) : Type 0 where
  pub time_now : W → Time
  pub must_register : Gauge → Exec W (Unit {0})
  pub new_controller : Controller → Exec W (Unit {0})
  pub new_webhook : String → Exec W (Unit {0})

-- `Clock`
pub record Clock (W : Type 0) : Type 0 where
  pub now : W → Time

-- `SleepInfoReconciler`, less its client, scheme and log; no clock is a nil one.
pub record SleepInfoReconciler (W : Type 0) : Type 0 where
  pub clock : Option (Clock W)
  pub metrics : Gauge
  pub settings : Settings
  pub max_concurrent_reconciles : ℤ

abbrev pub setup_metrics_or_die : String → Gauge
setup_metrics_or_die prefix = record {
  namespace = prefix;
  name = "current_sleepinfo";
  help = "Info about SleepInfo resource";
  labels = "name" ∷ "namespace" ∷ [];
}

module _ {W : Type 0} (registry : Registry W) where
  unfoldable pub must_register : Gauge → Exec W Gauge
  must_register custom_metrics = do registry.must_register custom_metrics; pure custom_metrics

  abbrev pub real_clock : Clock W
  real_clock = record { now = registry.time_now }

  abbrev pub with_clock : SleepInfoReconciler W → SleepInfoReconciler W
  with_clock r = record r { clock = or_else r.clock (some real_clock) }

  -- The reconciler as it is left, which the other controller shares.
  unfoldable pub setup_sleep_info : SleepInfoReconciler W → Exec W (SleepInfoReconciler W)
  setup_sleep_info r = do
    registry.new_controller (record {
      watched_kind = "SleepInfo";
      name = "kubegreen-sleepinfo";
      max_concurrent_reconciles = some r.max_concurrent_reconciles;
      only_new_generations = true;
    })
    pure (with_clock r)

  unfoldable pub setup_execution : SleepInfoReconciler W → Exec W (SleepInfoReconciler W)
  setup_execution r = do
    registry.new_controller (record {
      watched_kind = "SleepInfoExecution";
      name = "kubegreen-sleepinfoexecution";
      max_concurrent_reconciles = none;
      only_new_generations = true;
    })
    pure (with_clock r)

  unfoldable pub setup_webhook : Exec W (Unit {0})
  setup_webhook = registry.new_webhook "SleepInfo"
