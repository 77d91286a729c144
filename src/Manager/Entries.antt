-- ===== src/Manager/Entries.antt =====
-- What `main` registers, and what the calls of the runtime do with it.
use kube_green.Base.{◌≡◌, String, List, [], ◌∷◌, ok}
use kube_green.Registration.{Gauge, Controller, setup_metrics_or_die}
use kube_green.Manager.{ManagerOptions, Runtime}

-- What can be true of the manager and its libraries: that it has not been started, and what is
-- registered.
pub data Entry : Type 0 where
  idle : Entry
  gauge : Gauge → Entry
  controller : String → String → Entry
  webhook : String → Entry
  health_check : String → Entry
  ready_check : String → Entry

-- A call that succeeds registers what it is given. No call but the start takes back what is true.
pub record Registers {Watcher W : Type 0} (rt : Runtime Watcher W) (Registered : Entry → W → Type 0)
    : Type 0 where
  pub gauge_registered :
      (g : Gauge) (w : W)
      → (rt.registry.must_register g w).0 ≡ ok tt
      → Registered (gauge g) (rt.registry.must_register g w).1
  pub controller_registered :
      (c : Controller) (w : W)
      → (rt.registry.new_controller c w).0 ≡ ok tt
      → Registered (controller c.name c.watched_kind) (rt.registry.new_controller c w).1
  pub webhook_registered :
      (kind : String) (w : W)
      → (rt.registry.new_webhook kind w).0 ≡ ok tt
      → Registered (webhook kind) (rt.registry.new_webhook kind w).1
  pub health_registered :
      (name : String) (w : W)
      → (rt.add_healthz_check name w).0 ≡ ok tt
      → Registered (health_check name) (rt.add_healthz_check name w).1
  pub ready_registered :
      (name : String) (w : W)
      → (rt.add_readyz_check name w).0 ≡ ok tt
      → Registered (ready_check name) (rt.add_readyz_check name w).1
  pub new_watcher_keeps :
      (certificate key : String) (x : Entry) (w : W)
      → Registered x w
      → Registered x (rt.new_watcher certificate key w).1
  pub manager_keeps :
      (options : ManagerOptions Watcher) (x : Entry) (w : W)
      → Registered x w
      → Registered x (rt.new_manager options w).1
  pub gauge_keeps :
      (g : Gauge) (x : Entry) (w : W)
      → Registered x w
      → Registered x (rt.registry.must_register g w).1
  pub controller_keeps :
      (c : Controller) (x : Entry) (w : W)
      → Registered x w
      → Registered x (rt.registry.new_controller c w).1
  pub webhook_keeps :
      (kind : String) (x : Entry) (w : W)
      → Registered x w
      → Registered x (rt.registry.new_webhook kind w).1
  pub watcher_keeps :
      (watcher : Watcher) (x : Entry) (w : W)
      → Registered x w
      → Registered x (rt.add_watcher watcher w).1
  pub health_keeps :
      (name : String) (x : Entry) (w : W)
      → Registered x w
      → Registered x (rt.add_healthz_check name w).1
  pub ready_keeps :
      (name : String) (x : Entry) (w : W)
      → Registered x w
      → Registered x (rt.add_readyz_check name w).1

-- What there is after each registration of `main`, up to everything.
abbrev pub metrics_set_up : List Entry
metrics_set_up = gauge (setup_metrics_or_die "kube_green") ∷ []

abbrev pub sleep_info_set_up : List Entry
sleep_info_set_up = controller "kubegreen-sleepinfo" "SleepInfo" ∷ metrics_set_up

abbrev pub execution_set_up : List Entry
execution_set_up =
    controller "kubegreen-sleepinfoexecution" "SleepInfoExecution" ∷ sleep_info_set_up

abbrev pub webhook_set_up : List Entry
webhook_set_up = webhook "SleepInfo" ∷ execution_set_up

abbrev pub health_set_up : List Entry
health_set_up = health_check "health" ∷ webhook_set_up

abbrev pub everything : List Entry
everything = ready_check "check" ∷ health_set_up
