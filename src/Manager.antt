-- ===== src/Manager.antt =====
-- cmd/main.go: how the manager is configured and started.
pub mod Tls
pub mod Entries
pub mod Keeping
pub mod Started
use kube_green.Base.{
  ℕ, Bool, true, false, not, String, ◌==◌, List, [], ◌∷◌, ◌++◌, Option, none, some,
}
use kube_green.Base.{ok, if◌then◌else◌}
use kube_green.Base.Exec.{Exec, pure, ◌>>=◌, ◌>>◌}
use kube_green.Base.Int.{ℤ, pos}
use kube_green.Registration.{
  Gauge, Registry, SleepInfoReconciler, setup_metrics_or_die, must_register, setup_sleep_info,
  setup_execution, setup_webhook,
}

-- The variables of `main` once the flags are parsed.
pub record Flags : Type 0 where
  pub webhook_host : String
  pub webhook_port : ℤ
  pub metrics_addr : String
  pub webhook_cert_path : String
  pub webhook_cert_name : String
  pub webhook_cert_key : String
  pub metrics_cert_path : String
  pub metrics_cert_name : String
  pub metrics_cert_key : String
  pub enable_leader_election : Bool
  pub probe_addr : String
  pub sleep_delta : ℤ
  pub secure_metrics : Bool
  pub enable_http2 : Bool
  pub max_concurrent_reconciles : ℤ

-- What they are where a flag is not given.
abbrev pub default_flags : Flags
default_flags = record {
  webhook_host = "";
  webhook_port = pos 9443;
  metrics_addr = "0";
  webhook_cert_path = "";
  webhook_cert_name = "tls.crt";
  webhook_cert_key = "tls.key";
  metrics_cert_path = "";
  metrics_cert_name = "tls.crt";
  metrics_cert_key = "tls.key";
  enable_leader_election = false;
  probe_addr = ":8081";
  sleep_delta = pos 60;
  secure_metrics = true;
  enable_http2 = false;
  max_concurrent_reconciles = pos 20;
}

abbrev pub manager_name : String
manager_name = "kube-green"

-- tls.Config: the fields that are set.
pub record TlsConfig (Watcher : Type 0) : Type 0 where
  pub next_protos : List String
  pub get_certificate : Option Watcher

-- `func(*tls.Config)`
abbrev pub TlsOption : Type 0 → Type 0
TlsOption Watcher = TlsConfig Watcher → TlsConfig Watcher

-- webhook.Options
pub record WebhookOptions (Watcher : Type 0) : Type 0 where
  pub host : String
  pub port : ℤ
  pub tls_opts : List (TlsOption Watcher)

-- metricsserver.Options; whether the filter provider is the one with authentication
pub record MetricsOptions (Watcher : Type 0) : Type 0 where
  pub bind_address : String
  pub secure_serving : Bool
  pub tls_opts : List (TlsOption Watcher)
  pub with_authentication : Bool

-- ctrl.Options; the client does not read secrets from its cache.
pub record ManagerOptions (Watcher : Type 0) : Type 0 where
  pub metrics : MetricsOptions Watcher
  pub webhook_server : WebhookOptions Watcher
  pub health_probe_bind_address : String
  pub leader_election : Bool
  pub leader_election_id : String
  pub disable_cache_for : List String

-- What `main` calls, of filepath, certwatcher and controller-runtime.
pub record Runtime (Watcher W : Type 0) : Type 0 where
  pub join_path : String → String → String
  pub new_watcher : String → String → Exec W Watcher
  pub new_manager : ManagerOptions Watcher → Exec W (Unit {0})
  pub registry : Registry W
  pub add_watcher : Watcher → Exec W (Unit {0})
  pub add_healthz_check : String → Exec W (Unit {0})
  pub add_readyz_check : String → Exec W (Unit {0})
  pub start : Exec W (Unit {0})

module _ {Watcher W : Type 0} (rt : Runtime Watcher W) where
  unfoldable pub disable_http2 : TlsOption Watcher
  disable_http2 c = record c { next_protos = "http/1.1" ∷ [] }

  unfoldable pub tls_opts : Flags → List (TlsOption Watcher)
  tls_opts flags = if not flags.enable_http2 then disable_http2 ∷ [] else []

  -- The certificate of a watcher.
  abbrev pub watched : Watcher → TlsOption Watcher
  watched watcher c = record c { get_certificate = some watcher }

  -- A certificate watcher, where a path is given, and its TLS option after the others.
  unfoldable pub with_watcher :
      String
      → String
      → String
      → List (TlsOption Watcher)
      → Exec W (Option Watcher × List (TlsOption Watcher))
  with_watcher path name key opts = if path == "" then pure (none, opts) else (do
    watcher ← rt.new_watcher (rt.join_path path name) (rt.join_path path key)
    pure (some watcher, opts ++ (watched watcher ∷ [])))

  unfoldable pub webhook_server : Flags → Exec W (Option Watcher × WebhookOptions Watcher)
  webhook_server flags = do
    (watcher, opts) ←
        with_watcher flags.webhook_cert_path flags.webhook_cert_name flags.webhook_cert_key
          (tls_opts flags)
    pure (watcher, record { host = flags.webhook_host; port = flags.webhook_port; tls_opts = opts })

  unfoldable pub metrics_server : Flags → Exec W (Option Watcher × MetricsOptions Watcher)
  metrics_server flags = do
    let options : MetricsOptions Watcher = record {
      bind_address = flags.metrics_addr;
      secure_serving = flags.secure_metrics;
      tls_opts = tls_opts flags;
      with_authentication = flags.secure_metrics;
    }
    if flags.secure_metrics
        then (do
          (watcher, opts) ←
              with_watcher flags.metrics_cert_path flags.metrics_cert_name flags.metrics_cert_key
                (tls_opts flags)
          pure (watcher, record options { tls_opts = opts }))
        else pure (none, options)

  -- Up to the manager: the watchers of the webhook and of the metrics, and the options.
  unfoldable pub manager_options :
      Flags → Exec W (Option Watcher × Option Watcher × ManagerOptions Watcher)
  manager_options flags = do
    (webhook_cert_watcher, webhook) ← webhook_server flags
    (metrics_cert_watcher, metrics) ← metrics_server flags
    pure (
      webhook_cert_watcher,
      metrics_cert_watcher,
      record {
        metrics = metrics;
        webhook_server = webhook;
        health_probe_bind_address = flags.probe_addr;
        leader_election = flags.enable_leader_election;
        leader_election_id = "2bd226ed.kube-green.com";
        disable_cache_for = "Secret" ∷ [];
      },
    )

  abbrev pub add_watcher : Option Watcher → Exec W (Unit {0})
  add_watcher none = pure tt
  add_watcher (some watcher) = rt.add_watcher watcher

  abbrev pub reconciler : Flags → Gauge → SleepInfoReconciler W
  reconciler flags custom_metrics = record {
    clock = none;
    metrics = custom_metrics;
    settings = record { sleep_delta = flags.sleep_delta; manager_name = manager_name };
    max_concurrent_reconciles = flags.max_concurrent_reconciles;
  }

  -- The first error ends the program, `os.Exit(1)`.
  unfoldable pub main : Flags → Exec W (Unit {0})
  main flags = do
    (webhook_cert_watcher, metrics_cert_watcher, options) ← manager_options flags
    rt.new_manager options
    custom_metrics ← must_register rt.registry (setup_metrics_or_die "kube_green")
    sleep_info_reconciler ← setup_sleep_info rt.registry (reconciler flags custom_metrics)
    setup_execution rt.registry sleep_info_reconciler
    setup_webhook rt.registry
    add_watcher metrics_cert_watcher
    add_watcher webhook_cert_watcher
    rt.add_healthz_check "health"
    rt.add_readyz_check "check"
    rt.start
