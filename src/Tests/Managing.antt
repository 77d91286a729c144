-- ===== src/Tests/Managing.antt =====
-- The configuration of a manager with a certificate for its webhook.
use kube_green.Base.{ℕ, ◌+◌, ◌≡◌, refl, true, false, String, ◌<>◌, [], ◌∷◌, none, some}
use kube_green.Base.{ok, List, In, inl, inr}
use kube_green.Manager.{
  Flags, default_flags, TlsConfig, ManagerOptions, Runtime, disable_http2, tls_opts, watched,
  with_watcher, webhook_server, metrics_server, manager_options, main,
}
use kube_green.Registration.{must_register, setup_sleep_info, setup_execution, setup_webhook}
use kube_green.Manager.Entries.{
  Entry, idle, gauge, controller, webhook, health_check, ready_check, Registers,
}
use kube_green.Manager.Started.{StartsPrepared, main-StartsPrepared}
use kube_green.Manager.Tls.{Serves, WatchesWebhook, WatchesMetrics, manager_options-Serves}

-- A runtime that counts the calls; a watcher is the path of its certificate.
abbrev runtime : Runtime String ℕ
runtime = record {
  join_path = λ path name. path <> ("/" <> name);
  new_watcher = λ certificate key n. (ok certificate, n + 1);
  new_manager = λ options n. (ok tt, n + 1);
  registry = record {
    time_now = λ n. n;
    must_register = λ gauge n. (ok tt, n + 1);
    new_controller = λ controller n. (ok tt, n + 1);
    new_webhook = λ kind n. (ok tt, n + 1);
  };
  add_watcher = λ watcher n. (ok tt, n + 1);
  add_healthz_check = λ name n. (ok tt, n + 1);
  add_readyz_check = λ name n. (ok tt, n + 1);
  start = λ n. (ok tt, n + 1);
}

abbrev flags : Flags
flags = record default_flags { webhook_cert_path = "/certs" }

abbrev blank : TlsConfig String
blank = record { next_protos = "h2" ∷ []; get_certificate = none }

abbrev options : ManagerOptions String
options = record {
  metrics = record {
    bind_address = "0";
    secure_serving = true;
    tls_opts = disable_http2 runtime ∷ [];
    with_authentication = true;
  };
  webhook_server = record {
    host = "";
    port = flags.webhook_port;
    tls_opts = disable_http2 runtime ∷ watched runtime "/certs/tls.crt" ∷ [];
  };
  health_probe_bind_address = ":8081";
  leader_election = false;
  leader_election_id = "2bd226ed.kube-green.com";
  disable_cache_for = "Secret" ∷ [];
}

options_lem : (manager_options runtime flags 0).0 ≡ ok (some "/certs/tls.crt", none, options)
unfolding manager_options webhook_server metrics_server with_watcher tls_opts
options_lem = refl

-- Ten calls, one of them for the watcher, and one to add it.
runs : main runtime flags 0 ≡ (ok tt, 10)
unfolding main manager_options webhook_server metrics_server with_watcher tls_opts must_register
    setup_sleep_info setup_execution setup_webhook
runs = refl

manager_options-Serves_example :
    Serves false (some "/certs/tls.crt") blank options.webhook_server.tls_opts
    × Serves false none blank options.metrics.tls_opts
    × (true ≡ true)
    × WatchesWebhook runtime flags 0 (some "/certs/tls.crt")
    × WatchesMetrics runtime flags 1 none
manager_options-Serves_example =
    manager_options-Serves runtime flags blank (some "/certs/tls.crt") none options 0 options_lem

-- A runtime that lists what is registered.
abbrev book : Runtime String (List Entry)
book = record {
  join_path = λ path name. path <> ("/" <> name);
  new_watcher = λ certificate key w. (ok certificate, w);
  new_manager = λ options w. (ok tt, w);
  registry = record {
    time_now = λ w. 0;
    must_register = λ g w. (ok tt, gauge g ∷ w);
    new_controller = λ c w. (ok tt, controller c.name c.watched_kind ∷ w);
    new_webhook = λ kind w. (ok tt, webhook kind ∷ w);
  };
  add_watcher = λ watcher w. (ok tt, w);
  add_healthz_check = λ name w. (ok tt, health_check name ∷ w);
  add_readyz_check = λ name w. (ok tt, ready_check name ∷ w);
  start = λ w. (ok tt, []);
}

book-Registers : Registers book In
book-Registers = record {
  gauge_registered = λ g w done. inl refl;
  controller_registered = λ c w done. inl refl;
  webhook_registered = λ kind w done. inl refl;
  health_registered = λ name w done. inl refl;
  ready_registered = λ name w done. inl refl;
  new_watcher_keeps = λ certificate key x w h. h;
  manager_keeps = λ options x w h. h;
  gauge_keeps = λ g x w h. inr h;
  controller_keeps = λ c x w h. inr h;
  webhook_keeps = λ kind x w h. inr h;
  watcher_keeps = λ watcher x w h. h;
  health_keeps = λ name x w h. inr h;
  ready_keeps = λ name x w h. inr h;
}

main-StartsPrepared_example : StartsPrepared book In (main book flags) (idle ∷ [])
main-StartsPrepared_example =
    main-StartsPrepared book In book-Registers flags (idle ∷ []) (inl refl)
