-- ===== src/Manager/Tls.antt =====
-- How the two servers are configured for TLS.
use kube_green.Base.{
  ◌≡◌, ◌≢◌, refl, Bool, true, false, String, ◌==◌, List, [], ◌∷◌, ◌++◌, Option, none, some, ◌⊎◌,
  subst, arith, Bool-cases, inl, inr, eq_iff,
}
use kube_green.Base.{ok, if◌then◌else◌, Result-cases, or_else}
use kube_green.Manager.{
  Flags, TlsConfig, TlsOption, WebhookOptions, MetricsOptions, ManagerOptions, Runtime,
  disable_http2, tls_opts, watched, with_watcher, webhook_server, metrics_server, manager_options,
}

module _ {Watcher : Type 0} where
  -- The options are applied one after the other.
  abbrev pub configured : List (TlsOption Watcher) → TlsConfig Watcher → TlsConfig Watcher
  configured [] c = c
  configured (option ∷ options) c = configured options (option c)

  configured-append :
      (xs ys : List (TlsOption Watcher)) (c : TlsConfig Watcher)
      → configured (xs ++ ys) c ≡ configured ys (configured xs c)
  configured-append [] ys c = refl
  configured-append (option ∷ xs) ys c = configured-append xs ys (option c)

  -- The protocols that are asked for, and the source of the certificate.
  abbrev pub Serves : Bool → Option Watcher → TlsConfig Watcher → List (TlsOption Watcher) → Type 0
  Serves enable_http2 watcher c opts =
      ((configured opts c).next_protos ≡ (if enable_http2 then c.next_protos else "http/1.1" ∷ []))
      × ((configured opts c).get_certificate ≡ or_else watcher c.get_certificate)

module _ {Watcher W : Type 0} (rt : Runtime Watcher W) where
  tls_opts-Serves :
      (flags : Flags) (c : TlsConfig Watcher) → Serves flags.enable_http2 none c (tls_opts rt flags)
  unfolding tls_opts disable_http2
  tls_opts-Serves flags c = elim (Bool-cases flags.enable_http2) [
    | inl e ↦ rw e (refl, refl)
    | inr e ↦ rw e (refl, refl)
  ]

  -- There is a watcher where there is a path, and it is the one that is made, in state `w`, for the
  -- certificate and the key under that path.
  abbrev pub Watches : String → String → String → W → Option Watcher → Type 0
  Watches path name key w watcher =
      ((path ≡ "") × (watcher ≡ none))
      ⊎ ((path ≢ "")
          × ((made : Watcher) × (watcher ≡ some made)
              × ((rt.new_watcher (rt.join_path path name) (rt.join_path path key) w).0 ≡ ok made)))

  with_watcher-Serves :
      (enable_http2 : Bool) (path name key : String) (opts opts' : List (TlsOption Watcher))
      (c : TlsConfig Watcher) (watcher : Option Watcher) (w : W)
      → Serves enable_http2 none c opts
      → (with_watcher rt path name key opts w).0 ≡ ok (watcher, opts')
      → Serves enable_http2 watcher c opts' × Watches path name key w watcher
  unfolding with_watcher
  with_watcher-Serves enable_http2 path name key opts opts' c watcher w h done =
      elim (Bool-cases (path == "")) [
        | inl e ↦
            let same : ◌≡◌ {A = Option Watcher × List (TlsOption Watcher)} (none, opts)
                (watcher, opts') =
              ground arith in
            subst (λ x. Serves enable_http2 x.0 c x.1 × Watches path name key w x.0) same
              (h, inl (ground (arith, eq_iff path "", e), refl))
        | inr e ↦
            elim (Result-cases
              (rt.new_watcher (rt.join_path path name) (rt.join_path path key) w).0) [
                | inr (m, failed) ↦ absurd (ground arith)
                | inl (made, found) ↦
                    let same : ◌≡◌ {A = Option Watcher × List (TlsOption Watcher)}
                        (some made, opts ++ (watched rt made ∷ [])) (watcher, opts') =
                      ground arith in
                    subst (λ x. Serves enable_http2 x.0 c x.1 × Watches path name key w x.0) same
                      (
                        rw (configured-append opts (watched rt made ∷ []) c) (h.0, refl),
                        inr (
                          (λ none_given. absurd (ground (arith, eq_iff path "", e, none_given))),
                          (made, refl, found),
                        ),
                      )
              ]
      ]

  abbrev pub WatchesWebhook : Flags → W → Option Watcher → Type 0
  WatchesWebhook flags =
      Watches flags.webhook_cert_path flags.webhook_cert_name flags.webhook_cert_key

  -- Metrics that are not secured have no watcher.
  abbrev pub WatchesMetrics : Flags → W → Option Watcher → Type 0
  WatchesMetrics flags w watcher =
      ((flags.secure_metrics ≡ false) × (watcher ≡ none))
      ⊎ ((flags.secure_metrics ≡ true)
          × Watches flags.metrics_cert_path flags.metrics_cert_name flags.metrics_cert_key w
              watcher)

  webhook_server-Serves :
      (flags : Flags) (c : TlsConfig Watcher) (watcher : Option Watcher)
      (options : WebhookOptions Watcher) (w : W)
      → (webhook_server rt flags w).0 ≡ ok (watcher, options)
      → Serves flags.enable_http2 watcher c options.tls_opts × WatchesWebhook flags w watcher
  unfolding webhook_server
  webhook_server-Serves flags c watcher options w done =
      elim (Result-cases
        (with_watcher rt flags.webhook_cert_path flags.webhook_cert_name flags.webhook_cert_key
          (tls_opts rt flags) w).0) [
            | inr (m, failed) ↦ absurd (ground arith)
            | inl ((made, opts), found) ↦
                let same : ◌≡◌ {A = Option Watcher × List (TlsOption Watcher)} (made, opts)
                    (watcher, options.tls_opts) =
                  ground arith in
                subst (λ x. Serves flags.enable_http2 x.0 c x.1 × WatchesWebhook flags w x.0) same
                  (with_watcher-Serves flags.enable_http2 _ _ _ (tls_opts rt flags) opts c made w
                    (tls_opts-Serves flags c) found)
          ]

  abbrev ServesMetrics :
      Flags → TlsConfig Watcher → W → Option Watcher → MetricsOptions Watcher → Type 0
  ServesMetrics flags c w watcher options =
      Serves flags.enable_http2 watcher c options.tls_opts
      × (options.with_authentication ≡ flags.secure_metrics)
      × WatchesMetrics flags w watcher

  metrics_server-ServesMetrics :
      (flags : Flags) (c : TlsConfig Watcher) (watcher : Option Watcher)
      (options : MetricsOptions Watcher) (w : W)
      → (metrics_server rt flags w).0 ≡ ok (watcher, options)
      → ServesMetrics flags c w watcher options
  unfolding metrics_server
  metrics_server-ServesMetrics flags c watcher options w done =
      elim (Bool-cases flags.secure_metrics) [
        | inr e ↦
            let same : ◌≡◌ {A = Option Watcher × List (TlsOption Watcher)} (none, tls_opts rt flags)
                (watcher, options.tls_opts) =
              ground arith in
            (
              subst (λ x. Serves flags.enable_http2 x.0 c x.1) same (tls_opts-Serves flags c),
              ground arith,
              inl (e, ground arith),
            )
        | inl e ↦
            elim (Result-cases
              (with_watcher rt flags.metrics_cert_path flags.metrics_cert_name
                flags.metrics_cert_key (tls_opts rt flags) w).0) [
                  | inr (m, failed) ↦ absurd (ground arith)
                  | inl ((made, opts), found) ↦
                      let same : ◌≡◌ {A = Option Watcher × List (TlsOption Watcher)} (made, opts)
                          (watcher, options.tls_opts) =
                        ground arith in
                      let (serves, watches) =
                        subst
                          (λ x.
                            Serves flags.enable_http2 x.0 c x.1
                            × Watches flags.metrics_cert_path flags.metrics_cert_name
                                flags.metrics_cert_key w x.0)
                          same
                          (with_watcher-Serves flags.enable_http2 _ _ _ (tls_opts rt flags) opts c
                            made w (tls_opts-Serves flags c) found) in
                      (serves, ground arith, inr (e, watches))
                ]
      ]

  -- Unless HTTP/2 is enabled, both servers speak HTTP/1.1 only, whatever the configuration that they
  -- start from. The webhook has a watcher exactly where the path of its certificate is given, the
  -- metrics where they are secured and theirs is; that watcher is the one made for the certificate
  -- and the key under the path, the webhook's first, and the certificate of the server is its.
  pub manager_options-Serves :
      (flags : Flags) (c : TlsConfig Watcher) (webhook_watcher metrics_watcher : Option Watcher)
      (options : ManagerOptions Watcher) (w : W)
      → (manager_options rt flags w).0 ≡ ok (webhook_watcher, metrics_watcher, options)
      → Serves flags.enable_http2 webhook_watcher c options.webhook_server.tls_opts
        × Serves flags.enable_http2 metrics_watcher c options.metrics.tls_opts
        × (options.metrics.with_authentication ≡ flags.secure_metrics)
        × WatchesWebhook flags w webhook_watcher
        × WatchesMetrics flags (webhook_server rt flags w).1 metrics_watcher
  unfolding manager_options
  manager_options-Serves flags c webhook_watcher metrics_watcher options w done =
      elim (Result-cases (webhook_server rt flags w).0) [
        | inr (m, failed) ↦ absurd (ground arith)
        | inl ((first, webhook), found) ↦
            elim (Result-cases (metrics_server rt flags (webhook_server rt flags w).1).0) [
              | inr (m, failed) ↦ absurd (ground arith)
              | inl ((second, metrics), found') ↦
                  let same : ◌≡◌ {A = Option Watcher × WebhookOptions Watcher} (first, webhook)
                      (webhook_watcher, options.webhook_server) =
                    ground arith in
                  let same' : ◌≡◌ {A = Option Watcher × MetricsOptions Watcher} (second, metrics)
                      (metrics_watcher, options.metrics) =
                    ground arith in
                  let serves = webhook_server-Serves flags c first webhook w found in
                  let serves' =
                    metrics_server-ServesMetrics flags c second metrics
                      (webhook_server rt flags w).1 found' in
                  let (tls, authenticated, watches') =
                    subst (λ x. ServesMetrics flags c (webhook_server rt flags w).1 x.0 x.1) same'
                      serves' in
                  let (tls_webhook, watches) =
                    subst
                      (λ x.
                        Serves flags.enable_http2 x.0 c x.1.tls_opts × WatchesWebhook flags w x.0)
                      same serves in
                  (tls_webhook, tls, authenticated, watches, watches')
            ]
      ]
