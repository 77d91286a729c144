-- ===== src/Manager/Started.antt =====
-- In which states `main` starts the manager.
use kube_green.Base.{◌≡◌, ◌⊎◌, inl, inr, refl, List, [], ◌∷◌, Option, All, arith}
use kube_green.Base.{Error, ok, err, Result-cases}
use kube_green.Base.Exec.{Exec, pure, ◌>>=◌, ◌>>◌}
use kube_green.Registration.{
  Gauge, Controller, SleepInfoReconciler, setup_metrics_or_die, must_register, setup_sleep_info,
  setup_execution, setup_webhook,
}
use kube_green.Manager.{Flags, Runtime, manager_options, add_watcher, reconciler, main}
use kube_green.Manager.Keeping.{
  Keeping, add_watcher-Keeping, controller-Keeping, must_register-Keeping, manager_options-Keeping,
}
use kube_green.Manager.Entries.{
  Entry, idle, gauge, controller, webhook, health_check, ready_check, Registers, metrics_set_up,
  sleep_info_set_up, execution_set_up, webhook_set_up, health_set_up, everything,
}

module _ {Watcher W : Type 0} (rt : Runtime Watcher W) (Registered : Entry → W → Type 0) where
  abbrev pub Prepared : List Entry → W → Type 0
  Prepared entries w = Registered idle w × All (λ x. Registered x w) entries

  -- The code ends with an error before the start of the manager, or it is that start, for the first
  -- time, where everything is registered.
  abbrev pub StartsPrepared : Exec W (Unit {0}) → W → Type 0
  StartsPrepared code w =
      ((e : Error) × ((code w).0 ≡ err e) × Registered idle (code w).1)
      ⊎ ((ready : W) × (code w ≡ rt.start ready) × Prepared everything ready)

  Prepared-keeps :
      (entries : List Entry) (w w' : W)
      → Keeping Registered w w'
      → Prepared entries w
      → Prepared entries w'
  Prepared-keeps [] w w' keeps (h, _) = (keeps idle h, tt)
  Prepared-keeps (x ∷ entries) w w' keeps (i, (h, hs)) =
      let (i', kept) = Prepared-keeps entries w w' keeps (i, hs) in (i', (keeps x h, kept))

  -- Code that goes on after a call if the call succeeds.
  after_call :
      {A : Type 0} (call : Exec W A) (rest : A → Exec W (Unit {0})) (w : W)
      → Registered idle (call w).1
      → ((a : A) → (call w).0 ≡ ok a → StartsPrepared (rest a) (call w).1)
      → StartsPrepared (call >>= rest) w
  after_call call rest w i h = elim (Result-cases (call w).0) [
    | inr (e, failed) ↦ inl (e, rw failed refl, rw failed i)
    | inl (a, done) ↦ rw done (h a done)
  ]

  -- The same of a call that registers an entry.
  after_entry :
      {A : Type 0} (entries : List Entry) (x : Entry) (call : Exec W A)
      (rest : A → Exec W (Unit {0})) (w : W)
      → Keeping Registered w (call w).1
      → ((a : A) → (call w).0 ≡ ok a → Registered x (call w).1)
      → ((a : A) (w' : W) → Prepared (x ∷ entries) w' → StartsPrepared (rest a) w')
      → Prepared entries w
      → StartsPrepared (call >>= rest) w
  after_entry entries x call rest w keeps registers h prepared =
      let (i, kept) = Prepared-keeps entries w (call w).1 keeps prepared in
      after_call call rest w i (λ a done. h a (call w).1 (i, (registers a done, kept)))

  module _ (law : Registers rt Registered) where
    -- From the checks on.
    checks-StartsPrepared :
        (w : W)
        → Prepared webhook_set_up w
        → StartsPrepared
            (rt.add_healthz_check "health" >> (rt.add_readyz_check "check" >> rt.start))
            w
    checks-StartsPrepared w prepared =
        after_entry webhook_set_up (health_check "health") (rt.add_healthz_check "health")
          (λ _. rt.add_readyz_check "check" >> rt.start) w (λ x. law.health_keeps "health" x w)
          (λ _ done. law.health_registered "health" w done)
          (λ _ w' h.
            after_entry health_set_up (ready_check "check") (rt.add_readyz_check "check")
              (λ _. rt.start) w' (λ x. law.ready_keeps "check" x w')
              (λ _ done. law.ready_registered "check" w' done)
              (λ _ ready all. inr (ready, refl, all)) h)
          prepared

    -- From the watchers on.
    watchers-StartsPrepared :
        (metrics_watcher webhook_watcher : Option Watcher) (w : W)
        → Prepared webhook_set_up w
        → StartsPrepared
            (do
              add_watcher rt metrics_watcher
              add_watcher rt webhook_watcher
              rt.add_healthz_check "health"
              rt.add_readyz_check "check"
              rt.start)
            w
    watchers-StartsPrepared metrics_watcher webhook_watcher w prepared =
        let checks : Exec W (Unit {0}) =
          rt.add_healthz_check "health" >> (rt.add_readyz_check "check" >> rt.start) in
        let t = (add_watcher rt metrics_watcher w).1 in
        let first =
          Prepared-keeps webhook_set_up w t
            (add_watcher-Keeping rt Registered law metrics_watcher w) prepared in
        let second =
          Prepared-keeps webhook_set_up t (add_watcher rt webhook_watcher t).1
            (add_watcher-Keeping rt Registered law webhook_watcher t) first in
        after_call (add_watcher rt metrics_watcher) (λ _. add_watcher rt webhook_watcher >> checks)
          w first.0
          (λ _ done.
            after_call (add_watcher rt webhook_watcher) (λ _. checks) t second.0
              (λ _ done'. checks-StartsPrepared (add_watcher rt webhook_watcher t).1 second))

    controller_made :
        {A : Type 0} (c : Controller) (answer : A) (w : W) {a : A}
        → ((rt.registry.new_controller c >> pure answer) w).0 ≡ ok a
        → Registered
            (controller c.name c.watched_kind)
            ((rt.registry.new_controller c >> pure answer) w).1
    controller_made c answer w done = elim (Result-cases (rt.registry.new_controller c w).0) [
      | inr (e, failed) ↦ absurd (ground (arith, failed, done))
      | inl (tt, made) ↦ rw made (law.controller_registered c w made)
    ]

    -- From the SleepInfo controller on.
    controllers-StartsPrepared :
        (r : SleepInfoReconciler W) (metrics_watcher webhook_watcher : Option Watcher) (w : W)
        → Prepared metrics_set_up w
        → StartsPrepared
            (do
              sleep_info_reconciler ← setup_sleep_info rt.registry r
              setup_execution rt.registry sleep_info_reconciler
              setup_webhook rt.registry
              add_watcher rt metrics_watcher
              add_watcher rt webhook_watcher
              rt.add_healthz_check "health"
              rt.add_readyz_check "check"
              rt.start)
            w
    unfolding setup_sleep_info setup_execution setup_webhook
    controllers-StartsPrepared r metrics_watcher webhook_watcher w prepared =
        let watchers : Exec W (Unit {0}) = (do
          add_watcher rt metrics_watcher
          add_watcher rt webhook_watcher
          rt.add_healthz_check "health"
          rt.add_readyz_check "check"
          rt.start) in
        after_entry metrics_set_up (controller "kubegreen-sleepinfo" "SleepInfo")
          (setup_sleep_info rt.registry r)
          (λ r'. setup_execution rt.registry r' >> (setup_webhook rt.registry >> watchers)) w
          (controller-Keeping rt Registered law _ _ w) (λ r' done. controller_made _ _ w done)
          (λ r' w' h.
            after_entry sleep_info_set_up
              (controller "kubegreen-sleepinfoexecution" "SleepInfoExecution")
              (setup_execution rt.registry r') (λ _. setup_webhook rt.registry >> watchers) w'
              (controller-Keeping rt Registered law _ _ w') (λ _ done. controller_made _ _ w' done)
              (λ _ w2 h2.
                after_entry execution_set_up (webhook "SleepInfo") (setup_webhook rt.registry)
                  (λ _. watchers) w2 (λ x. law.webhook_keeps "SleepInfo" x w2)
                  (λ _ done. law.webhook_registered "SleepInfo" w2 done)
                  (λ _ w3 h3. watchers-StartsPrepared metrics_watcher webhook_watcher w3 h3) h2)
              h)
          prepared

    gauge_made :
        (g answer : Gauge) (w : W)
        → (must_register rt.registry g w).0 ≡ ok answer
        → Registered (gauge g) (must_register rt.registry g w).1
    unfolding must_register
    gauge_made g answer w done = elim (Result-cases (rt.registry.must_register g w).0) [
      | inr (e, failed) ↦ absurd (ground (arith, failed, done))
      | inl (tt, made) ↦ rw made (law.gauge_registered g w made)
    ]

    -- The manager is started once, and only when everything is registered. Where the calls register
    -- what they are given and take back nothing, for all flags, from a state where it has not been
    -- started, `main` ends with an error while it still has not been, or as the start does, in a state
    -- where the gauge, both controllers under their names, the webhook and the two checks are
    -- registered.
    pub main-StartsPrepared :
        (flags : Flags) (w : W) → Registered idle w → StartsPrepared (main rt flags) w
    unfolding main
    main-StartsPrepared flags w i =
        let i1 = manager_options-Keeping rt Registered law flags w idle i in
        after_call (manager_options rt flags) _ w i1
          (λ (webhook_watcher, metrics_watcher, options) _.
            let w1 = (manager_options rt flags w).1 in
            let w2 = (rt.new_manager options w1).1 in
            let i2 = law.manager_keeps options idle w1 i1 in
            let i3 =
              must_register-Keeping rt Registered law (setup_metrics_or_die "kube_green") w2 idle
                i2 in
            after_call (rt.new_manager options) _ w1 i2 (λ _ _.
              after_call (must_register rt.registry (setup_metrics_or_die "kube_green")) _ w2 i3
                (λ g done.
                  controllers-StartsPrepared (reconciler rt flags g) metrics_watcher webhook_watcher
                    _ (i3, (gauge_made (setup_metrics_or_die "kube_green") g w2 done, tt)))))
