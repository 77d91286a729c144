-- ===== src/Manager/Keeping.antt =====
-- The calls of `main` before the start take back nothing.
use kube_green.Base.{String, List, Option, none, some, arith, inl, inr, Result-cases}
use kube_green.Base.Exec.{pure, ◌>>◌}
use kube_green.Registration.{Gauge, Controller, must_register}
use kube_green.Manager.{
  Flags, TlsOption, Runtime, tls_opts, with_watcher, webhook_server, metrics_server,
  manager_options, add_watcher,
}
use kube_green.Manager.Entries.{Entry, Registers}

-- What is true in one state is true in another.
abbrev pub Keeping : {W : Type 0} → (Entry → W → Type 0) → W → W → Type 0
Keeping Registered w w' = (x : Entry) → Registered x w → Registered x w'

module _ {Watcher W : Type 0} (rt : Runtime Watcher W) (Registered : Entry → W → Type 0)
    (law : Registers rt Registered) where
  pub add_watcher-Keeping :
      (watcher : Option Watcher) (w : W) → Keeping Registered w (add_watcher rt watcher w).1
  add_watcher-Keeping none w x h = h
  add_watcher-Keeping (some watcher) w x h = law.watcher_keeps watcher x w h

  pub controller-Keeping :
      {A : Type 0} (c : Controller) (answer : A) (w : W)
      → Keeping Registered w ((rt.registry.new_controller c >> pure answer) w).1
  controller-Keeping c answer w x h = elim (Result-cases (rt.registry.new_controller c w).0) [
    | inr (e, failed) ↦ rw failed (law.controller_keeps c x w h)
    | inl (tt, made) ↦ rw made (law.controller_keeps c x w h)
  ]

  pub must_register-Keeping :
      (g : Gauge) (w : W) → Keeping Registered w (must_register rt.registry g w).1
  unfolding must_register
  must_register-Keeping g w x h = ground (arith, law.gauge_keeps g x w h)

  pub with_watcher-Keeping :
      (path name key : String) (opts : List (TlsOption Watcher)) (w : W)
      → Keeping Registered w (with_watcher rt path name key opts w).1
  unfolding with_watcher
  with_watcher-Keeping path name key opts w x h =
      ground
        (arith, h, law.new_watcher_keeps (rt.join_path path name) (rt.join_path path key) x w h)

  pub webhook_server-Keeping :
      (flags : Flags) (w : W) → Keeping Registered w (webhook_server rt flags w).1
  unfolding webhook_server
  webhook_server-Keeping flags w x h = ground (
    arith,
    with_watcher-Keeping flags.webhook_cert_path flags.webhook_cert_name flags.webhook_cert_key
        (tls_opts rt flags) w x h,
  )

  pub metrics_server-Keeping :
      (flags : Flags) (w : W) → Keeping Registered w (metrics_server rt flags w).1
  unfolding metrics_server
  metrics_server-Keeping flags w x h = ground (
    arith,
    h,
    with_watcher-Keeping flags.metrics_cert_path flags.metrics_cert_name flags.metrics_cert_key
        (tls_opts rt flags) w x h,
  )

  pub manager_options-Keeping :
      (flags : Flags) (w : W) → Keeping Registered w (manager_options rt flags w).1
  unfolding manager_options
  manager_options-Keeping flags w x h =
      let first = webhook_server-Keeping flags w x h in
      ground (arith, first, metrics_server-Keeping flags (webhook_server rt flags w).1 x first)
