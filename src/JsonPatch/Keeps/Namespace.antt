-- ===== src/JsonPatch/Keeps/Namespace.antt =====
-- What `Sleep` and `WakeUp` of all the managed resources do to the cluster.
use kube_green.Base.{
  ◌≡◌, String, ◌==◌, Option, none, some, List, [], ◌∷◌, All, arith, inl, inr, Bool-cases,
}
use kube_green.Base.{Error, Result, ok, err}
use kube_green.Api.{PatchTarget}
use kube_green.Cluster.{Platform}
use kube_green.Patcher.{Patcher, new}
use kube_green.Resource.Keeps.{KeepsResources}
use kube_green.JsonPatch.{GenericResource, ManagedResources, loop_start, after_entry}
use kube_green.JsonPatch.Refresh.{refresh}
use kube_green.JsonPatch.Sleep.{sleep_refreshed, sleep_patcher, sleep_entry, sleep_entries, sleep}
use kube_green.JsonPatch.WakeUp.{
  wake_up_items, wake_up_refreshed, wake_up_entry, wake_up_entries, wake_up,
}
use kube_green.JsonPatch.Keeps.{sleep_resources-Keeps, wake_up_resources-Keeps}

module _ {Object Value Operations Schedule W : Type 0}
    (p : Platform Object Value Operations Schedule W) (P : W → Type 0) where
  open p use {objects, json}

  refresh-client :
      (g : GenericResource Object W) (namespace : String) (w : W)
      → (refresh objects g namespace w).0.client ≡ g.client
  unfolding refresh
  refresh-client g namespace w = ground arith

  -- The world after a round, and after a loop.
  sleep_refreshed-Keeps :
      (key : PatchTarget) (found : GenericResource Object W × Option Error)
      (patcher : Patcher Operations) (w : W)
      → KeepsResources P found.0.client
      → P w
      → P (sleep_refreshed p key found patcher w).2
  sleep_refreshed-Keeps key (g, some e) patcher w h hw = hw
  sleep_refreshed-Keeps key (g, none) patcher w h hw =
      sleep_resources-Keeps p P g.client patcher g.items h (loop_start g w) hw

  sleep_patcher-Keeps :
      (key : PatchTarget) (g : GenericResource Object W) (namespace : String)
      (decoded : Result (Patcher Operations)) (w : W)
      → KeepsResources P g.client
      → P w
      → P (sleep_patcher p (key, g) namespace decoded w).2
  sleep_patcher-Keeps key g namespace (err e) w h hw = hw
  sleep_patcher-Keeps key g namespace (ok patcher) w h hw =
      sleep_refreshed-Keeps key (refresh objects g namespace w) patcher w
        (rw (refresh-client g namespace w) h) hw

  sleep_entry-Keeps :
      (key : PatchTarget) (g : GenericResource Object W) (namespace : String) (w : W)
      → KeepsResources P g.client
      → P w
      → P (sleep_entry p (key, g) namespace w).2
  unfolding sleep_entry
  sleep_entry-Keeps key g namespace w h hw = elim (Bool-cases (g.patch_data.patch == "")) [
    | inl e ↦ rw e hw
    | inr e ↦ rw e (sleep_patcher-Keeps key g namespace (new json g.patch_data.patch) w h hw)
  ]

  wake_up_items-Keeps :
      (key : PatchTarget) (g : GenericResource Object W) (decoded : Result (Patcher Operations))
      (w : W)
      → KeepsResources P g.client
      → P w
      → P (wake_up_items p key g decoded w).2
  wake_up_items-Keeps key g (err e) w h hw = hw
  wake_up_items-Keeps key g (ok patcher) w h hw =
      wake_up_resources-Keeps p P g.client patcher g.items h (loop_start g w) hw

  wake_up_refreshed-Keeps :
      (key : PatchTarget) (found : GenericResource Object W × Option Error) (w : W)
      → KeepsResources P found.0.client
      → P w
      → P (wake_up_refreshed p key found w).2
  wake_up_refreshed-Keeps key (g, some e) w h hw = hw
  wake_up_refreshed-Keeps key (g, none) w h hw =
      wake_up_items-Keeps key g (new json g.patch_data.patch) w h hw

  -- A loop over entries whose rounds keep `P`, as far as it goes.
  after_entry-Keeps :
      {Entry : Type 0} (round : Result (Unit {0}) × Entry × W) (rest : List Entry)
      (more : W → Result (Unit {0}) × List Entry × W)
      → P round.2
      → ((w : W) → P w → P (more w).2)
      → P (after_entry round rest more).2
  after_entry-Keeps (err e, entry, w) rest more h k = h
  after_entry-Keeps (ok u, entry, w) rest more h k = k w h

  abbrev pub Reaching : PatchTarget × GenericResource Object W → Type 0
  Reaching (key, g) = KeepsResources P g.client

  sleep_entries-Keeps :
      (entries : List (PatchTarget × GenericResource Object W)) (namespace : String)
      → All Reaching entries
      → (w : W) → P w
      → P (sleep_entries p entries namespace w).2
  unfolding sleep_entries
  sleep_entries-Keeps [] namespace h w hw = hw
  sleep_entries-Keeps ((key, g) ∷ rest) namespace (h, hs) w hw =
      after_entry-Keeps (sleep_entry p (key, g) namespace w) rest (sleep_entries p rest namespace)
        (sleep_entry-Keeps key g namespace w h hw) (sleep_entries-Keeps rest namespace hs)

  wake_up_entries-Keeps :
      (entries : List (PatchTarget × GenericResource Object W)) (namespace : String)
      → All Reaching entries
      → (w : W) → P w
      → P (wake_up_entries p entries namespace w).2
  unfolding wake_up_entries wake_up_entry
  wake_up_entries-Keeps [] namespace h w hw = hw
  wake_up_entries-Keeps ((key, g) ∷ rest) namespace (h, hs) w hw =
      after_entry-Keeps (wake_up_entry p (key, g) namespace w) rest
        (wake_up_entries p rest namespace)
        (wake_up_refreshed-Keeps key (refresh objects g namespace w) w
          (rw (refresh-client g namespace w) h) hw)
        (wake_up_entries-Keeps rest namespace hs)

  pub sleep-Keeps :
      (g : ManagedResources Object W)
      → All Reaching g.res_mapping
      → (w : W) → P w
      → P (sleep p g w).2
  unfolding sleep
  sleep-Keeps g h w hw = sleep_entries-Keeps g.res_mapping g.namespace h w hw

  pub wake_up-Keeps :
      (g : ManagedResources Object W)
      → All Reaching g.res_mapping
      → (w : W) → P w
      → P (wake_up p g w).2
  unfolding wake_up
  wake_up-Keeps g h w hw = wake_up_entries-Keeps g.res_mapping g.namespace h w hw
