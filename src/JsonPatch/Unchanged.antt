-- ===== src/JsonPatch/Unchanged.antt =====
-- When `Sleep` and `WakeUp` leave resources alone.
use kube_green.Base.{
  true, false, ◌≡◌, inl, inr, refl, String, none, some, List, [], ◌∷◌, All, arith,
}
use kube_green.Base.{ok, Result-cases, Option-cases}
use kube_green.Base.Dict.{lookup}
use kube_green.Cluster.{Platform}
use kube_green.Patcher.{Patcher, is_resource_changed}
use kube_green.Resource.{ResourceClient}
use kube_green.JsonPatch.{Progress}
use kube_green.JsonPatch.Sleep.{sleep_resource, sleep_resources, patch_resource, apply_sleep}
use kube_green.JsonPatch.Sleep.Recorded.{restore_patch_of}
use kube_green.JsonPatch.WakeUp.{restore_resource, wake_up_resource}

module _ {Object Value Operations Schedule W : Type 0}
    (p : Platform Object Value Operations Schedule W) where
  open p use {objects, json}

  sleep_resource-unchanged :
      (res : ResourceClient Object W) (patcher : Patcher Operations) (o : Object) (s : Progress W)
      → restore_patch_of p patcher o ≡ none
      → (sleep_resource p res patcher o s).1 ≡ s
  unfolding restore_patch_of sleep_resource patch_resource apply_sleep
  sleep_resource-unchanged res patcher o s h = ground arith

  -- Putting to sleep what the patch does not change is no call on the cluster, and records nothing.
  pub sleep_resources-unchanged :
      (res : ResourceClient Object W) (patcher : Patcher Operations) (items : List Object)
      (s : Progress W)
      → All (λ o. restore_patch_of p patcher o ≡ none) items
      → (sleep_resources p res patcher items s).1 ≡ s
  unfolding sleep_resources
  sleep_resources-unchanged res patcher [] s h = refl
  sleep_resources-unchanged res patcher (o ∷ items) s (h, hs) =
      elim (Result-cases (sleep_resource p res patcher o s).0) [
        | inl (u, e) ↦
            rw (e, sleep_resource-unchanged res patcher o s h)
              (sleep_resources-unchanged res patcher items s hs)
        | inr (m, e) ↦ rw e (sleep_resource-unchanged res patcher o s h)
      ]

  -- What `WakeUp` requires of a resource: a stored restore patch, and that its sleep patch is still in
  -- effect.
  pub record IsAwaitingWakeUp (patcher : Patcher Operations) (o : Object) (s : Progress W)
      : Type 0 where
    pub raw_patch : String
    pub current : String
    pub stored : lookup (objects.name o) s.restore_patches ≡ some raw_patch
    pub marshalled : objects.marshal o ≡ ok current
    pub in_effect : is_resource_changed json patcher current ≡ ok false

  -- `WakeUp` leaves the cluster and its records alone at every other resource: one that has no restore
  -- patch, and one that was modified since the sleep.
  pub wake_up_resource-unchanged :
      (res : ResourceClient Object W) (patcher : Patcher Operations) (o : Object) (s : Progress W)
      → ¬ IsAwaitingWakeUp patcher o s
      → (wake_up_resource p res patcher o s).1 ≡ s
  unfolding wake_up_resource restore_resource
  wake_up_resource-unchanged res patcher o s h =
      elim (Option-cases (lookup (objects.name o) s.restore_patches)) [
        | inl absent ↦ rw absent
        | inr (raw_patch, stored) ↦ elim (Result-cases (objects.marshal o)) [
          | inr (e, failed) ↦ rw (stored, failed)
          | inl (current, marshalled) ↦
              elim (Result-cases (is_resource_changed json patcher current)) [
                | inr (e, failed) ↦ rw (stored, marshalled, failed)
                | inl (true, changed) ↦ rw (stored, marshalled, changed)
                | inl (false, same) ↦ absurd (
                    h (record {
                      raw_patch = raw_patch;
                      current = current;
                      stored = stored;
                      marshalled = marshalled;
                      in_effect = same;
                    }))
              ]
        ]
      ]
