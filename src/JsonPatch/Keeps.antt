-- ===== src/JsonPatch/Keeps.antt =====
-- What the inner loops of `Sleep` and `WakeUp` do to the cluster, beside what they answer.
pub mod Namespace
use kube_green.Base.{
  ◌≡◌, String, ◌==◌, Bool, true, false, Option, none, some, List, [], ◌∷◌, All, arith, inl, inr,
  Bool-cases,
}
use kube_green.Base.{Error, Result, ok, err}
use kube_green.Base.Exec.{Exec, lift, ◌>>=◌, ◌>>◌}
use kube_green.Base.Keeps.{Keeps, >>-Keeps, lift-Keeps}
use kube_green.Api.{PatchTarget}
use kube_green.Cluster.{Platform}
use kube_green.Patcher.{Patcher, new, exec, is_resource_changed}
use kube_green.Resource.{ResourceClient, patch, ssa_patch}
use kube_green.Resource.Keeps.{KeepsResources, patch-Keeps, ssa_patch-Keeps}
use kube_green.JsonPatch.{
  GenericResource, ManagedResources, Progress, on_world, as_json_patch, json_patch_call,
  mark_cache_invalid, loop_start, after_entry,
}
use kube_green.JsonPatch.Refresh.{refresh}
use kube_green.JsonPatch.Sleep.{
  sleep_refreshed, sleep_patcher, record_restore_patch, build_sparse_apply_object, apply_sleep,
  patch_resource, sleep_resource, sleep_resources, sleep_entry, sleep_entries, sleep,
}
use kube_green.JsonPatch.WakeUp.{
  wake_up_items, wake_up_refreshed, restore_resource, wake_up_saved, wake_up_resource,
  wake_up_resources, wake_up_entry, wake_up_entries, wake_up,
}

module _ {Object Value Operations Schedule W : Type 0}
    (p : Platform Object Value Operations Schedule W) (P : W → Type 0) where
  open p use {objects, json}

  abbrev pub InLoop : Progress W → Type 0
  InLoop s = P s.world

  on_world-Keeps : {A : Type 0} (call : Exec W A) → Keeps P call → Keeps InLoop (on_world call)
  on_world-Keeps call h s hs = h s.world hs

  json_patch_call-Keeps :
      {A : Type 0} (call : Exec W A) → Keeps P call → Keeps P (json_patch_call call)
  json_patch_call-Keeps call h = h

  mark_cache_invalid-Keeps : Keeps InLoop mark_cache_invalid
  mark_cache_invalid-Keeps s hs = hs

  -- A call on the cluster, after which the list is stale.
  call-Keeps :
      (call : Exec W (Unit {0}))
      → Keeps P call
      → Keeps InLoop (on_world (json_patch_call call) >> mark_cache_invalid)
  call-Keeps call h =
      >>-Keeps InLoop (on_world (json_patch_call call)) mark_cache_invalid
        (on_world-Keeps (json_patch_call call) (json_patch_call-Keeps call h))
        mark_cache_invalid-Keeps

  apply_sleep-Keeps :
      (res : ResourceClient Object W) (o : Object) (original modified restore_patch : String)
      → KeepsResources P res
      → Keeps InLoop (apply_sleep p res o original modified restore_patch)
  unfolding apply_sleep
  apply_sleep-Keeps res o original modified restore_patch h =
      let call : Object → Exec (Progress W) (Unit {0}) =
        λ sparse. on_world (json_patch_call (ssa_patch objects res sparse)) >> mark_cache_invalid in
      let build : String → Exec (Progress W) (Unit {0}) =
        λ forward. lift (as_json_patch (build_sparse_apply_object objects o forward)) >>= call in
      let apply : Exec (Progress W) (Unit {0}) =
        lift (as_json_patch (json.create_merge_patch original modified)) >>= build in
      elim (Bool-cases (restore_patch == "{}")) [
        | inl e ↦ rw e (λ s hs. hs)
        | inr e ↦ rw e (
            >>-Keeps InLoop (record_restore_patch p (objects.name o) restore_patch) apply
              (λ s hs. hs)
              (lift-Keeps InLoop (as_json_patch (json.create_merge_patch original modified)) build
                (λ forward.
                  lift-Keeps InLoop (as_json_patch (build_sparse_apply_object objects o forward))
                    call
                    (λ sparse.
                      call-Keeps (ssa_patch objects res sparse)
                        (ssa_patch-Keeps P objects res sparse h)))))
      ]

  patch_resource-Keeps :
      (res : ResourceClient Object W) (o : Object) (original : String) (modified : Result String)
      → KeepsResources P res
      → Keeps InLoop (patch_resource p res o original modified)
  unfolding patch_resource
  patch_resource-Keeps res o original (err e) h s hs = hs
  patch_resource-Keeps res o original (ok modified) h s hs =
      lift-Keeps InLoop (as_json_patch (json.create_merge_patch modified original))
        (apply_sleep p res o original modified)
        (λ patch. apply_sleep-Keeps res o original modified patch h) s hs

  pub sleep_resources-Keeps :
      (res : ResourceClient Object W) (patcher : Patcher Operations) (items : List Object)
      → KeepsResources P res
      → Keeps InLoop (sleep_resources p res patcher items)
  unfolding sleep_resources sleep_resource
  sleep_resources-Keeps res patcher [] h s hs = hs
  sleep_resources-Keeps res patcher (o ∷ items) h s hs =
      >>-Keeps InLoop (sleep_resource p res patcher o) (sleep_resources p res patcher items)
        (elim (Bool-cases (objects.has_controller o)) [
          | inl e ↦ rw e (λ s hs. hs)
          | inr e ↦ rw e (
              lift-Keeps InLoop (as_json_patch (objects.marshal o))
                (λ original. patch_resource p res o original (exec json patcher original))
                (λ original. patch_resource-Keeps res o original (exec json patcher original) h))
        ])
        (sleep_resources-Keeps res patcher items h) s hs

  restore_resource-Keeps :
      (res : ResourceClient Object W) (o : Object) (raw_patch current : String)
      (changed : Result Bool)
      → KeepsResources P res
      → Keeps InLoop (restore_resource p res o raw_patch current changed)
  unfolding restore_resource
  restore_resource-Keeps res o raw_patch current (err e) h s hs = hs
  restore_resource-Keeps res o raw_patch current (ok true) h s hs = hs
  restore_resource-Keeps res o raw_patch current (ok false) h s hs =
      let call : Object → Exec (Progress W) (Unit {0}) = λ restored_object.
        on_world (json_patch_call (patch res o restored_object)) >> mark_cache_invalid in
      lift-Keeps InLoop (as_json_patch (json.merge_patch current raw_patch))
        (λ restored. lift (as_json_patch (objects.unmarshal restored)) >>= call)
        (λ restored.
          lift-Keeps InLoop (as_json_patch (objects.unmarshal restored)) call (λ restored_object.
            call-Keeps (patch res o restored_object) (patch-Keeps P res o restored_object h)))
        s hs

  wake_up_saved-Keeps :
      (res : ResourceClient Object W) (patcher : Patcher Operations) (o : Object)
      (found : Option String)
      → KeepsResources P res
      → Keeps InLoop (wake_up_saved p res patcher o found)
  unfolding wake_up_saved
  wake_up_saved-Keeps res patcher o none h s hs = hs
  wake_up_saved-Keeps res patcher o (some raw_patch) h s hs =
      lift-Keeps InLoop (as_json_patch (objects.marshal o))
        (λ current.
          restore_resource p res o raw_patch current (is_resource_changed json patcher current))
        (λ current.
          restore_resource-Keeps res o raw_patch current (is_resource_changed json patcher current)
            h)
        s hs

  pub wake_up_resources-Keeps :
      (res : ResourceClient Object W) (patcher : Patcher Operations) (items : List Object)
      → KeepsResources P res
      → Keeps InLoop (wake_up_resources p res patcher items)
  unfolding wake_up_resources wake_up_resource
  wake_up_resources-Keeps res patcher [] h s hs = hs
  wake_up_resources-Keeps res patcher (o ∷ items) h s hs =
      >>-Keeps InLoop (wake_up_resource p res patcher o) (wake_up_resources p res patcher items)
        (λ t. wake_up_saved-Keeps res patcher o _ h t) (wake_up_resources-Keeps res patcher items h)
        s hs
