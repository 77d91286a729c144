-- ===== src/JsonPatch/WakeUp.antt =====
-- jsonpatch.go: `WakeUp`.
use kube_green.Base.{Bool, true, false, String, Option, none, some, List, [], ◌∷◌}
use kube_green.Base.{Error, json_patch, Result, ok, err, message}
use kube_green.Base.Dict.{lookup}
use kube_green.Base.Exec.{Exec, pure, lift, ◌>>=◌, ◌>>◌}
use kube_green.Api.{PatchTarget}
use kube_green.Cluster.{Platform}
use kube_green.Patcher.{Patcher, new, is_resource_changed}
use kube_green.Resource.{ResourceClient, patch}
use kube_green.JsonPatch.{
  GenericResource, ManagedResources, Progress, on_world, as_json_patch, json_patch_call,
  mark_cache_invalid, loop_start, loop_end, after_entry,
}
use kube_green.JsonPatch.Refresh.{refresh}

module _ {Object Value Operations Schedule W : Type 0}
    (p : Platform Object Value Operations Schedule W) where
  open p use {objects, json}

  -- The rest of the round, when the change test has been made: `continue` if it fails, and if the
  -- resource has changed since the sleep.
  unfoldable pub restore_resource :
      ResourceClient Object W
      → Object
      → String
      → String
      → Result Bool
      → Exec (Progress W) (Unit {0})
  restore_resource res resource raw_patch current (err e) = pure tt
  restore_resource res resource raw_patch current (ok true) = pure tt
  restore_resource res resource raw_patch current (ok false) = do
    restored ← lift (as_json_patch (json.merge_patch current raw_patch))
    restored_object ← lift (as_json_patch (objects.unmarshal restored))
    on_world (json_patch_call (patch res resource restored_object))
    mark_cache_invalid

  unfoldable pub wake_up_saved :
      ResourceClient Object W
      → Patcher Operations
      → Object
      → Option String
      → Exec (Progress W) (Unit {0})
  wake_up_saved res patcher resource none = pure tt
  wake_up_saved res patcher resource (some raw_patch) = do
    current ← lift (as_json_patch (objects.marshal resource))
    restore_resource res resource raw_patch current (is_resource_changed json patcher current)

  -- One round of the inner loop of `WakeUp`.
  unfoldable pub wake_up_resource :
      ResourceClient Object W → Patcher Operations → Object → Exec (Progress W) (Unit {0})
  unfolding wake_up_saved
  wake_up_resource res patcher resource s =
      wake_up_saved res patcher resource (lookup (objects.name resource) s.restore_patches) s

  unfoldable pub wake_up_resources :
      ResourceClient Object W → Patcher Operations → List Object → Exec (Progress W) (Unit {0})
  wake_up_resources res patcher [] = pure tt
  wake_up_resources res patcher (resource ∷ rest) =
      wake_up_resource res patcher resource >> wake_up_resources res patcher rest

  abbrev pub Entry : Type 0
  Entry = PatchTarget × GenericResource Object W

  abbrev pub wake_up_items :
      PatchTarget
      → GenericResource Object W
      → Result (Patcher Operations)
      → W
      → Result (Unit {0}) × Entry × W
  wake_up_items key g (err e) w = (err (json_patch (message e)), (key, g), w)
  wake_up_items key g (ok patcher) w =
      let (r, s) = wake_up_resources g.client patcher g.items (loop_start g w) in
      (r, (key, loop_end g s), s.world)

  abbrev pub wake_up_refreshed :
      PatchTarget → GenericResource Object W × Option Error → W → Result (Unit {0}) × Entry × W
  wake_up_refreshed key (g, some e) w = (err e, (key, g), w)
  wake_up_refreshed key (g, none) w = wake_up_items key g (new json g.patch_data.patch) w

  -- One round of the outer loop of `WakeUp`.
  unfoldable pub wake_up_entry : Entry → String → W → Result (Unit {0}) × Entry × W
  wake_up_entry (key, g) namespace w = wake_up_refreshed key (refresh objects g namespace w) w

  unfoldable pub wake_up_entries : List Entry → String → W → Result (Unit {0}) × List Entry × W
  wake_up_entries [] namespace w = (ok tt, [], w)
  wake_up_entries (entry ∷ rest) namespace w =
      after_entry (wake_up_entry entry namespace w) rest (wake_up_entries rest namespace)

  -- `WakeUp`: its error, the resources after it and the cluster after it.
  unfoldable pub wake_up :
      ManagedResources Object W → W → Result (Unit {0}) × ManagedResources Object W × W
  wake_up g w =
      let (r, entries, w') = wake_up_entries g.res_mapping g.namespace w in
      (r, record g { res_mapping = entries }, w')
