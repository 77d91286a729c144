-- ===== src/JsonPatch/Sleep.antt =====
-- jsonpatch.go: `Sleep` and `buildSparseApplyObject`.
pub mod Recorded
pub mod EmptyPatch
pub mod Namespace
use kube_green.Base.{String, ◌==◌, Option, none, some, List, [], ◌∷◌, if◌then◌else◌}
use kube_green.Base.{Error, json_patch, Result, ok, err, message}
use kube_green.Base.Dict.{Dict, insert}
use kube_green.Base.Exec.{Exec, pure, lift, modify, ◌>>=◌, ◌>>◌}
use kube_green.Api.{PatchTarget}
use kube_green.Cluster.{Objects, Platform}
use kube_green.Patcher.{Patcher, new, exec}
use kube_green.Resource.{ResourceClient, ssa_patch}
use kube_green.JsonPatch.{
  GenericResource, ManagedResources, Progress, on_world, as_json_patch, json_patch_call,
  mark_cache_invalid, loop_start, loop_end, after_entry,
}
use kube_green.JsonPatch.Refresh.{refresh}

module _ {Object Value : Type 0} (objects : Objects Object Value) where
  -- The loop of `buildSparseApplyObject`.
  unfoldable pub set_fields : Object → Dict Value → Result Object
  set_fields sparse [] = ok sparse
  set_fields sparse ((key, value) ∷ rest) = elim (objects.set_nested_field sparse value key) [
    | ok sparse' ↦ set_fields sparse' rest
    | err e ↦ err e
  ]

  unfoldable pub build_sparse_apply_object : Object → String → Result Object
  unfolding set_fields
  build_sparse_apply_object resource merge_patch = elim (objects.unmarshal_fields merge_patch) [
    | err e ↦ err e
    | ok patch_map ↦ elim (set_fields objects.empty_object patch_map) [
      | err e ↦ err e
      | ok sparse ↦ ok (
          objects.set_namespace (objects.namespace resource) (
            objects.set_name (objects.name resource)
              (objects.set_group_version_kind (objects.group_version_kind resource) sparse)))
    ]
  ]

module _ {Object Value Operations Schedule W : Type 0}
    (p : Platform Object Value Operations Schedule W) where
  open p use {objects, json}

  abbrev pub record_restore_patch : String → String → Exec (Progress W) (Unit {0})
  record_restore_patch name patch =
      modify (λ s. record s { restore_patches = insert name patch s.restore_patches })

  -- From the restore patch on: record it, and apply the changed fields.
  unfoldable pub apply_sleep :
      ResourceClient Object W → Object → String → String → String → Exec (Progress W) (Unit {0})
  apply_sleep res resource original modified restore_patch =
      if restore_patch == "{}" then pure tt else (do
        record_restore_patch (objects.name resource) restore_patch
        forward_patch ← lift (as_json_patch (json.create_merge_patch original modified))
        sparse_obj ← lift (as_json_patch (build_sparse_apply_object objects resource forward_patch))
        on_world (json_patch_call (ssa_patch objects res sparse_obj))
        mark_cache_invalid)

  -- The rest of the round, when the patch has been tried; `continue` if it does not apply.
  unfoldable pub patch_resource :
      ResourceClient Object W → Object → String → Result String → Exec (Progress W) (Unit {0})
  patch_resource res resource original (err e) = pure tt
  patch_resource res resource original (ok modified) = do
    restore_patch ← lift (as_json_patch (json.create_merge_patch modified original))
    apply_sleep res resource original modified restore_patch

  -- One round of the inner loop of `Sleep`.
  unfoldable pub sleep_resource :
      ResourceClient Object W → Patcher Operations → Object → Exec (Progress W) (Unit {0})
  sleep_resource res patcher resource = if objects.has_controller resource then pure tt else (do
    original ← lift (as_json_patch (objects.marshal resource))
    patch_resource res resource original (exec json patcher original))

  unfoldable pub sleep_resources :
      ResourceClient Object W → Patcher Operations → List Object → Exec (Progress W) (Unit {0})
  sleep_resources res patcher [] = pure tt
  sleep_resources res patcher (resource ∷ rest) =
      sleep_resource res patcher resource >> sleep_resources res patcher rest

  abbrev pub Entry : Type 0
  Entry = PatchTarget × GenericResource Object W

  -- The inner loop, and the resource after it.
  abbrev pub sleep_items : Entry → Patcher Operations → W → Result (Unit {0}) × Entry × W
  sleep_items (key, g) patcher w =
      let (r, s) = sleep_resources g.client patcher g.items (loop_start g w) in
      (r, (key, loop_end g s), s.world)

  abbrev pub sleep_refreshed :
      PatchTarget
      → GenericResource Object W × Option Error
      → Patcher Operations
      → W
      → Result (Unit {0}) × Entry × W
  sleep_refreshed key (g, some e) patcher w = (err e, (key, g), w)
  sleep_refreshed key (g, none) patcher w = sleep_items (key, g) patcher w

  abbrev pub sleep_patcher :
      Entry → String → Result (Patcher Operations) → W → Result (Unit {0}) × Entry × W
  sleep_patcher (key, g) namespace (err e) w = (err (json_patch (message e)), (key, g), w)
  sleep_patcher (key, g) namespace (ok patcher) w =
      sleep_refreshed key (refresh objects g namespace w) patcher w

  -- One round of the outer loop of `Sleep`.
  unfoldable pub sleep_entry : Entry → String → W → Result (Unit {0}) × Entry × W
  sleep_entry (key, g) namespace w =
      if g.patch_data.patch == ""
      then (err (json_patch "invalid empty patch"), (key, g), w)
      else sleep_patcher (key, g) namespace (new json g.patch_data.patch) w

  unfoldable pub sleep_entries : List Entry → String → W → Result (Unit {0}) × List Entry × W
  sleep_entries [] namespace w = (ok tt, [], w)
  sleep_entries (entry ∷ rest) namespace w =
      after_entry (sleep_entry entry namespace w) rest (sleep_entries rest namespace)

  -- `Sleep`: its error, the resources after it and the cluster after it.
  unfoldable pub sleep :
      ManagedResources Object W → W → Result (Unit {0}) × ManagedResources Object W × W
  sleep g w =
      let (r, entries, w') = sleep_entries g.res_mapping g.namespace w in
      (r, record g { res_mapping = entries }, w')
