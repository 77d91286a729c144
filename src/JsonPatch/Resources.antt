-- ===== src/JsonPatch/Resources.antt =====
-- jsonpatch.go: `NewResources` and `HasResource`.
pub mod Entries
pub mod Mapping
use kube_green.Base.{Bool, false, ◌&&◌, ◌==◌, String, Option, none, some, List, [], ◌∷◌}
use kube_green.Base.{Error, json_patch, Result, ok, err, any, non_empty, if◌then◌else◌}
use kube_green.Base.Dict.{Dict, lookup}
use kube_green.Libraries.{RestorePatches}
use kube_green.Api.{Patch, PatchTarget, target_string}
use kube_green.Api.Patches.{get_patches}
use kube_green.Cluster.{Objects}
use kube_green.Resource.{ResourceClient}
use kube_green.JsonPatch.{GenericResource, ManagedResources}
use kube_green.JsonPatch.Listing.{get_list_by_namespace}

-- `==` on the struct
abbrev pub same_target : PatchTarget → PatchTarget → Bool
same_target a b = a.group == b.group && a.kind == b.kind

-- `resMapping[target] = generic`
unfoldable pub set_entry :
    {V : Type 0} → PatchTarget → V → List (PatchTarget × V) → List (PatchTarget × V)
set_entry target v [] = (target, v) ∷ []
set_entry target v ((key, old) ∷ rest) =
    if same_target key target then (key, v) ∷ rest else (key, old) ∷ set_entry target v rest

-- The patches of a target; a missing entry, and a nil map, give none.
unfoldable pub restore_patches_for : Option (Dict RestorePatches) → PatchTarget → RestorePatches
restore_patches_for none target = []
restore_patches_for (some saved) target = elim (lookup (target_string target) saved) [
  | none ↦ []
  | some patches ↦ patches
]

module _ {Object Value W : Type 0} (objects : Objects Object Value) where
  abbrev pub new_generic_resource :
      ResourceClient Object W → Patch → RestorePatches → List Object → GenericResource Object W
  new_generic_resource res patch_data restore_patches items = record {
    client = res;
    patch_data = patch_data;
    restore_patches = restore_patches;
    items = items;
    is_cache_invalid = false;
  }

  -- What a listing adds: nothing, if it fails or is empty.
  unfoldable pub add_listed :
      ResourceClient Object W
      → Patch
      → RestorePatches
      → List Object × Option Error
      → List (PatchTarget × GenericResource Object W)
      → List (PatchTarget × GenericResource Object W)
  unfolding set_entry
  add_listed res patch_data restore_patches (items, some e) mapping = mapping
  add_listed res patch_data restore_patches ([], none) mapping = mapping
  add_listed res patch_data restore_patches (item ∷ items, none) mapping =
      set_entry patch_data.target
        (new_generic_resource res patch_data restore_patches (item ∷ items)) mapping

  -- The loop over `GetPatches`.
  unfoldable pub add_patches :
      ResourceClient Object W
      → String
      → Option (Dict RestorePatches)
      → List Patch
      → W
      → List (PatchTarget × GenericResource Object W)
      → List (PatchTarget × GenericResource Object W)
  unfolding add_listed restore_patches_for
  add_patches res namespace saved [] w mapping = mapping
  add_patches res namespace saved (patch_data ∷ rest) w mapping =
      add_patches res namespace saved rest w (
        add_listed res patch_data (restore_patches_for saved patch_data.target)
          (get_list_by_namespace objects res namespace patch_data.target w) mapping)

  unfoldable pub new_resources :
      ResourceClient Object W
      → String
      → Option (Dict RestorePatches)
      → W
      → Result (ManagedResources Object W)
  unfolding add_patches
  new_resources res namespace saved w = elim res.sleep_info [
    | none ↦ err (json_patch "sleepInfo is not provided")
    | some sleep_info ↦ ok (record {
      res_mapping = add_patches res namespace saved (get_patches sleep_info) w [];
      namespace = namespace;
    })
  ]

unfoldable pub has_resource : {Object W : Type 0} → ManagedResources Object W → Bool
has_resource g = any (λ entry. non_empty entry.1.items) g.res_mapping
