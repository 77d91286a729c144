-- ===== src/JsonPatch/Resources/Mapping.antt =====
-- Which resources `NewResources` manages.
use kube_green.Base.{true, ◌≡◌, refl, ◌∙◌, String, List, [], ◌∷◌, Option, none, some, arith}
use kube_green.Base.{ok, Error, if◌then◌else◌, or_else, any, non_empty, All, eq_iff}
use kube_green.Base.Dict.{Dict}
use kube_green.Libraries.{RestorePatches}
use kube_green.Api.{Patch, PatchTarget, SleepInfo}
use kube_green.Api.Patches.{get_patches}
use kube_green.Cluster.{Objects}
use kube_green.Resource.{ResourceClient}
use kube_green.JsonPatch.{GenericResource, ManagedResources}
use kube_green.JsonPatch.Listing.{get_list_by_namespace}
use kube_green.JsonPatch.Resources.Entries.{new_resources-All}
use kube_green.JsonPatch.Resources.{
  same_target, set_entry, restore_patches_for, new_generic_resource, add_listed, add_patches,
  new_resources, has_resource,
}

-- The entry of a target.
abbrev pub entry_of : {V : Type 0} → PatchTarget → List (PatchTarget × V) → Option V
entry_of target [] = none
entry_of target ((key, v) ∷ rest) = if same_target key target then some v else entry_of target rest

entry_of-set_entry :
    {V : Type 0} (key target : PatchTarget) (v : V) (mapping : List (PatchTarget × V))
    → entry_of target (set_entry key v mapping)
      ≡ (if same_target key target then some v else entry_of target mapping)
unfolding set_entry
entry_of-set_entry key target v [] = refl
entry_of-set_entry key target v ((k, old) ∷ rest) = ground (
  arith,
  entry_of-set_entry key target v rest,
  eq_iff k.group key.group,
  eq_iff k.kind key.kind,
  eq_iff k.group target.group,
  eq_iff k.kind target.kind,
  eq_iff key.group target.group,
  eq_iff key.kind target.kind,
)

module _ {Object Value W : Type 0} (objects : Objects Object Value) where
  -- The resource that a patch gives: none if its listing fails or is empty.
  abbrev pub resource_of :
      ResourceClient Object W
      → Patch
      → RestorePatches
      → List Object × Option Error
      → Option (GenericResource Object W)
  resource_of res patch_data patches (items, some e) = none
  resource_of res patch_data patches ([], none) = none
  resource_of res patch_data patches (item ∷ items, none) =
      some (new_generic_resource objects res patch_data patches (item ∷ items))

  -- The last patch of a target that gives a resource.
  abbrev pub last_resource :
      ResourceClient Object W
      → String
      → Option (Dict RestorePatches)
      → W
      → PatchTarget
      → List Patch
      → Option (GenericResource Object W)
  last_resource res namespace saved w target [] = none
  last_resource res namespace saved w target (patch_data ∷ rest) =
      or_else (last_resource res namespace saved w target rest) (
        if same_target patch_data.target target
        then resource_of res patch_data (restore_patches_for saved patch_data.target)
            (get_list_by_namespace objects res namespace patch_data.target w)
        else none)

  entry_of-add_listed :
      (res : ResourceClient Object W) (patch_data : Patch) (patches : RestorePatches)
      (listing : List Object × Option Error) (target : PatchTarget)
      (mapping : List (PatchTarget × GenericResource Object W))
      → entry_of target (add_listed objects res patch_data patches listing mapping)
        ≡ or_else
            (if same_target patch_data.target target
              then resource_of res patch_data patches listing
              else none)
            (entry_of target mapping)
  unfolding add_listed
  entry_of-add_listed res patch_data patches (items, some e) target mapping = ground arith
  entry_of-add_listed res patch_data patches ([], none) target mapping = ground arith
  entry_of-add_listed res patch_data patches (item ∷ items, none) target mapping =
      rw entry_of-set_entry (ground arith)

  entry_of-add_patches :
      (res : ResourceClient Object W) (namespace : String) (saved : Option (Dict RestorePatches))
      (patches : List Patch) (w : W) (target : PatchTarget)
      (mapping : List (PatchTarget × GenericResource Object W))
      → entry_of target (add_patches objects res namespace saved patches w mapping)
        ≡ or_else (last_resource res namespace saved w target patches) (entry_of target mapping)
  unfolding add_patches
  entry_of-add_patches res namespace saved [] w target mapping = refl
  entry_of-add_patches res namespace saved (patch_data ∷ rest) w target mapping =
      entry_of-add_patches res namespace saved rest w target _
      ∙ rw entry_of-add_listed (ground arith)

  -- For each target the last patch of the SleepInfo that finds resources is the one that is applied,
  -- so a configured patch takes the place of the default one; a target with no such patch is not
  -- managed.
  pub entry_of-new_resources :
      (res : ResourceClient Object W) (s : SleepInfo) (namespace : String)
      (saved : Option (Dict RestorePatches)) (w : W) (g : ManagedResources Object W)
      (target : PatchTarget)
      → res.sleep_info ≡ some s
      → new_resources objects res namespace saved w ≡ ok g
      → entry_of target g.res_mapping ≡ last_resource res namespace saved w target (get_patches s)
  unfolding new_resources
  entry_of-new_resources res s namespace saved w g target found h =
      ground (arith, h, entry_of-add_patches res namespace saved (get_patches s) w target [])

  -- Every managed resource has an item.
  abbrev AllListed : List (PatchTarget × GenericResource Object W) → Type 0
  AllListed = All (λ entry. non_empty entry.1.items ≡ true)

  any-AllListed :
      (mapping : List (PatchTarget × GenericResource Object W))
      → AllListed mapping
      → any (λ entry. non_empty entry.1.items) mapping ≡ non_empty mapping
  any-AllListed [] all = refl
  any-AllListed (entry ∷ rest) (h, all) = rw h

  -- There is something to handle exactly when some target is managed.
  pub has_resource-new_resources :
      (res : ResourceClient Object W) (namespace : String) (saved : Option (Dict RestorePatches))
      (w : W) (g : ManagedResources Object W)
      → new_resources objects res namespace saved w ≡ ok g
      → has_resource g ≡ non_empty g.res_mapping
  unfolding has_resource
  has_resource-new_resources res namespace saved w g h = any-AllListed g.res_mapping (
      new_resources-All objects res (λ g. non_empty g.items ≡ true) saved (λ _ _ _. refl) namespace
        w g h)
