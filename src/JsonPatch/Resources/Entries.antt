-- ===== src/JsonPatch/Resources/Entries.antt =====
-- What every entry of `NewResources` satisfies.
use kube_green.Base.{
  ◌≡◌, String, List, [], ◌∷◌, Option, none, some, arith, All, Option-cases, inl, inr, Bool-cases,
}
use kube_green.Base.{ok, Error}
use kube_green.Base.Dict.{Dict}
use kube_green.Libraries.{RestorePatches}
use kube_green.Api.{Patch, PatchTarget}
use kube_green.Api.Patches.{get_patches}
use kube_green.Cluster.{Objects}
use kube_green.Resource.{ResourceClient}
use kube_green.JsonPatch.{GenericResource, ManagedResources}
use kube_green.JsonPatch.Listing.{get_list_by_namespace}
use kube_green.JsonPatch.Resources.{
  same_target, set_entry, restore_patches_for, new_generic_resource, add_listed, add_patches,
  new_resources,
}

module _ {Object Value W : Type 0} (objects : Objects Object Value) (res : ResourceClient Object W)
    (P : GenericResource Object W → Type 0) (saved : Option (Dict RestorePatches))
    (listed : (patch_data : Patch) (item : Object) (items : List Object)
      → P (
          new_generic_resource objects res patch_data
            (restore_patches_for saved patch_data.target)
            (item ∷ items))) where
  abbrev AllEntries : List (PatchTarget × GenericResource Object W) → Type 0
  AllEntries = All (λ entry. P entry.1)

  set_entry-All :
      (key : PatchTarget) (g : GenericResource Object W)
      (mapping : List (PatchTarget × GenericResource Object W))
      → P g
      → AllEntries mapping
      → AllEntries (set_entry key g mapping)
  unfolding set_entry
  set_entry-All key g [] h all = (h, tt)
  set_entry-All key g ((k, old) ∷ rest) h (first, more) = elim (Bool-cases (same_target k key)) [
    | inl e ↦ rw e (h, more)
    | inr e ↦ rw e (first, set_entry-All key g rest h more)
  ]

  add_listed-All :
      (patch_data : Patch) (listing : List Object × Option Error)
      (mapping : List (PatchTarget × GenericResource Object W))
      → AllEntries mapping
      → AllEntries (
          add_listed objects res patch_data
            (restore_patches_for saved patch_data.target)
            listing
            mapping)
  unfolding add_listed
  add_listed-All patch_data (items, some e) mapping all = all
  add_listed-All patch_data ([], none) mapping all = all
  add_listed-All patch_data (item ∷ items, none) mapping all =
      set_entry-All patch_data.target _ mapping (listed patch_data item items) all

  add_patches-All :
      (namespace : String) (patches : List Patch) (w : W)
      (mapping : List (PatchTarget × GenericResource Object W))
      → AllEntries mapping
      → AllEntries (add_patches objects res namespace saved patches w mapping)
  unfolding add_patches
  add_patches-All namespace [] w mapping all = all
  add_patches-All namespace (patch_data ∷ rest) w mapping all = add_patches-All namespace rest w _ (
      add_listed-All patch_data (get_list_by_namespace objects res namespace patch_data.target w)
        mapping all)

  -- What holds of every resource that is made from a list with an item holds of every entry.
  pub new_resources-All :
      (namespace : String) (w : W) (g : ManagedResources Object W)
      → new_resources objects res namespace saved w ≡ ok g
      → AllEntries g.res_mapping
  unfolding new_resources
  new_resources-All namespace w g h = elim (Option-cases res.sleep_info) [
    | inl absent ↦ absurd (ground arith)
    | inr (s, found) ↦
        let made : add_patches objects res namespace saved (get_patches s) w [] ≡ g.res_mapping =
          ground arith in
        rw (← made) (add_patches-All namespace (get_patches s) w [] tt)
  ]
