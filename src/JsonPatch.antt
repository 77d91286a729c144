-- ===== src/JsonPatch.antt =====
-- internal/controller/sleepinfo/jsonpatch: resources that are put to sleep and woken up by patches.
pub mod Selectors
pub mod Listing
pub mod Refresh
pub mod Saved
pub mod Sleep
pub mod WakeUp
pub mod Resources
pub mod RoundTrip
pub mod Unchanged
pub mod Keeps
pub mod Server
pub mod Restored
use kube_green.Base.{Bool, true, String, List, ◌∷◌, Result, ok, err, annotate, json_patch}
use kube_green.Base.Exec.{Exec, modify}
use kube_green.Libraries.{RestorePatches}
use kube_green.Api.{Patch, PatchTarget}
use kube_green.Resource.{ResourceClient}

-- `genericResource`
pub record GenericResource (Object W : Type 0) : Type 0 where
  pub client : ResourceClient Object W
  pub patch_data : Patch
  pub restore_patches : RestorePatches
  pub items : List Object
  pub is_cache_invalid : Bool

-- `managedResources`. The map is the list of its entries, in the order in which a range visits
-- them; what is stated of a loop over the map holds for every list, and so for every order.
pub record ManagedResources (Object W : Type 0) : Type 0 where
  pub res_mapping : List (PatchTarget × GenericResource Object W)
  pub namespace : String

-- What the loop over the resources of one patch changes.
pub record Progress (W : Type 0) : Type 0 where
  pub world : W
  pub restore_patches : RestorePatches
  pub is_cache_invalid : Bool

-- A call on the cluster, within that loop.
abbrev pub on_world : {A W : Type 0} → Exec W A → Exec (Progress W) A
on_world m s = let (r, w) = m s.world in (r, record s { world = w })

-- A failure inside the package, `fmt.Errorf("%w: %s", ErrJSONPatch, err)`.
abbrev pub as_json_patch : {A : Type 0} → Result A → Result A
as_json_patch r = annotate json_patch r

-- The same for a call on the cluster.
abbrev pub json_patch_call : {A W : Type 0} → Exec W A → Exec W A
json_patch_call m w = let (r, w') = m w in (as_json_patch r, w')

abbrev pub mark_cache_invalid : {W : Type 0} → Exec (Progress W) (Unit {0})
mark_cache_invalid = modify (λ s. record s { is_cache_invalid = true })

-- What is left of a resource when its loop is over.
abbrev pub loop_start : {Object W : Type 0} → GenericResource Object W → W → Progress W
loop_start g w = record {
  world = w;
  restore_patches = g.restore_patches;
  is_cache_invalid = g.is_cache_invalid;
}

abbrev pub loop_end :
    {Object W : Type 0} → GenericResource Object W → Progress W → GenericResource Object W
loop_end g s = record g {
  restore_patches = s.restore_patches;
  is_cache_invalid = s.is_cache_invalid;
}

-- The rest of a loop over the entries of the map: an error ends it.
abbrev pub after_entry :
    {Entry W : Type 0}
    → Result (Unit {0}) × Entry × W
    → List Entry
    → (W → Result (Unit {0}) × List Entry × W)
    → Result (Unit {0}) × List Entry × W
after_entry (err e, entry, w) rest next = (err e, entry ∷ rest, w)
after_entry (ok u, entry, w) rest next = let (r, entries, w') = next w in (r, entry ∷ entries, w')
