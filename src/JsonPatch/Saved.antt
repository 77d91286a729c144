-- ===== src/JsonPatch/Saved.antt =====
-- jsonpatch.go: the restore patches as the bytes that the secret keeps.
pub mod RoundTrip
use kube_green.Base.{String, Option, none, some, List, [], ◌∷◌, Result, ok, ◌>>=◌}
use kube_green.Base.Dict.{Dict, insert}
use kube_green.Libraries.{Codec, RestorePatches}
use kube_green.Api.{PatchTarget, target_string}
use kube_green.JsonPatch.{GenericResource, ManagedResources}

unfoldable pub add_to_save :
    Dict RestorePatches → PatchTarget → RestorePatches → Dict RestorePatches
add_to_save saved key [] = saved
add_to_save saved key (entry ∷ patches) = insert (target_string key) (entry ∷ patches) saved

-- The loop that fills `dataToSave`; a resource with no restore patch is left out.
unfoldable pub data_to_save :
    {Object W : Type 0}
    → Dict RestorePatches
    → List (PatchTarget × GenericResource Object W)
    → Dict RestorePatches
unfolding add_to_save
data_to_save saved [] = saved
data_to_save saved ((key, res) ∷ rest) =
    data_to_save (add_to_save saved key res.restore_patches) rest

module _ (codec : Codec) where
  -- Nil bytes are `none`.
  unfoldable pub save_mapping :
      {Object W : Type 0} → List (PatchTarget × GenericResource Object W) → Result (Option String)
  save_mapping [] = ok none
  save_mapping (entry ∷ rest) = do
    saved ← codec.marshal_patches (data_to_save [] (entry ∷ rest))
    ok (some saved)

  unfoldable pub get_original_info_to_save :
      {Object W : Type 0} → ManagedResources Object W → Result (Option String)
  get_original_info_to_save g = save_mapping g.res_mapping

  unfoldable pub get_original_info_to_restore :
      Option String → Result (Option (Dict RestorePatches))
  get_original_info_to_restore none = ok none
  get_original_info_to_restore (some saved) = do
    resource_patches ← codec.unmarshal_patches saved
    ok (some resource_patches)
