-- ===== src/JsonPatch/Saved/RoundTrip.antt =====
-- Restore patches, saved and read back.
use kube_green.Base.{
  ◌≡◌, ◌≢◌, refl, ◌∙◌, sym, ap, String, Option, none, some, List, [], ◌∷◌, In, inl, inr, arith,
  eq_iff, ok, Result-cases, true, non_empty, Fresh, Distinct, Fresh-ne,
}
use kube_green.Base.Dict.{Dict, lookup, lookup-insert, lookup-insert_self}
use kube_green.Libraries.{Codec, RestorePatches}
use kube_green.Api.{PatchTarget, target_string}
use kube_green.JsonPatch.{GenericResource, ManagedResources}
use kube_green.JsonPatch.Saved.{
  add_to_save, data_to_save, save_mapping, get_original_info_to_save, get_original_info_to_restore,
}
use kube_green.JsonPatch.Resources.{restore_patches_for}

lookup-add_to_save_ne :
    (saved : Dict RestorePatches) (key : PatchTarget) (patches : RestorePatches) (shown : String)
    → target_string key ≢ shown
    → lookup shown (add_to_save saved key patches) ≡ lookup shown saved
unfolding add_to_save
lookup-add_to_save_ne saved key [] shown h = refl
lookup-add_to_save_ne saved key (entry ∷ patches) shown h = ground (
  arith,
  lookup-insert (target_string key) shown (entry ∷ patches) saved,
  eq_iff (target_string key) shown,
)

restore_patches_for-add_to_save :
    (saved : Dict RestorePatches) (key : PatchTarget) (patches : RestorePatches)
    → lookup (target_string key) saved ≡ none
    → restore_patches_for (some (add_to_save saved key patches)) key ≡ patches
unfolding add_to_save restore_patches_for
restore_patches_for-add_to_save saved key [] h = ground (arith, h)
restore_patches_for-add_to_save saved key (entry ∷ patches) h =
    ground (arith, lookup-insert_self (target_string key) (entry ∷ patches) saved)

restore_patches_for-lookup :
    (saved saved' : Dict RestorePatches) (key : PatchTarget)
    → lookup (target_string key) saved ≡ lookup (target_string key) saved'
    → restore_patches_for (some saved) key ≡ restore_patches_for (some saved') key
unfolding restore_patches_for
restore_patches_for-lookup saved saved' key h = ground (arith, h)

-- The restore patch of a resource, by its printed target and its name.
abbrev pub patch_of : String → String → Dict RestorePatches → Option String
patch_of shown name saved = elim (lookup shown saved) [
  | none ↦ none
  | some patches ↦ lookup name patches
]

-- encoding/json gives back the entries that it has written; their order is not kept.
pub record KeepsPatches (codec : Codec) : Type 0 where
  pub unmarshal-marshal :
      (saved : Dict RestorePatches) (text : String)
      → codec.marshal_patches saved ≡ ok text
      → (restored : Dict RestorePatches) × (codec.unmarshal_patches text ≡ ok restored)
        × ((shown name : String) → patch_of shown name restored ≡ patch_of shown name saved)

lookup-restore_patches_for :
    (saved : Dict RestorePatches) (key : PatchTarget) (name : String)
    → lookup name (restore_patches_for (some saved) key) ≡ patch_of (target_string key) name saved
unfolding restore_patches_for lookup
lookup-restore_patches_for saved key name = ground arith

In-non_empty : {A : Type 0} (a : A) (l : List A) → In a l → non_empty l ≡ true
In-non_empty a [] m = elim m [ ]
In-non_empty a (b ∷ l) m = refl

module _ {Object W : Type 0} where
  abbrev shown_target : PatchTarget × GenericResource Object W → String
  shown_target entry = target_string entry.0

  -- No two entries have targets that print alike.
  abbrev pub DistinctTargets : List (PatchTarget × GenericResource Object W) → Type 0
  DistinctTargets = Distinct shown_target

  lookup-data_to_save-Fresh :
      (saved : Dict RestorePatches) (mapping : List (PatchTarget × GenericResource Object W))
      (shown : String)
      → Fresh shown_target shown mapping
      → lookup shown (data_to_save saved mapping) ≡ lookup shown saved
  unfolding data_to_save
  lookup-data_to_save-Fresh saved [] shown h = refl
  lookup-data_to_save-Fresh saved ((key, g) ∷ rest) shown (h, hs) =
      lookup-data_to_save-Fresh (add_to_save saved key g.restore_patches) rest shown hs
      ∙ lookup-add_to_save_ne saved key g.restore_patches shown h

  restore_patches_for-data_to_save :
      (saved : Dict RestorePatches) (mapping : List (PatchTarget × GenericResource Object W))
      (key : PatchTarget) (g : GenericResource Object W)
      → DistinctTargets mapping
      → In (key, g) mapping
      → lookup (target_string key) saved ≡ none
      → restore_patches_for (some (data_to_save saved mapping)) key ≡ g.restore_patches
  unfolding data_to_save
  restore_patches_for-data_to_save saved [] key g d m h = elim m [ ]
  restore_patches_for-data_to_save saved ((k, first) ∷ rest) key g (fresh, d) (inl e) h =
      restore_patches_for-lookup (data_to_save (add_to_save saved k first.restore_patches) rest)
        (add_to_save saved key first.restore_patches) key
        (rw (← ap (λ x. x.0) e) (
          lookup-data_to_save-Fresh (add_to_save saved k first.restore_patches) rest
            (target_string k) fresh))
      ∙ restore_patches_for-add_to_save saved key first.restore_patches h
      ∙ ap (λ x. x.1.restore_patches) e
  restore_patches_for-data_to_save saved ((k, first) ∷ rest) key g (fresh, d) (inr m) h =
      restore_patches_for-data_to_save (add_to_save saved k first.restore_patches) rest key g d m (
        lookup-add_to_save_ne saved k first.restore_patches (target_string key)
          (λ e. Fresh-ne shown_target (target_string k) (key, g) rest fresh m (sym e))
        ∙ h)

  -- Patches that answer as the saved ones do are those of each resource.
  pub lookup-restored :
      (mapping : List (PatchTarget × GenericResource Object W)) (restored : Dict RestorePatches)
      (key : PatchTarget) (g : GenericResource Object W) (name : String)
      → DistinctTargets mapping
      → In (key, g) mapping
      → ((shown name : String)
          → patch_of shown name restored ≡ patch_of shown name (data_to_save [] mapping))
      → lookup name (restore_patches_for (some restored) key) ≡ lookup name g.restore_patches
  unfolding lookup
  lookup-restored mapping restored key g name d m kept =
      lookup-restore_patches_for restored key name
      ∙ kept (target_string key) name
      ∙ sym (lookup-restore_patches_for (data_to_save [] mapping) key name)
      ∙ ap (lookup name) (restore_patches_for-data_to_save [] mapping key g d m refl)

  pub save_mapping-non_empty :
      (codec : Codec) (mapping : List (PatchTarget × GenericResource Object W))
      (saved : Option String)
      → non_empty mapping ≡ true
      → save_mapping codec mapping ≡ ok saved
      → (text : String) × (saved ≡ some text)
        × (codec.marshal_patches (data_to_save [] mapping) ≡ ok text)
  unfolding save_mapping
  save_mapping-non_empty codec [] saved h k = absurd (ground arith)
  save_mapping-non_empty codec (entry ∷ rest) saved h k =
      elim (Result-cases (codec.marshal_patches (data_to_save [] (entry ∷ rest)))) [
        | inl (text, e) ↦ (text, ground arith, e)
        | inr (m, e) ↦ absurd (ground arith)
      ]

  -- The patches that are saved for a target are those that are restored for it: where the targets of
  -- the managed resources print differently, the saved bytes are read back without an error, and each
  -- resource has the restore patch that was recorded for it, and only that.
  pub get_original_info_to_restore-get_original_info_to_save :
      (codec : Codec) (law : KeepsPatches codec) (g : ManagedResources Object W)
      (saved : Option String) (key : PatchTarget) (res : GenericResource Object W)
      → DistinctTargets g.res_mapping
      → In (key, res) g.res_mapping
      → get_original_info_to_save codec g ≡ ok saved
      → (restored : Option (Dict RestorePatches)) × (get_original_info_to_restore codec saved
          ≡ ok restored)
        × ((name : String)
            → lookup name (restore_patches_for restored key) ≡ lookup name res.restore_patches)
  unfolding get_original_info_to_restore get_original_info_to_save lookup
  get_original_info_to_restore-get_original_info_to_save codec law g saved key res d m h =
      let (text, same, marshalled) =
        save_mapping-non_empty codec g.res_mapping saved (In-non_empty (key, res) g.res_mapping m)
          h in
      let (restored, read, kept) =
        law.unmarshal-marshal (data_to_save [] g.res_mapping) text marshalled in
      (
        some restored,
        rw same (ground (arith, read)),
        λ name. lookup-restored g.res_mapping restored key res name d m kept,
      )
