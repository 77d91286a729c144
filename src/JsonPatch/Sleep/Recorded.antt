-- ===== src/JsonPatch/Sleep/Recorded.antt =====
-- Which restore patches the inner loop of `Sleep` records.
use kube_green.Base.{
  ◌≡◌, ◌≢◌, refl, ◌∙◌, ap, sym, String, ◌==◌, Option, none, some, List, [], ◌∷◌, arith,
}
use kube_green.Base.{
  Result, ok, err, if◌then◌else◌, eq_iff, inl, inr, or_else, In, Fresh, Distinct, Fresh-ne,
}
use kube_green.Base.Dict.{lookup, insert, lookup-insert, lookup-insert_self}
use kube_green.Base.Exec.{seq-ok}
use kube_green.Libraries.{RestorePatches}
use kube_green.Cluster.{Platform}
use kube_green.Patcher.{Patcher, exec}
use kube_green.Resource.{ResourceClient}
use kube_green.JsonPatch.{Progress}
use kube_green.JsonPatch.Sleep.{apply_sleep, patch_resource, sleep_resource, sleep_resources}

module _ {Object Value Operations Schedule W : Type 0}
    (p : Platform Object Value Operations Schedule W) where
  open p use {objects, json}

  -- The merge patch that leads from the patched document back, unless it is empty.
  abbrev pub merge_back : Result String → Option String
  merge_back (err e) = none
  merge_back (ok restore_patch) = if restore_patch == "{}" then none else some restore_patch

  abbrev pub restore_from : String → Result String → Option String
  restore_from original (err e) = none
  restore_from original (ok modified) = merge_back (json.create_merge_patch modified original)

  abbrev pub restore_marshalled : Patcher Operations → Result String → Option String
  restore_marshalled patcher (err e) = none
  restore_marshalled patcher (ok original) = restore_from original (exec json patcher original)

  -- The restore patch of a resource: none if another controller manages it, if the patch does not
  -- apply to it, or if the patch changes nothing.
  unfoldable pub restore_patch_of : Patcher Operations → Object → Option String
  restore_patch_of patcher resource =
      if objects.has_controller resource
      then none
      else restore_marshalled patcher (objects.marshal resource)

  abbrev pub record_one : String → Option String → RestorePatches → RestorePatches
  record_one name none patches = patches
  record_one name (some restore_patch) patches = insert name restore_patch patches

  unfoldable pub recorded : Patcher Operations → List Object → RestorePatches → RestorePatches
  recorded patcher [] patches = patches
  recorded patcher (resource ∷ rest) patches =
      recorded patcher rest
        (record_one (objects.name resource) (restore_patch_of patcher resource) patches)

  sleep_resource-recorded :
      (res : ResourceClient Object W) (patcher : Patcher Operations) (resource : Object)
      (s : Progress W)
      → (sleep_resource p res patcher resource s).0 ≡ ok tt
      → (sleep_resource p res patcher resource s).1.restore_patches
        ≡ record_one (objects.name resource) (restore_patch_of patcher resource) s.restore_patches
  unfolding sleep_resource patch_resource apply_sleep restore_patch_of
  sleep_resource-recorded res patcher resource s h = ground arith

  sleep_resources-recorded :
      (res : ResourceClient Object W) (patcher : Patcher Operations) (items : List Object)
      (s : Progress W)
      → (sleep_resources p res patcher items s).0 ≡ ok tt
      → (sleep_resources p res patcher items s).1.restore_patches
        ≡ recorded patcher items s.restore_patches
  unfolding sleep_resources recorded
  sleep_resources-recorded res patcher [] s h = refl
  sleep_resources-recorded res patcher (resource ∷ rest) s h =
      let (first, whole) =
        seq-ok (sleep_resource p res patcher resource) (sleep_resources p res patcher rest) s h in
      rw (whole, ← sleep_resource-recorded res patcher resource s first)
        (sleep_resources-recorded res patcher rest _ (rw whole at h))

  abbrev pub DistinctNames : List Object → Type 0
  DistinctNames = Distinct objects.name

  lookup-record_one_ne :
      (name other : String) (found : Option String) (patches : RestorePatches)
      → other ≢ name
      → lookup name (record_one other found patches) ≡ lookup name patches
  lookup-record_one_ne name other none patches h = refl
  lookup-record_one_ne name other (some v) patches h =
      ground (arith, lookup-insert other name v patches, eq_iff other name)

  lookup-recorded-Fresh :
      (patcher : Patcher Operations) (name : String) (items : List Object)
      (patches : RestorePatches)
      → Fresh objects.name name items
      → lookup name (recorded patcher items patches) ≡ lookup name patches
  unfolding recorded
  lookup-recorded-Fresh patcher name [] patches h = refl
  lookup-recorded-Fresh patcher name (item ∷ items) patches (h, hs) =
      lookup-recorded-Fresh patcher name items _ hs
      ∙ lookup-record_one_ne name (objects.name item) (restore_patch_of patcher item) patches h

  lookup-record_one_self :
      (name : String) (found : Option String) (patches : RestorePatches)
      → lookup name (record_one name found patches) ≡ or_else found (lookup name patches)
  lookup-record_one_self name none patches = refl
  lookup-record_one_self name (some v) patches = lookup-insert_self name v patches

  lookup-recorded :
      (patcher : Patcher Operations) (o : Object) (items : List Object) (patches : RestorePatches)
      → DistinctNames items
      → In o items
      → lookup (objects.name o) (recorded patcher items patches)
        ≡ or_else (restore_patch_of patcher o) (lookup (objects.name o) patches)
  unfolding recorded
  lookup-recorded patcher o [] patches _ m = elim m [ ]
  lookup-recorded patcher o (item ∷ items) patches (fresh, d) (inl e) = rw (← e) (
      lookup-recorded-Fresh patcher (objects.name item) items _ fresh
      ∙ lookup-record_one_self (objects.name item) (restore_patch_of patcher item) patches)
  lookup-recorded patcher o (item ∷ items) patches (fresh, d) (inr m) =
      lookup-recorded patcher o items _ d m
      ∙ ap (or_else (restore_patch_of patcher o)) (
          lookup-record_one_ne (objects.name o) (objects.name item) (restore_patch_of patcher item)
            patches (λ e. Fresh-ne objects.name (objects.name item) o items fresh m (sym e)))

  -- When the loop over resources of distinct names succeeds, the restore patch of each is the merge
  -- patch from its patched document back to its own. A resource that another controller manages, or
  -- that the patch does not apply to or does not change, keeps the entry that it had.
  pub lookup-sleep_resources :
      (res : ResourceClient Object W) (patcher : Patcher Operations) (items : List Object)
      (s : Progress W) (o : Object)
      → DistinctNames items
      → In o items
      → (sleep_resources p res patcher items s).0 ≡ ok tt
      → lookup (objects.name o) (sleep_resources p res patcher items s).1.restore_patches
        ≡ or_else (restore_patch_of patcher o) (lookup (objects.name o) s.restore_patches)
  lookup-sleep_resources res patcher items s o d m h =
      rw (sleep_resources-recorded res patcher items s h)
        (lookup-recorded patcher o items s.restore_patches d m)

  -- Resources of other names keep their entries.
  pub lookup-sleep_resources-Fresh :
      (res : ResourceClient Object W) (patcher : Patcher Operations) (items : List Object)
      (s : Progress W) (name : String)
      → Fresh objects.name name items
      → (sleep_resources p res patcher items s).0 ≡ ok tt
      → lookup name (sleep_resources p res patcher items s).1.restore_patches
        ≡ lookup name s.restore_patches
  lookup-sleep_resources-Fresh res patcher items s name fresh h =
      rw (sleep_resources-recorded res patcher items s h)
        (lookup-recorded-Fresh patcher name items s.restore_patches fresh)
