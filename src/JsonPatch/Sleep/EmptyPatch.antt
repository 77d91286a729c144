-- ===== src/JsonPatch/Sleep/EmptyPatch.antt =====
-- A patch with no text, which `Sleep` refuses.
use kube_green.Base.{◌≡◌, String, List, [], ◌∷◌, In, inl, inr, arith}
use kube_green.Base.{Error, err, json_patch, Result-cases}
use kube_green.Api.{PatchTarget}
use kube_green.Cluster.{Platform}
use kube_green.JsonPatch.{GenericResource, ManagedResources}
use kube_green.JsonPatch.Sleep.{sleep_entry, sleep_entries, sleep}

module _ {Object Value Operations Schedule W : Type 0}
    (p : Platform Object Value Operations Schedule W) where
  sleep_entry-empty_patch :
      (entry : PatchTarget × GenericResource Object W) (namespace : String) (w : W)
      → entry.1.patch_data.patch ≡ ""
      → (sleep_entry p entry namespace w).0 ≡ err (json_patch "invalid empty patch")
  unfolding sleep_entry
  sleep_entry-empty_patch (key, g) namespace w h = rw h

  sleep_entries-empty_patch :
      (entries : List (PatchTarget × GenericResource Object W)) (namespace : String) (w : W)
      (entry : PatchTarget × GenericResource Object W)
      → In entry entries
      → entry.1.patch_data.patch ≡ ""
      → (e : Error) × ((sleep_entries p entries namespace w).0 ≡ err e)
  unfolding sleep_entries
  sleep_entries-empty_patch [] namespace w entry m h = elim m [ ]
  sleep_entries-empty_patch (first ∷ rest) namespace w entry m h =
      elim (Result-cases (sleep_entry p first namespace w).0) [
        | inr (e, failed) ↦ (e, rw failed)
        | inl (u, done) ↦ elim m [
          | inl same ↦
              absurd (ground (arith, done, sleep_entry-empty_patch first namespace w (rw same h)))
          | inr later ↦
              let (e, failed) =
                sleep_entries-empty_patch rest namespace (sleep_entry p first namespace w).2 entry
                  later h in
              (e, rw done failed)
        ]
      ]

  -- One patch with no text makes every sleep of the namespace fail, in whatever order the patches are
  -- visited, and whatever else is managed.
  pub sleep-empty_patch :
      (g : ManagedResources Object W) (w : W) (entry : PatchTarget × GenericResource Object W)
      → In entry g.res_mapping
      → entry.1.patch_data.patch ≡ ""
      → (e : Error) × ((sleep p g w).0 ≡ err e)
  unfolding sleep
  sleep-empty_patch g w entry m h = sleep_entries-empty_patch g.res_mapping g.namespace w entry m h
