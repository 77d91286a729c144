-- ===== src/JsonPatch/Sleep/Namespace.antt =====
-- What a `Sleep` of all the managed resources records.
use kube_green.Base.{
  false, ◌≡◌, refl, ◌∙◌, ap, String, ◌==◌, List, [], ◌∷◌, arith, In, inl, inr, All, or_else, subst,
  map,
}
use kube_green.Base.{ok, Result-cases, Bool-cases}
use kube_green.Base.Dict.{lookup}
use kube_green.Api.{PatchTarget}
use kube_green.Cluster.{Platform}
use kube_green.Patcher.{Patcher, new}
use kube_green.JsonPatch.{GenericResource, ManagedResources, loop_start, loop_end}
use kube_green.JsonPatch.Refresh.{refresh}
use kube_green.JsonPatch.Sleep.{sleep_resources, sleep_entry, sleep_entries, sleep}
use kube_green.JsonPatch.Sleep.Recorded.{restore_patch_of, DistinctNames, lookup-sleep_resources}

module _ {Object Value Operations Schedule W : Type 0}
    (p : Platform Object Value Operations Schedule W) where
  open p use {objects, json}

  -- The entry after a sleep holds the restore patches of its items.
  abbrev pub HoldsPatches : GenericResource Object W → GenericResource Object W → Type 0
  HoldsPatches before after =
      (patcher : Patcher Operations) × (new json before.patch_data.patch ≡ ok patcher)
      × (after.patch_data ≡ before.patch_data)
      × ((o : Object)
          → In o before.items
          → lookup (objects.name o) after.restore_patches
            ≡ or_else (restore_patch_of p patcher o)
                (lookup (objects.name o) before.restore_patches))

  -- A round with a fresh list that succeeds is the loop over the list.
  sleep_entry_fresh :
      (key : PatchTarget) (g : GenericResource Object W) (namespace : String) (w : W)
      → g.is_cache_invalid ≡ false
      → (sleep_entry p (key, g) namespace w).0 ≡ ok tt
      → (patcher : Patcher Operations) × (new json g.patch_data.patch ≡ ok patcher)
        × ((sleep_resources p g.client patcher g.items (loop_start g w)).0 ≡ ok tt)
        × ((sleep_entry p (key, g) namespace w).1
            ≡ (key, loop_end g (sleep_resources p g.client patcher g.items (loop_start g w)).1))
  unfolding sleep_entry refresh
  sleep_entry_fresh key g namespace w fresh h = elim (Bool-cases (g.patch_data.patch == "")) [
    | inl e ↦ absurd (ground arith)
    | inr e ↦ elim (Result-cases (new json g.patch_data.patch)) [
      | inr (m, failed) ↦ absurd (ground arith)
      | inl (patcher, decoded) ↦ (patcher, decoded, ground arith, ground arith)
    ]
  ]

  sleep_entry-HoldsPatches :
      (key : PatchTarget) (g : GenericResource Object W) (namespace : String) (w : W)
      → g.is_cache_invalid ≡ false
      → DistinctNames p g.items
      → (sleep_entry p (key, g) namespace w).0 ≡ ok tt
      → (after : GenericResource Object W) × ((sleep_entry p (key, g) namespace w).1 ≡ (key, after))
        × HoldsPatches g after
  sleep_entry-HoldsPatches key g namespace w fresh d h =
      let (patcher, decoded, done, same) = sleep_entry_fresh key g namespace w fresh h in
      (
        loop_end g (sleep_resources p g.client patcher g.items (loop_start g w)).1,
        same,
        (
          patcher,
          decoded,
          refl,
          λ o m. lookup-sleep_resources p g.client patcher g.items (loop_start g w) o d m done,
        ),
      )

  sleep_entry-key :
      (key : PatchTarget) (g : GenericResource Object W) (namespace : String) (w : W)
      → (sleep_entry p (key, g) namespace w).1.0 ≡ key
  unfolding sleep_entry refresh
  sleep_entry-key key g namespace w = ground arith

  -- The keys of the map are those that it had.
  pub sleep_entries-keys :
      (entries : List (PatchTarget × GenericResource Object W)) (namespace : String) (w : W)
      → map (λ entry. entry.0) entries
        ≡ map (λ entry. entry.0) (sleep_entries p entries namespace w).1
  unfolding sleep_entries
  sleep_entries-keys [] namespace w = refl
  sleep_entries-keys ((key, g) ∷ rest) namespace w = ground (
    arith,
    sleep_entry-key key g namespace w,
    sleep_entries-keys rest namespace (sleep_entry p (key, g) namespace w).2,
  )

  -- Listed just now, with distinct names.
  abbrev pub JustListed : PatchTarget × GenericResource Object W → Type 0
  JustListed (key, g) = (g.is_cache_invalid ≡ false) × DistinctNames p g.items

  sleep_entries-HoldsPatches :
      (entries : List (PatchTarget × GenericResource Object W)) (namespace : String) (w : W)
      (key : PatchTarget) (g : GenericResource Object W)
      → All JustListed entries
      → In (key, g) entries
      → (sleep_entries p entries namespace w).0 ≡ ok tt
      → (after : GenericResource Object W) × In (key, after) (sleep_entries p entries namespace w).1
        × HoldsPatches g after
  unfolding sleep_entries
  sleep_entries-HoldsPatches [] namespace w key g listed m h = elim m [ ]
  sleep_entries-HoldsPatches ((k, first) ∷ rest) namespace w key g (listed, more) m h =
      elim (Result-cases (sleep_entry p (k, first) namespace w).0) [
        | inr (e, failed) ↦ absurd (ground arith)
        | inl (u, done) ↦
            let later : (sleep_entries p rest namespace (sleep_entry p (k, first) namespace w).2).0
                ≡ ok tt =
              ground arith in
            elim m [
              | inl same ↦
                  let (after, e, holds) =
                    sleep_entry-HoldsPatches k first namespace w listed.0 listed.1 done in
                  (
                    after,
                    rw done (inl (e ∙ ap (λ x. (x.0, after)) same)),
                    subst (λ x. HoldsPatches x after) (ap (λ x. x.1) same) holds,
                  )
              | inr in_rest ↦
                  let (after, found, holds) =
                    sleep_entries-HoldsPatches rest namespace
                      (sleep_entry p (k, first) namespace w).2 key g more in_rest later in
                  (after, rw done (inr found), holds)
            ]
      ]

  -- A `Sleep` that succeeds has recorded everything that a wake up needs: each managed resource that
  -- was just listed, with distinct names, is still managed under its target and by its patch, and
  -- for each of its items there is the merge patch back, or the entry that was there before where
  -- the sleep has nothing to undo. This holds in whatever order the targets are visited.
  pub sleep-HoldsPatches :
      (g : ManagedResources Object W) (w : W) (key : PatchTarget) (res : GenericResource Object W)
      → All JustListed g.res_mapping
      → In (key, res) g.res_mapping
      → (sleep p g w).0 ≡ ok tt
      → (after : GenericResource Object W) × In (key, after) (sleep p g w).1.res_mapping
        × HoldsPatches res after
  unfolding sleep
  sleep-HoldsPatches g w key res listed m h =
      sleep_entries-HoldsPatches g.res_mapping g.namespace w key res listed m h
