-- ===== src/JsonPatch/Restored.antt =====
-- A wake up after a sleep, on a server that applies patches.
pub mod Namespace
pub mod AfterSleep
use kube_green.Base.{
  ◌≡◌, ◌≢◌, ◌⊎◌, inl, inr, refl, ◌∙◌, ap, sym, String, Option, none, some, List, [], ◌∷◌, map, All,
  subst,
}
use kube_green.Base.{ok, In, Distinct, All-Fresh, All-map, or_else}
use kube_green.Base.Dict.{lookup}
use kube_green.Base.Exec.{seq-ok}
use kube_green.Libraries.{RestorePatches}
use kube_green.Cluster.{Client, Platform}
use kube_green.Patcher.{Patcher}
use kube_green.Resource.{ResourceClient, patch, forgive}
use kube_green.JsonPatch.{Progress}
use kube_green.JsonPatch.Sleep.{sleep_resources}
use kube_green.JsonPatch.Sleep.Recorded.{restore_patch_of, DistinctNames, lookup-sleep_resources}
use kube_green.JsonPatch.WakeUp.{wake_up_resource, wake_up_resources}
use kube_green.JsonPatch.RoundTrip.{
  ReadsContent, SleepsAs, content-SleepsAs, restore_patch_of-SleepsAs, wake_up_resource-SleepsAs,
}
use kube_green.JsonPatch.Server.{
  StoresObjects, IsBack, KeepsOthers, IsBack-KeepsOthers, Restores, forgive-ok, patch-ok, call-ok,
}

module _ {Object Value Operations Schedule W Content Ident : Type 0}
    (p : Platform Object Value Operations Schedule W) (ident : Object → Ident)
    (content : Object → Content) (shown : String → Content) (holds : Ident → W → Option Content)
    (patcher : Patcher Operations) where
  open p use {objects}

  -- A resource before the sleep, and as the wake up finds it: asleep, which is what the cluster holds,
  -- with the patch back, or with no patch, where the cluster holds what it held.
  abbrev pub Restorable : RestorePatches → W → Object × Object → Type 0
  Restorable patches w (o, now) =
      ((h : SleepsAs p ident content shown patcher o now) × (lookup (objects.name o) patches
          ≡ some h.restore_patch)
        × (holds (ident o) w ≡ some (content now)))
      ⊎ ((objects.name now ≡ objects.name o)
          × (lookup (objects.name o) patches ≡ none)
          × (holds (ident o) w ≡ some (content o)))

  -- A resource of the sleep, and as the wake up lists it: put to sleep by the patch, or left alone.
  abbrev pub Slept : List Object → RestorePatches → W → Object × Object → Type 0
  Slept items patches w (o, now) =
      In o items
      × ((SleepsAs p ident content shown patcher o now × (holds (ident o) w ≡ some (content now)))
          ⊎ ((objects.name now ≡ objects.name o)
              × (restore_patch_of p patcher o ≡ none)
              × (lookup (objects.name o) patches ≡ none)
              × (holds (ident o) w ≡ some (content o))))

  -- The patches of a sleep are enough to restore what it has left.
  pub Slept-Restorable :
      (items : List Object) (before after : RestorePatches) (w : W) (pairs : List (Object × Object))
      → ((o : Object)
          → In o items
          → lookup (objects.name o) after
            ≡ or_else (restore_patch_of p patcher o) (lookup (objects.name o) before))
      → All (Slept items before w) pairs
      → All (Restorable after w) pairs
  Slept-Restorable items before after w [] recorded h = tt
  Slept-Restorable items before after w ((o, now) ∷ pairs) recorded ((m, inl (h, held)), hs) = (
    inl (
      h,
      recorded o m ∙ rw (restore_patch_of-SleepsAs p ident content shown patcher o now h) refl,
      held,
    ),
    Slept-Restorable items before after w pairs recorded hs,
  )
  Slept-Restorable items before after w ((o, now) ∷ pairs) recorded
        ((m, inr (same, nothing, absent, held)), hs) =
      (
        inr (same, recorded o m ∙ rw (nothing, absent) refl, held),
        Slept-Restorable items before after w pairs recorded hs,
      )

  pub Restorable-KeepsOthers :
      (Other : Ident → Type 0) (patches patches' : RestorePatches) (w w' : W)
      (pairs : List (Object × Object))
      → patches' ≡ patches
      → KeepsOthers ident content holds Other w w'
      → All (λ x. Other (ident x.0)) pairs
      → All (Restorable patches w) pairs
      → All (Restorable patches' w') pairs
  Restorable-KeepsOthers Other patches patches' w w' [] same keeps others h = tt
  Restorable-KeepsOthers Other patches patches' w w' ((o, now) ∷ pairs) same keeps (other, others)
        (inl (h, stored, held), hs) =
      (
        inl (h, rw same stored, keeps (ident o) other ∙ held),
        Restorable-KeepsOthers Other patches patches' w w' pairs same keeps others hs,
      )
  Restorable-KeepsOthers Other patches patches' w w' ((o, now) ∷ pairs) same keeps (other, others)
        (inr (named, absent, held), hs) =
      (
        inr (named, rw same absent, keeps (ident o) other ∙ held),
        Restorable-KeepsOthers Other patches patches' w w' pairs same keeps others hs,
      )

module _ {Object Value Operations Schedule W Content Ident : Type 0}
    (p : Platform Object Value Operations Schedule W) (client : Client Object W)
    (ident : Object → Ident) (content : Object → Content) (shown : String → Content)
    (holds : Ident → W → Option Content) (reads : ReadsContent p.objects p.json content shown)
    (store : StoresObjects ident content client holds) (res : ResourceClient Object W)
    (found : res.client ≡ some client) (patcher : Patcher Operations) where
  open p use {objects}

  patched-IsBack :
      (o now : Object) (w : W) (h : SleepsAs p ident content shown patcher o now)
      → holds (ident o) w ≡ some (content now)
      → forgive (client.patch h.back now w).0 ≡ ok tt
      → IsBack ident content holds (client.patch h.back now w).1 o
  patched-IsBack o now w h held sent = elim (forgive-ok (client.patch h.back now w).0 sent) [
    | inl done ↦
        let stored =
          store.patched h.back now w (h.back_object ∙ sym h.same_object) (rw h.same_object held)
            done in
        inl (
          rw (← h.same_object, ← content-SleepsAs p ident content shown reads patcher o now h)
            stored)
    | inr (e, failed, missing) ↦
        inr (rw (← h.back_object) (store.missed h.back now w e failed missing))
  ]

  wake_up_resource-IsBack :
      (o now : Object) (s : Progress W)
      → Restorable p ident content shown holds patcher s.restore_patches s.world (o, now)
      → (wake_up_resource p res patcher now s).0 ≡ ok tt
      → ((wake_up_resource p res patcher now s).1.restore_patches ≡ s.restore_patches)
        × IsBack ident content holds (wake_up_resource p res patcher now s).1.world o
        × KeepsOthers ident content holds
            (λ id. id ≢ ident o)
            s.world
            (wake_up_resource p res patcher now s).1.world
  unfolding wake_up_resource
  wake_up_resource-IsBack o now s (inr (same, absent, held)) done =
      rw (same, absent) (refl, inl held, (λ _ _. refl))
  wake_up_resource-IsBack o now s (inl (h, stored, held)) done =
      let call = wake_up_resource-SleepsAs p ident content shown res patcher o now h s stored in
      let (called, left) = call-ok (patch res now h.back) s (rw call at done) in
      let (forgiven, same) = patch-ok res client now h.back s.world found called in
      let world : (wake_up_resource p res patcher now s).1.world
          ≡ (client.patch h.back now s.world).1 =
        ap (λ run. run.1.world) call ∙ ap (λ t. t.world) left ∙ same in
      (
        ap (λ run. run.1.restore_patches) call ∙ ap (λ t. t.restore_patches) left,
        rw world (patched-IsBack o now s.world h held forgiven),
        rw world
            (λ id other. store.others_kept h.back now id s.world (λ e. other (e ∙ h.back_object))),
      )

  pub wake_up_resources-IsBack :
      (pairs : List (Object × Object)) (s : Progress W)
      → Distinct ident (map (λ x. x.0) pairs)
      → All (Restorable p ident content shown holds patcher s.restore_patches s.world) pairs
      → (wake_up_resources p res patcher (map (λ x. x.1) pairs) s).0 ≡ ok tt
      → Restores ident content holds
          (map (λ x. x.0) pairs)
          s.world
          (wake_up_resources p res patcher (map (λ x. x.1) pairs) s).1.world
  unfolding wake_up_resources
  wake_up_resources-IsBack [] s d h done = (tt, (λ _ _. refl))
  wake_up_resources-IsBack ((o, now) ∷ pairs) s (fresh, d) (h, hs) done =
      let (first, whole) =
        seq-ok (wake_up_resource p res patcher now)
          (wake_up_resources p res patcher (map (λ x. x.1) pairs)) s done in
      let t = (wake_up_resource p res patcher now s).1 in
      let (same, back, others) = wake_up_resource-IsBack o now s h first in
      let (backs, rest) =
        wake_up_resources-IsBack pairs t d
          (Restorable-KeepsOthers p ident content shown holds patcher (λ id. id ≢ ident o)
            s.restore_patches t.restore_patches s.world t.world pairs same others
            (All-map (λ x. x.0) (λ x. ident x ≢ ident o) pairs
              (All-Fresh ident (ident o) (map (λ x. x.0) pairs) fresh))
            hs)
          (rw whole at done) in
      subst (λ run. Restores ident content holds (o ∷ map (λ x. x.0) pairs) s.world run.1.world)
        (sym whole)
        (
          (IsBack-KeepsOthers ident content holds _ t.world _ o rest fresh back, backs),
          (λ id other. rest id other.1 ∙ others id (λ e. other.0 (sym e))),
        )
