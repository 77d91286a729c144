-- ===== src/JsonPatch/Restored/AfterSleep.antt =====
-- A wake up of a namespace, after a sleep of it whose restore patches are found again.
use kube_green.Base.{
  false, ◌≡◌, refl, ◌∙◌, ap, String, Option, some, List, [], ◌∷◌, map, All, In, arith,
}
use kube_green.Base.{ok, Distinct, or_else}
use kube_green.Base.Dict.{Dict, lookup}
use kube_green.Libraries.{RestorePatches}
use kube_green.Cluster.{Client, Platform}
use kube_green.Patcher.{Patcher, new}
use kube_green.Api.{PatchTarget}
use kube_green.Resource.{ResourceClient}
use kube_green.JsonPatch.{GenericResource, ManagedResources}
use kube_green.JsonPatch.Sleep.{sleep}
use kube_green.JsonPatch.Sleep.Recorded.{restore_patch_of}
use kube_green.JsonPatch.Sleep.Namespace.{JustListed, sleep-HoldsPatches}
use kube_green.JsonPatch.Resources.{restore_patches_for, new_resources}
use kube_green.JsonPatch.Resources.Entries.{new_resources-All}
use kube_green.JsonPatch.WakeUp.{wake_up}
use kube_green.JsonPatch.RoundTrip.{ReadsContent}
use kube_green.JsonPatch.Server.{StoresObjects, IsBack}
use kube_green.JsonPatch.Restored.{Slept, Slept-Restorable}
use kube_green.JsonPatch.Restored.Namespace.{Round, befores, Awakable, wake_up_entries-Restores}

module _ {Object Value Operations Schedule W Content Ident : Type 0}
    (p : Platform Object Value Operations Schedule W) (ident : Object → Ident)
    (content : Object → Content) (shown : String → Content) (holds : Ident → W → Option Content)
    (g : ManagedResources Object W) where
  open p use {objects, json}

  -- What the wake up lists for a target are resources that the sleep has seen under it, with the same
  -- patch: each is as the sleep has left it.
  pub record SleptRound (t : W) (round : Round Object W) : Type 0 where
    pub before : GenericResource Object W
    pub patcher : Patcher Operations
    pub seen : In (round.0.1.patch_data.target, before) g.res_mapping
    pub same_patch : round.0.1.patch_data.patch ≡ before.patch_data.patch
    pub decoded : new json before.patch_data.patch ≡ ok patcher
    pub listed : round.0.1.items ≡ map (λ x. x.1) round.1
    pub slept :
        All
          (Slept p ident content shown holds patcher before.items before.restore_patches t)
          round.1

module _ {Object Value Operations Schedule W Content Ident : Type 0}
    (p : Platform Object Value Operations Schedule W) (client : Client Object W)
    (ident : Object → Ident) (content : Object → Content) (shown : String → Content)
    (holds : Ident → W → Option Content) (res : ResourceClient Object W)
    (found : res.client ≡ some client) (saved : Option (Dict RestorePatches)) where
  open p use {objects, json}

  -- As `NewResources` makes it from the saved patches.
  abbrev FromSaved : GenericResource Object W → Type 0
  FromSaved g =
      (g.client.client ≡ some client)
      × (g.is_cache_invalid ≡ false)
      × (g.restore_patches ≡ restore_patches_for saved g.patch_data.target)

  -- The saved patches answer as those that the resources hold.
  abbrev pub AnswersAs : ManagedResources Object W → Type 0
  AnswersAs g =
      (key : PatchTarget) (after : GenericResource Object W) (name : String)
      → In (key, after) g.res_mapping
      → lookup name (restore_patches_for saved key) ≡ lookup name after.restore_patches

  SleptRound-Awakable :
      (g : ManagedResources Object W) (w t : W) (round : Round Object W)
      → All (JustListed p) g.res_mapping
      → (sleep p g w).0 ≡ ok tt
      → AnswersAs (sleep p g w).1
      → FromSaved round.0.1
      → SleptRound p ident content shown holds g t round
      → Awakable p client ident content shown holds t round
  SleptRound-Awakable g w t ((key, now), pairs) listed done answers (reached, fresh, patches) h =
      let (after, m, (patcher, decoded, kept, recorded)) =
        sleep-HoldsPatches p g w now.patch_data.target h.before listed h.seen done in
      let same : patcher ≡ h.patcher = ground (arith, decoded, h.decoded) in
      record {
        patcher = h.patcher;
        reached = reached;
        fresh = fresh;
        decoded = rw h.same_patch h.decoded;
        listed = h.listed;
        restorable =
            Slept-Restorable p ident content shown holds h.patcher h.before.items
              h.before.restore_patches now.restore_patches t pairs
              (λ o m'.
                ap (lookup (objects.name o)) patches
                ∙ answers now.patch_data.target after (objects.name o) m
                ∙ recorded o m'
                ∙ ap
                    (λ x.
                      or_else (restore_patch_of p x o)
                        (lookup (objects.name o) h.before.restore_patches))
                    same)
              h.slept;
      }

  all_SleptRound-Awakable :
      (g : ManagedResources Object W) (w t : W) (rounds : List (Round Object W))
      → All (JustListed p) g.res_mapping
      → (sleep p g w).0 ≡ ok tt
      → AnswersAs (sleep p g w).1
      → All (λ entry. FromSaved entry.1) (map (λ round. round.0) rounds)
      → All (SleptRound p ident content shown holds g t) rounds
      → All (Awakable p client ident content shown holds t) rounds
  all_SleptRound-Awakable g w t [] listed done answers from h = tt
  all_SleptRound-Awakable g w t (round ∷ rounds) listed done answers (from, froms) (h, hs) = (
    SleptRound-Awakable g w t round listed done answers from h,
    all_SleptRound-Awakable g w t rounds listed done answers froms hs,
  )

  -- A wake up restores what a sleep has changed. Let a `Sleep` of resources that were just listed,
  -- with distinct names under each target, succeed, and let a `WakeUp` of new resources succeed, made
  -- from saved patches that answer as those of the sleep do. If what it lists is as the sleep has left
  -- it and as the cluster holds it, and no two objects are the same one, then the cluster holds what
  -- each object said before the sleep, unless there is no such object any more. The targets may be
  -- visited in any order, and the targets of the two need not be the same.
  pub wake_up-sleep :
      (reads : ReadsContent objects json content shown)
      (store : StoresObjects ident content client holds) (g g' : ManagedResources Object W)
      (namespace : String) (w t : W) (rounds : List (Round Object W))
      → All (JustListed p) g.res_mapping
      → (sleep p g w).0 ≡ ok tt
      → AnswersAs (sleep p g w).1
      → new_resources objects res namespace saved t ≡ ok g'
      → map (λ round. round.0) rounds ≡ g'.res_mapping
      → Distinct ident (befores rounds)
      → All (SleptRound p ident content shown holds g t) rounds
      → (wake_up p g' t).0 ≡ ok tt
      → All (IsBack ident content holds (wake_up p g' t).2) (befores rounds)
  unfolding wake_up
  wake_up-sleep reads store g g' namespace w t rounds listed done answers made same d h woken =
      let from : All (λ entry. FromSaved entry.1) g'.res_mapping =
        new_resources-All objects res FromSaved saved (λ _ _ _. (found, refl, refl)) namespace t g'
          made in
      rw (← same)
        (wake_up_entries-Restores p client ident content shown holds reads store rounds g'.namespace
          t d (all_SleptRound-Awakable g w t rounds listed done answers (rw same from) h)
          (rw (← same) at woken)).0
