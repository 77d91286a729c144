-- ===== src/JsonPatch/Restored/Namespace.antt =====
-- A wake up of all the managed resources, after a sleep of all of them.
use kube_green.Base.{
  false, ◌≡◌, refl, ◌∙◌, sym, String, Option, some, List, [], ◌∷◌, ◌++◌, map, All, arith,
}
use kube_green.Base.{ok, Distinct, Distinct-append, Result-cases, append-All, All-map, inl, inr}
use kube_green.Cluster.{Client, Platform}
use kube_green.Patcher.{Patcher, new}
use kube_green.Api.{PatchTarget}
use kube_green.JsonPatch.{GenericResource, loop_start}
use kube_green.JsonPatch.Refresh.{refresh}
use kube_green.JsonPatch.WakeUp.{wake_up_resources, wake_up_entry, wake_up_entries}
use kube_green.JsonPatch.RoundTrip.{ReadsContent}
use kube_green.JsonPatch.Server.{StoresObjects, KeepsOthers, Restores, Restores-append}
use kube_green.JsonPatch.Restored.{Restorable, Restorable-KeepsOthers, wake_up_resources-IsBack}

-- The resources of a target, and each of their objects as it was before the sleep and as the wake up
-- finds it.
abbrev pub Round : Type 0 → Type 0 → Type 0
Round Object W = (PatchTarget × GenericResource Object W) × List (Object × Object)

abbrev pub befores : {Object W : Type 0} → List (Round Object W) → List Object
befores [] = []
befores (round ∷ rounds) = map (λ x. x.0) round.1 ++ befores rounds

module _ {Object Value Operations Schedule W Content Ident : Type 0}
    (p : Platform Object Value Operations Schedule W) (client : Client Object W)
    (ident : Object → Ident) (content : Object → Content) (shown : String → Content)
    (holds : Ident → W → Option Content) where
  open p use {objects, json}

  -- Everything that a wake up needs for a round, in a state of the cluster.
  pub record Awakable (w : W) (round : Round Object W) : Type 0 where
    pub patcher : Patcher Operations
    pub reached : round.0.1.client.client ≡ some client
    pub fresh : round.0.1.is_cache_invalid ≡ false
    pub decoded : new json round.0.1.patch_data.patch ≡ ok patcher
    pub listed : round.0.1.items ≡ map (λ x. x.1) round.1
    pub restorable :
        All (Restorable p ident content shown holds patcher round.0.1.restore_patches w) round.1

  module _ (reads : ReadsContent objects json content shown)
      (store : StoresObjects ident content client holds) where
    wake_up_entry-Restores :
        (round : Round Object W) (namespace : String) (w : W)
        → Awakable w round
        → Distinct ident (map (λ x. x.0) round.1)
        → (wake_up_entry p round.0 namespace w).0 ≡ ok tt
        → Restores ident content holds
            (map (λ x. x.0) round.1)
            w
            (wake_up_entry p round.0 namespace w).2
    unfolding wake_up_entry refresh
    wake_up_entry-Restores ((key, g), pairs) namespace w a d h =
        let run : (wake_up_entry p (key, g) namespace w).0
            ≡ (wake_up_resources p g.client a.patcher (map (λ x. x.1) pairs) (loop_start g w)).0 =
          ground (arith, a.fresh, a.decoded, a.listed) in
        let left : (wake_up_entry p (key, g) namespace w).2
            ≡ (wake_up_resources p g.client a.patcher (map (λ x. x.1) pairs)
                (loop_start g w)).1.world =
          ground (arith, a.fresh, a.decoded, a.listed) in
        rw left (
          wake_up_resources-IsBack p client ident content shown holds reads store g.client a.reached
            a.patcher pairs (loop_start g w) d a.restorable (sym run ∙ h))

    Awakable-KeepsOthers :
        (Other : Ident → Type 0) (w w' : W) (round : Round Object W)
        → KeepsOthers ident content holds Other w w'
        → All (λ o. Other (ident o)) (map (λ x. x.0) round.1)
        → Awakable w round
        → Awakable w' round
    Awakable-KeepsOthers Other w w' (entry, pairs) keeps others a = record {
      patcher = a.patcher;
      reached = a.reached;
      fresh = a.fresh;
      decoded = a.decoded;
      listed = a.listed;
      restorable =
          Restorable-KeepsOthers p ident content shown holds a.patcher Other entry.1.restore_patches
            entry.1.restore_patches w w' pairs refl keeps
            (All-map (λ x. x.0) (λ o. Other (ident o)) pairs others) a.restorable;
    }

    all_Awakable-KeepsOthers :
        (Other : Ident → Type 0) (w w' : W) (rounds : List (Round Object W))
        → KeepsOthers ident content holds Other w w'
        → All (λ o. Other (ident o)) (befores rounds)
        → All (Awakable w) rounds
        → All (Awakable w') rounds
    all_Awakable-KeepsOthers Other w w' [] keeps others h = tt
    all_Awakable-KeepsOthers Other w w' (round ∷ rounds) keeps others (a, h) =
        let (mine, rest) = append-All _ (map (λ x. x.0) round.1) (befores rounds) others in
        (
          Awakable-KeepsOthers Other w w' round keeps mine a,
          all_Awakable-KeepsOthers Other w w' rounds keeps rest h,
        )

    pub wake_up_entries-Restores :
        (rounds : List (Round Object W)) (namespace : String) (w : W)
        → Distinct ident (befores rounds)
        → All (Awakable w) rounds
        → (wake_up_entries p (map (λ r. r.0) rounds) namespace w).0 ≡ ok tt
        → Restores ident content holds
            (befores rounds)
            w
            (wake_up_entries p (map (λ r. r.0) rounds) namespace w).2
    unfolding wake_up_entries
    wake_up_entries-Restores [] namespace w d h done = (tt, (λ _ _. refl))
    wake_up_entries-Restores (round ∷ rounds) namespace w d (a, h) done =
        let (dx, dy, first, second) =
          Distinct-append ident (map (λ x. x.0) round.1) (befores rounds) d in
        let t = (wake_up_entry p round.0 namespace w).2 in
        elim (Result-cases (wake_up_entry p round.0 namespace w).0) [
          | inr (e, failed) ↦ absurd (ground arith)
          | inl (u, woken) ↦
              let restored = wake_up_entry-Restores round namespace w a dx woken in
              let later : (wake_up_entries p (map (λ r. r.0) rounds) namespace t).0 ≡ ok tt =
                ground arith in
              let rest =
                wake_up_entries-Restores rounds namespace t dy
                  (all_Awakable-KeepsOthers _ w t rounds restored.1 second h) later in
              rw woken (
                Restores-append ident content holds (map (λ x. x.0) round.1) (befores rounds) w t _
                  restored rest first)
        ]
