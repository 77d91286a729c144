-- ===== src/JsonPatch/Server.antt =====
-- An API server that applies the patches that it is sent, and what the calls of the loops do there.
use kube_green.Base.{
  true, ◌≡◌, ◌≢◌, ◌⊎◌, inl, inr, refl, ◌∙◌, Option, none, some, List, [], ◌∷◌, ◌++◌, arith, All,
  All-append, Fresh, Fresh-append,
}
use kube_green.Base.{Error, Result, ok, err, is_not_found}
use kube_green.Base.Exec.{Exec, ◌>>◌}
use kube_green.Cluster.{Client}
use kube_green.Resource.{ResourceClient, patch, forgive, is_client_valid}
use kube_green.JsonPatch.{Progress, on_world, json_patch_call, mark_cache_invalid}

-- What a merge patch does on the API server. `ident` tells the objects of one namespace apart: by the
-- name, where they are of one kind, or by the kind and the name. `content` is what an object says but
-- for the fields that the API server itself writes, such as the resource version and the managed
-- fields, and `holds` is the content that the cluster has, if there is such an object. What is sent is
-- only the difference between two objects: a patch that succeeds leads to the new one where the
-- cluster had the old one. If it is answered by NotFound there is none, and no patch concerns another
-- object.
pub record StoresObjects {Object Content Ident W : Type 0} (ident : Object → Ident)
    (content : Object → Content) (client : Client Object W) (holds : Ident → W → Option Content)
    : Type 0 where
  pub patched :
      (new old : Object) (w : W)
      → ident new ≡ ident old
      → holds (ident old) w ≡ some (content old)
      → (client.patch new old w).0 ≡ ok tt
      → holds (ident old) (client.patch new old w).1 ≡ some (content new)
  pub missed :
      (new old : Object) (w : W) (e : Error)
      → (client.patch new old w).0 ≡ err e
      → is_not_found e ≡ true
      → holds (ident new) (client.patch new old w).1 ≡ none
  pub others_kept :
      (new old : Object) (other : Ident) (w : W)
      → other ≢ ident new
      → holds other (client.patch new old w).1 ≡ holds other w

pub forgive-ok :
    (r : Result (Unit {0}))
    → forgive r ≡ ok tt
    → (r ≡ ok tt) ⊎ ((e : Error) × (r ≡ err e) × (is_not_found e ≡ true))
forgive-ok (ok u) h = inl refl
forgive-ok (err e) h = inr (e, refl, ground arith)

pub patch-ok :
    {Object W : Type 0} (res : ResourceClient Object W) (client : Client Object W)
    (old new : Object) (w : W)
    → res.client ≡ some client
    → (patch res old new w).0 ≡ ok tt
    → (forgive (client.patch new old w).0 ≡ ok tt)
      × ((patch res old new w).1 ≡ (client.patch new old w).1)
unfolding patch is_client_valid
patch-ok res client old new w found h = ground arith

pub call-ok :
    {W : Type 0} (call : Exec W (Unit {0})) (s : Progress W)
    → ((on_world (json_patch_call call) >> mark_cache_invalid) s).0 ≡ ok tt
    → ((call s.world).0 ≡ ok tt)
      × (((on_world (json_patch_call call) >> mark_cache_invalid) s).1
          ≡ record s { world = (call s.world).1; is_cache_invalid = true })
call-ok call s h = ground arith

module _ {Object Content Ident W : Type 0} (ident : Object → Ident) (content : Object → Content)
    (holds : Ident → W → Option Content) where
  -- What the object says is held, or there is none that is identified as it is.
  abbrev pub IsBack : W → Object → Type 0
  IsBack w o = (holds (ident o) w ≡ some (content o)) ⊎ (holds (ident o) w ≡ none)

  -- From one state of the cluster to another, what is held of the others is kept.
  abbrev pub KeepsOthers : (Ident → Type 0) → W → W → Type 0
  KeepsOthers Other w w' = (id : Ident) → Other id → holds id w' ≡ holds id w

  pub IsBack-KeepsOthers :
      (Other : Ident → Type 0) (w w' : W) (o : Object)
      → KeepsOthers Other w w'
      → Other (ident o)
      → IsBack w o
      → IsBack w' o
  IsBack-KeepsOthers Other w w' o keeps other (inl h) = inl (keeps (ident o) other ∙ h)
  IsBack-KeepsOthers Other w w' o keeps other (inr h) = inr (keeps (ident o) other ∙ h)

  -- Every object is back, and no other is touched.
  abbrev pub Restores : List Object → W → W → Type 0
  Restores items w w' = All (IsBack w') items × KeepsOthers (λ id. Fresh ident id items) w w'

  pub All_IsBack-KeepsOthers :
      (Other : Ident → Type 0) (w w' : W) (items : List Object)
      → KeepsOthers Other w w'
      → All (λ o. Other (ident o)) items
      → All (IsBack w) items
      → All (IsBack w') items
  All_IsBack-KeepsOthers Other w w' [] keeps others h = tt
  All_IsBack-KeepsOthers Other w w' (o ∷ items) keeps (other, others) (h, hs) = (
    IsBack-KeepsOthers Other w w' o keeps other h,
    All_IsBack-KeepsOthers Other w w' items keeps others hs,
  )

  pub Restores-append :
      (xs ys : List Object) (w w' w'' : W)
      → Restores xs w w'
      → Restores ys w' w''
      → All (λ x. Fresh ident (ident x) ys) xs
      → Restores (xs ++ ys) w w''
  Restores-append xs ys w w' w'' (backs, keeps) (backs', keeps') apart = (
    All-append (IsBack w'') xs ys (All_IsBack-KeepsOthers _ w' w'' xs keeps' apart backs) backs',
    (λ id fresh.
        let (left, right) = Fresh-append ident id xs ys fresh in keeps' id right ∙ keeps id left),
  )
