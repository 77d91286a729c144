-- ===== src/Resource/Keeps.antt =====
-- What the calls of a resource client do to the cluster.
use kube_green.Base.{◌≡◌, refl, String, Option, none, some}
use kube_green.Base.Exec.{Exec}
use kube_green.Base.Keeps.{Keeps, >>-Keeps, check-Keeps}
use kube_green.Cluster.{Objects, Client}
use kube_green.Resource.{
  ResourceClient, is_client_valid, ignoring_not_found, on_client, patch, ssa_patch,
}

module _ {Object W : Type 0} (P : W → Type 0) where
  -- The two calls on resources keep `P`.
  pub record KeepsCalls (client : Client Object W) : Type 0 where
    pub patches : (new old : Object) → Keeps P (client.patch new old)
    pub applies : (o : Object) (owner : String) → Keeps P (client.apply o owner)

  -- So does a resource client that has them, or none.
  abbrev pub KeepsResources : ResourceClient Object W → Type 0
  KeepsResources res = (client : Client Object W) → res.client ≡ some client → KeepsCalls client

  on_client-Keeps :
      (found : Option (Client Object W)) (call : Client Object W → Exec W (Unit {0}))
      → ((client : Client Object W) → found ≡ some client → Keeps P (call client))
      → Keeps P (ignoring_not_found (on_client found call))
  on_client-Keeps none call h w hw = hw
  on_client-Keeps (some client) call h w hw = h client refl w hw

  pub patch-Keeps :
      (res : ResourceClient Object W) (old new : Object)
      → KeepsResources res
      → Keeps P (patch res old new)
  unfolding patch
  patch-Keeps res old new h =
      >>-Keeps P _ _ (check-Keeps P (is_client_valid res))
        (on_client-Keeps res.client (λ cl. cl.patch new old) (λ cl e. (h cl e).patches new old))

  pub ssa_patch-Keeps :
      {Value : Type 0} (objects : Objects Object Value) (res : ResourceClient Object W) (o : Object)
      → KeepsResources res
      → Keeps P (ssa_patch objects res o)
  unfolding ssa_patch
  ssa_patch-Keeps objects res o h =
      let sent = objects.clear_resource_version (objects.clear_managed_fields o) in
      >>-Keeps P _ _ (check-Keeps P (is_client_valid res)) (
        on_client-Keeps res.client (λ cl. cl.apply sent res.field_manager_name)
          (λ cl e. (h cl e).applies sent res.field_manager_name))
