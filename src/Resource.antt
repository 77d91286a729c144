-- ===== src/Resource.antt =====
-- internal/controller/sleepinfo/resource/resource.go: the checked client of the resources.
pub mod Keeps
use kube_green.Base.{Bool, true, false, not, ◌&&◌, String, Option, none, some, List, [], ◌∷◌, ◌++◌}
use kube_green.Base.{
  Error, invalid_client, failure, Result, ok, err, ignore_not_found, if◌then◌else◌,
}
use kube_green.Base.Text.{join}
use kube_green.Base.Exec.{Exec, raise, check, ◌>>◌}
use kube_green.Api.{SleepInfo}
use kube_green.Cluster.{Objects, Client}

pub record ResourceClient (Object W : Type 0) : Type 0 where
  pub client : Option (Client Object W)
  pub sleep_info : Option SleepInfo
  pub field_manager_name : String

abbrev pub is_nil {ℓ} : {A : Type ℓ} → Option A → Bool
is_nil none = true
is_nil (some a) = false

-- `client.IgnoreNotFound` on the error of a call.
abbrev pub forgive : Result (Unit {0}) → Result (Unit {0})
forgive (ok u) = ok u
forgive (err e) = elim (ignore_not_found (some e)) [ none ↦ ok tt | some e' ↦ err e' ]

abbrev ignoring_not_found : {W : Type 0} → Exec W (Unit {0}) → Exec W (Unit {0})
ignoring_not_found call w = let (r, w') = call w in (forgive r, w')

module _ {Object W : Type 0} where
  unfoldable pub is_client_valid : ResourceClient Object W → Option Error
  unfolding join
  is_client_valid r =
      if not (is_nil r.client) && not (is_nil r.sleep_info)
      then none
      else (let err_strings : List String =
            if is_nil r.client then "client is empty" ∷ [] else [] in
          let err_strings' =
            err_strings ++ (if is_nil r.sleep_info then "sleepInfo is nil" ∷ [] else []) in
          some (invalid_client (join " and " err_strings')))

  -- A call on the client; on a nil client, which `IsClientValid` has ruled out, Go panics.
  abbrev on_client :
      Option (Client Object W) → (Client Object W → Exec W (Unit {0})) → Exec W (Unit {0})
  on_client none call = raise (failure "nil pointer dereference")
  on_client (some cl) call = call cl

  -- `ResourceClient.Patch`
  unfoldable pub patch : ResourceClient Object W → Object → Object → Exec W (Unit {0})
  unfolding is_client_valid
  patch r old_obj new_obj = do
    check (is_client_valid r)
    ignoring_not_found (on_client r.client (λ cl. cl.patch new_obj old_obj))

  module _ {Value : Type 0} (objects : Objects Object Value) where
    unfoldable pub ssa_patch : ResourceClient Object W → Object → Exec W (Unit {0})
    unfolding is_client_valid
    ssa_patch r new_obj = do
      check (is_client_valid r)
      let sent = objects.clear_resource_version (objects.clear_managed_fields new_obj)
      ignoring_not_found (on_client r.client (λ cl. cl.apply sent r.field_manager_name))
