-- ===== src/JsonPatch/Refresh.antt =====
-- jsonpatch.go: the start of the rounds of `Sleep` and `WakeUp`, where a stale list is fetched anew.
use kube_green.Base.{String, Option, none, some}
use kube_green.Base.{Error, list_resources, message, if◌then◌else◌}
use kube_green.Cluster.{Objects}
use kube_green.JsonPatch.{GenericResource}
use kube_green.JsonPatch.Listing.{get_list_by_namespace}

abbrev list_error : Option Error → Option Error
list_error none = none
list_error (some e) = some (list_resources (message e))

module _ {Object Value W : Type 0} (objects : Objects Object Value) where
  -- The resource with its items, and the error of the listing.
  unfoldable pub refresh :
      GenericResource Object W → String → W → GenericResource Object W × Option Error
  refresh g namespace w =
      if g.is_cache_invalid
      then (let (items, e) =
            get_list_by_namespace objects g.client namespace g.patch_data.target w in
          (record g { items = items }, list_error e))
      else (g, none)
