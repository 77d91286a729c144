-- ===== src/JsonPatch/Listing.antt =====
-- genericresources.go: the resources of a namespace that a patch is for.
pub mod Terms
pub mod Wanted
pub mod Selected
use kube_green.Base.{String, ◌==◌, List, [], ◌∷◌, Option, none, some, any, if◌then◌else◌}
use kube_green.Base.{Error, failure, Result, ok, err, is_no_match, ignore_not_found}
use kube_green.Api.{GroupKind, group_kind, PatchTarget, SleepInfo}
use kube_green.Cluster.{Objects, Client, GroupVersionKind}
use kube_green.Resource.{ResourceClient}
use kube_green.JsonPatch.Selectors.{get_list_options}

module _ {Object Value : Type 0} (objects : Objects Object Value) where
  keep_named : List Object → List String → List Object
  keep_named [] names = []
  keep_named (item ∷ items) names =
      let rest = keep_named items names in
      if any (λ name. objects.name item == name) names then item ∷ rest else rest

  unfoldable pub filter_by_name : List Object → List String → List Object
  unfolding keep_named
  filter_by_name items [] = items
  filter_by_name items (name ∷ names) = keep_named items (name ∷ names)

  -- The error of `List`, unless it is NotFound, after the items that came with it.
  listed : List Object × Option Error → List String → List Object × Option Error
  unfolding filter_by_name
  listed (items, some e) names = (items, ignore_not_found (some e))
  listed (items, none) names = (filter_by_name items names, none)

  list_mapped :
      {W : Type 0}
      → Client Object W
      → Result GroupVersionKind
      → SleepInfo
      → String
      → PatchTarget
      → W
      → List Object × Option Error
  unfolding listed
  list_mapped client (err e) sleep_info namespace target w =
      ([], if is_no_match e then none else some e)
  list_mapped client (ok gvk) sleep_info namespace target w =
      elim (get_list_options objects sleep_info namespace target) [
        | err e ↦ ([], some e)
        | ok (options, names_to_include) ↦ listed (client.list gvk options w) names_to_include
      ]

  abbrev list_with :
      {W : Type 0}
      → Option (Client Object W)
      → Option SleepInfo
      → String
      → PatchTarget
      → W
      → List Object × Option Error
  unfolding list_mapped
  list_with (some client) (some sleep_info) namespace target w =
      list_mapped client (client.rest_mapping (group_kind target) w) sleep_info namespace target w
  list_with _ _ namespace target w = ([], some (failure "nil pointer dereference"))

  -- Items and error, as the code returns them. On a nil client or SleepInfo Go panics; the callers
  -- have ruled that out.
  unfoldable pub get_list_by_namespace :
      {W : Type 0} → ResourceClient Object W → String → PatchTarget → W → List Object × Option Error
  unfolding list_mapped
  get_list_by_namespace c namespace target w = list_with c.client c.sleep_info namespace target w
