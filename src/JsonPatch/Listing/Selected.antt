-- ===== src/JsonPatch/Listing/Selected.antt =====
-- The list of a target holds the resources that the SleepInfo wants.
use kube_green.Base.{
  ◌≤◌, ◌≡◌, refl, ap, ◌∙◌, Bool, true, false, not, ◌&&◌, ◌||◌, String, ◌<>◌, none, some, List, ◌++◌,
  map, All, All-append, all, length, non_empty, arith,
}
use kube_green.Base.{ok}
use kube_green.Api.{group_kind, PatchTarget, SleepInfo}
use kube_green.Cluster.{Objects, Client, GroupVersionKind, ListOptions}
use kube_green.Resource.{ResourceClient}
use kube_green.JsonPatch.Selectors.{
  matching_names, include_names, selector_of, get_field_to_include, get_field_to_exclude,
  get_labels_to_include, get_labels_to_exclude, get_list_options,
}
use kube_green.JsonPatch.Listing.{listed, list_mapped, get_list_by_namespace, filter_by_name}
use kube_green.Base.{filter, filter_cong, all-append, map-append}
use kube_green.JsonPatch.Listing.Terms.{
  name_term, label_term, include_terms, exclude_terms, label_terms, include_terms_lem,
  exclude_terms_lem, get_labels_to_include-terms, get_labels_to_exclude-terms, IsValid,
  matching_names-IsValid, include_terms-IsValid, exclude_terms-IsValid, label_terms-IsValid,
}
use kube_green.JsonPatch.Listing.Wanted.{
  name_holds, label_holds, ListsSelected, is_wanted, is_named, any-matching_names,
  non_empty-matching_names, exclude_terms-all, label_terms-include, label_terms-exclude,
  filter_by_name-include,
}

-- The terms of the two selectors.
abbrev name_terms : SleepInfo → PatchTarget → List (Bool × String)
name_terms s target =
    include_terms (matching_names s.spec.include_ref target)
    ++ exclude_terms (matching_names s.spec.exclude_ref target)

abbrev all_label_terms : SleepInfo → List (Bool × (String × String))
all_label_terms s = label_terms true s.spec.include_ref ++ label_terms false s.spec.exclude_ref

module _ {Object Value : Type 0} (objects : Objects Object Value)
    (has_label : Object → String × String → Bool) where
  name_terms_lem :
      (s : SleepInfo) (target : PatchTarget)
      → map name_term (name_terms s target)
        ≡ (include_names (matching_names s.spec.include_ref target)).0
          ++ map (λ name. "metadata.name!=" <> name) (matching_names s.spec.exclude_ref target)
  name_terms_lem s target =
      map-append name_term (include_terms (matching_names s.spec.include_ref target))
        (exclude_terms (matching_names s.spec.exclude_ref target))
      ∙ rw
          (
            include_terms_lem (matching_names s.spec.include_ref target),
            exclude_terms_lem (matching_names s.spec.exclude_ref target),
          )
          refl

  all_label_terms_lem :
      (s : SleepInfo)
      → map label_term (all_label_terms s)
        ≡ get_labels_to_include s.spec.include_ref ++ get_labels_to_exclude s.spec.exclude_ref
  all_label_terms_lem s =
      map-append label_term (label_terms true s.spec.include_ref)
        (label_terms false s.spec.exclude_ref)
      ∙ rw
          (
            get_labels_to_include-terms s.spec.include_ref,
            get_labels_to_exclude-terms s.spec.exclude_ref,
          )
          refl

  -- What the options are made of.
  get_list_options-terms :
      (s : SleepInfo) (namespace : String) (target : PatchTarget) (options : ListOptions)
      (kept : List String)
      → get_list_options objects s namespace target ≡ ok (options, kept)
      → (selector_of objects.parse_field_selector (map name_term (name_terms s target))
          ≡ ok options.field_selector)
        × (selector_of objects.parse_label_selector (map label_term (all_label_terms s))
            ≡ ok options.label_selector)
        × (options.limit ≡ 500)
        × (options.namespace ≡ namespace)
        × (kept ≡ (include_names (matching_names s.spec.include_ref target)).1)
  unfolding get_list_options get_field_to_include get_field_to_exclude
  get_list_options-terms s namespace target options kept h =
      rw (name_terms_lem s target, all_label_terms_lem s) (ground arith)

  wanted_lem :
      (s : SleepInfo) (target : PatchTarget) (o : Object)
      → (not (non_empty (matching_names s.spec.include_ref target))
            || is_named objects has_label (matching_names s.spec.include_ref target) o)
          && (all
                (name_holds objects has_label o)
                (exclude_terms (matching_names s.spec.exclude_ref target))
              && all (label_holds objects has_label o) (all_label_terms s))
        ≡ is_wanted objects has_label s target o
  wanted_lem s target o = rw (
    non_empty-matching_names objects has_label s.spec.include_ref target,
    any-matching_names objects has_label o s.spec.include_ref target,
    exclude_terms-all objects has_label o (matching_names s.spec.exclude_ref target),
    any-matching_names objects has_label o s.spec.exclude_ref target,
    all-append (label_holds objects has_label o) (label_terms true s.spec.include_ref)
        (label_terms false s.spec.exclude_ref),
    label_terms-include objects has_label o s.spec.include_ref,
    label_terms-exclude objects has_label o s.spec.exclude_ref,
  )

  -- All the terms at once.
  abbrev agrees_with_terms : SleepInfo → PatchTarget → Object → Bool
  agrees_with_terms s target o =
      all (name_holds objects has_label o) (name_terms s target)
      && all (label_holds objects has_label o) (all_label_terms s)

  named :
      (s : SleepInfo) (target : PatchTarget) (items : List Object)
      → filter_by_name objects
          (filter (agrees_with_terms s target) items)
          (include_names (matching_names s.spec.include_ref target)).1
        ≡ filter (is_wanted objects has_label s target) items
  named s target items =
      let ns = matching_names s.spec.include_ref target in
      let xs = matching_names s.spec.exclude_ref target in
      ap (λ l. filter_by_name objects l (include_names ns).1)
        (filter_cong _ _ items (λ o. ground (
          arith,
          all-append (name_holds objects has_label o) (include_terms ns) (exclude_terms xs),
        )))
      ∙ filter_by_name-include objects has_label ns
          (λ o.
            all (name_holds objects has_label o) (exclude_terms xs)
            && all (label_holds objects has_label o) (all_label_terms s))
          items
      ∙ filter_cong _ _ items (wanted_lem s target)

  -- The list that a patch is applied to is the list of the resources that the SleepInfo wants for the
  -- target: those of the namespace that the filters include, by name and by label, and do not
  -- exclude. It is so for a target that the cluster knows, for selectors that can be parsed, whose
  -- names and labels are valid, and for at most 500 resources of the kind.
  pub get_list_by_namespace-is_wanted :
      {W : Type 0} (client : Client Object W) (stored : GroupVersionKind → String → W → List Object)
      (Valid : String → Type 0) (law : ListsSelected objects has_label client stored Valid)
      (res : ResourceClient Object W) (s : SleepInfo) (namespace : String) (target : PatchTarget)
      (w : W) (gvk : GroupVersionKind) (options : ListOptions) (kept : List String)
      → res.client ≡ some client
      → res.sleep_info ≡ some s
      → client.rest_mapping (group_kind target) w ≡ ok gvk
      → get_list_options objects s namespace target ≡ ok (options, kept)
      → All (IsValid Valid) s.spec.include_ref
      → All (IsValid Valid) s.spec.exclude_ref
      → length (stored gvk namespace w) ≤ 500
      → get_list_by_namespace objects res namespace target w
        ≡ (filter (is_wanted objects has_label s target) (stored gvk namespace w), none)
  unfolding get_list_by_namespace list_mapped listed
  get_list_by_namespace-is_wanted client stored Valid law res s namespace target w gvk options kept
        a b mapped opts includes excludes few =
      let (fields, labels, limit, same, keep) =
        get_list_options-terms s namespace target options kept opts in
      let ns = matching_names s.spec.include_ref target in
      let xs = matching_names s.spec.exclude_ref target in
      let listed_all =
        law.selected gvk options w (name_terms s target) (all_label_terms s)
          (All-append _ (include_terms ns) (exclude_terms xs)
            (include_terms-IsValid Valid ns
              (matching_names-IsValid Valid s.spec.include_ref target includes))
            (exclude_terms-IsValid Valid xs
              (matching_names-IsValid Valid s.spec.exclude_ref target excludes)))
          (All-append _ (label_terms true s.spec.include_ref) (label_terms false s.spec.exclude_ref)
            (label_terms-IsValid Valid true s.spec.include_ref includes)
            (label_terms-IsValid Valid false s.spec.exclude_ref excludes))
          fields labels (rw (same, limit) few) in
      let items = stored gvk options.namespace w in
      let found : get_list_by_namespace objects res namespace target w
          ≡ listed objects (client.list gvk options w) kept =
        rw (a, b, mapped, opts, list_mapped) refl in
      let selected : get_list_by_namespace objects res namespace target w
          ≡ (filter (is_wanted objects has_label s target) items, none) =
        found
        ∙ ap (λ l. listed objects l kept) listed_all
        ∙ ap
            (λ names.
              (filter_by_name objects (filter (agrees_with_terms s target) items) names, none))
            keep
        ∙ ap (λ l. (l, none)) (named s target items) in
      selected
      ∙ ap (λ n. (filter (is_wanted objects has_label s target) (stored gvk n w), none)) same
