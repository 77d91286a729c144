-- ===== src/JsonPatch/Listing/Wanted.antt =====
-- Which resources of a namespace are listed: the filters of the SleepInfo as one test on an object.
use kube_green.Base.{
  ◌≤◌, ◌≡◌, refl, ◌∙◌, Bool, true, false, not, ◌&&◌, ◌||◌, String, ◌==◌, none, List, [], ◌∷◌, map,
  All, any, all, filter, filter_cong, all-append, filter-filter, length, non_empty, arith,
}
use kube_green.Base.{ok}
use kube_green.Api.{FilterRef, PatchTarget, SleepInfo}
use kube_green.Cluster.{Objects, Client, GroupVersionKind, ListOptions}
use kube_green.JsonPatch.Selectors.{
  match_patch_target_and_filter_ref, matching_names, include_names, selector_of,
}
use kube_green.JsonPatch.Listing.{keep_named, filter_by_name}
use kube_green.JsonPatch.Listing.Terms.{
  agrees, name_term, label_term, include_terms, exclude_terms, label_terms,
}

module _ {Object Value : Type 0} (objects : Objects Object Value)
    (has_label : Object → String × String → Bool) where
  abbrev pub name_holds : Object → Bool × String → Bool
  name_holds o (wanted, name) = agrees wanted (objects.name o == name)

  abbrev pub label_holds : Object → Bool × (String × String) → Bool
  label_holds o (wanted, label) = agrees wanted (has_label o label)

  -- The API server lists the objects of a namespace that agree with every term of the selectors, where
  -- the terms are of names and labels that are `Valid`, and the objects are not more than the limit.
  pub record ListsSelected {W : Type 0} (client : Client Object W)
      (stored : GroupVersionKind → String → W → List Object) (Valid : String → Type 0)
      : Type 0 where
    pub selected :
        (gvk : GroupVersionKind) (options : ListOptions) (w : W) (names : List (Bool × String))
        (labels : List (Bool × (String × String)))
        → All (λ t. Valid t.1) names
        → All (λ t. Valid t.1.0 × Valid t.1.1) labels
        → selector_of objects.parse_field_selector (map name_term names) ≡ ok options.field_selector
        → selector_of objects.parse_label_selector (map label_term labels)
          ≡ ok options.label_selector
        → length (stored gvk options.namespace w) ≤ options.limit
        → client.list gvk options w ≡ (
          filter
              (λ o. all (name_holds o) names && all (label_holds o) labels)
              (stored gvk options.namespace w),
          none,
        )

  -- A filter that names resources of a target, and one that names this object.
  abbrev pub concerns : PatchTarget → FilterRef → Bool
  concerns target ref = match_patch_target_and_filter_ref target ref && not (ref.name == "")

  abbrev pub names : PatchTarget → Object → FilterRef → Bool
  names target o ref = concerns target ref && objects.name o == ref.name

  -- The object is one of those that the SleepInfo includes by name, if there are such names for the
  -- target, and is none that it excludes by name; it has all the labels of the filters that include,
  -- and none of the labels of those that exclude.
  abbrev pub is_wanted : SleepInfo → PatchTarget → Object → Bool
  is_wanted s target o =
      (not (any (concerns target) s.spec.include_ref) || any (names target o) s.spec.include_ref)
      && (not (any (names target o) s.spec.exclude_ref)
          && (all (λ ref. all (has_label o) ref.match_labels) s.spec.include_ref
              && not (any (λ ref. any (has_label o) ref.match_labels) s.spec.exclude_ref)))

  abbrev pub is_named : List String → Object → Bool
  is_named ns o = any (λ name. objects.name o == name) ns

  keep_named-filter :
      (items : List Object) (ns : List String)
      → keep_named objects items ns ≡ filter (is_named ns) items
  unfolding keep_named
  keep_named-filter [] ns = refl
  keep_named-filter (item ∷ items) ns = ground (arith, keep_named-filter items ns)

  pub any-matching_names :
      (o : Object) (refs : List FilterRef) (target : PatchTarget)
      → is_named (matching_names refs target) o ≡ any (names target o) refs
  unfolding matching_names
  any-matching_names o [] target = refl
  any-matching_names o (ref ∷ refs) target = ground (arith, any-matching_names o refs target)

  pub non_empty-matching_names :
      (refs : List FilterRef) (target : PatchTarget)
      → non_empty (matching_names refs target) ≡ any (concerns target) refs
  unfolding matching_names
  non_empty-matching_names [] target = refl
  non_empty-matching_names (ref ∷ refs) target =
      ground (arith, non_empty-matching_names refs target)

  pub exclude_terms-all :
      (o : Object) (ns : List String) → all (name_holds o) (exclude_terms ns) ≡ not (is_named ns o)
  exclude_terms-all o [] = refl
  exclude_terms-all o (name ∷ ns) = ground (arith, exclude_terms-all o ns)

  labels_all :
      (o : Object) (labels : List (String × String))
      → (all (label_holds o) (map (λ l. (true, l)) labels) ≡ all (has_label o) labels)
        × (all (label_holds o) (map (λ l. (false, l)) labels) ≡ not (any (has_label o) labels))
  labels_all o [] = (refl, refl)
  labels_all o (l ∷ labels) = ground (arith, labels_all o labels)

  pub label_terms-include :
      (o : Object) (refs : List FilterRef)
      → all (label_holds o) (label_terms true refs)
        ≡ all (λ ref. all (has_label o) ref.match_labels) refs
  label_terms-include o [] = refl
  label_terms-include o (ref ∷ refs) =
      all-append (label_holds o) (map (λ l. (true, l)) ref.match_labels) (label_terms true refs)
      ∙ rw ((labels_all o ref.match_labels).0, label_terms-include o refs) refl

  pub label_terms-exclude :
      (o : Object) (refs : List FilterRef)
      → all (label_holds o) (label_terms false refs)
        ≡ not (any (λ ref. any (has_label o) ref.match_labels) refs)
  label_terms-exclude o [] = refl
  label_terms-exclude o (ref ∷ refs) =
      all-append (label_holds o) (map (λ l. (false, l)) ref.match_labels) (label_terms false refs)
      ∙ ground (arith, labels_all o ref.match_labels, label_terms-exclude o refs)

  -- The names that no term says are kept from the list.
  pub filter_by_name-include :
      (ns : List String) (rest : Object → Bool) (items : List Object)
      → filter_by_name objects
          (filter (λ o. all (name_holds o) (include_terms ns) && rest o) items)
          (include_names ns).1
        ≡ filter (λ o. (not (non_empty ns) || is_named ns o) && rest o) items
  unfolding filter_by_name
  filter_by_name-include [] rest items = refl
  filter_by_name-include (n ∷ []) rest items = filter_cong _ _ items (λ o. ground arith)
  filter_by_name-include (n ∷ m ∷ ns) rest items =
      keep_named-filter _ (n ∷ m ∷ ns)
      ∙ filter-filter (is_named (n ∷ m ∷ ns)) rest items
      ∙ filter_cong _ _ items (λ o. ground arith)
