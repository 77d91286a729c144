-- ===== src/JsonPatch/Listing/Terms.antt =====
-- The filters of a SleepInfo as the terms of selectors.
use kube_green.Base.{
  ◌≡◌, refl, ap, ◌∙◌, Bool, true, false, not, ◌&&◌, String, ◌<>◌, ◌==◌, List, [], ◌∷◌, ◌++◌, map,
  All, All-append, Bool-cases, inl, inr, map-append,
}
use kube_green.Api.{FilterRef, PatchTarget}
use kube_green.JsonPatch.Selectors.{
  match_patch_target_and_filter_ref, matching_names, include_names, labels_with,
  get_labels_to_include, get_labels_to_exclude,
}

-- A term of a selector asks for something, or for its contrary.
abbrev pub agrees : Bool → Bool → Bool
agrees true b = b
agrees false b = not b

-- `metadata.name==name`, or `!=`.
abbrev pub name_term : Bool × String → String
name_term (true, name) = "metadata.name==" <> name
name_term (false, name) = "metadata.name!=" <> name

abbrev pub label_term : Bool × (String × String) → String
label_term (true, (key, v)) = key <> ("==" <> v)
label_term (false, (key, v)) = key <> ("!=" <> v)

-- The terms for the names that are included, where one term can say it, and for those that are not.
abbrev pub include_terms : List String → List (Bool × String)
include_terms [] = []
include_terms (name ∷ []) = (true, name) ∷ []
include_terms (name ∷ other ∷ names) = []

abbrev pub exclude_terms : List String → List (Bool × String)
exclude_terms names = map (λ name. (false, name)) names

abbrev pub label_terms : Bool → List FilterRef → List (Bool × (String × String))
label_terms wanted [] = []
label_terms wanted (ref ∷ refs) =
    map (λ label. (wanted, label)) ref.match_labels ++ label_terms wanted refs

pub include_terms_lem :
    (names : List String) → map name_term (include_terms names) ≡ (include_names names).0
include_terms_lem [] = refl
include_terms_lem (name ∷ []) = refl
include_terms_lem (name ∷ other ∷ names) = refl

pub exclude_terms_lem :
    (names : List String)
    → map name_term (exclude_terms names) ≡ map (λ name. "metadata.name!=" <> name) names
exclude_terms_lem [] = refl
exclude_terms_lem (name ∷ names) =
    ap (λ rest. ("metadata.name!=" <> name) ∷ rest) (exclude_terms_lem names)

labels_with-include :
    (labels : List (String × String))
    → map label_term (map (λ l. (true, l)) labels) ≡ labels_with "==" labels
labels_with-include [] = refl
labels_with-include (l ∷ labels) =
    ap (λ rest. (l.0 <> ("==" <> l.1)) ∷ rest) (labels_with-include labels)

labels_with-exclude :
    (labels : List (String × String))
    → map label_term (map (λ l. (false, l)) labels) ≡ labels_with "!=" labels
labels_with-exclude [] = refl
labels_with-exclude (l ∷ labels) =
    ap (λ rest. (l.0 <> ("!=" <> l.1)) ∷ rest) (labels_with-exclude labels)

pub get_labels_to_include-terms :
    (refs : List FilterRef) → map label_term (label_terms true refs) ≡ get_labels_to_include refs
unfolding get_labels_to_include
get_labels_to_include-terms [] = refl
get_labels_to_include-terms (ref ∷ refs) =
    map-append label_term (map (λ l. (true, l)) ref.match_labels) (label_terms true refs)
    ∙ rw (labels_with-include ref.match_labels, get_labels_to_include-terms refs) refl

pub get_labels_to_exclude-terms :
    (refs : List FilterRef) → map label_term (label_terms false refs) ≡ get_labels_to_exclude refs
unfolding get_labels_to_exclude
get_labels_to_exclude-terms [] = refl
get_labels_to_exclude-terms (ref ∷ refs) =
    map-append label_term (map (λ l. (false, l)) ref.match_labels) (label_terms false refs)
    ∙ rw (labels_with-exclude ref.match_labels, get_labels_to_exclude-terms refs) refl

module _ (Valid : String → Type 0) where
  -- The name and the labels of a filter.
  abbrev pub IsValid : FilterRef → Type 0
  IsValid ref = Valid ref.name × All (λ l. Valid l.0 × Valid l.1) ref.match_labels

  pub matching_names-IsValid :
      (refs : List FilterRef) (target : PatchTarget)
      → All IsValid refs
      → All Valid (matching_names refs target)
  unfolding matching_names
  matching_names-IsValid [] target h = tt
  matching_names-IsValid (ref ∷ refs) target ((valid, _), hs) =
      elim (Bool-cases (match_patch_target_and_filter_ref target ref && not (ref.name == ""))) [
        | inl e ↦ rw e (valid, matching_names-IsValid refs target hs)
        | inr e ↦ rw e (matching_names-IsValid refs target hs)
      ]

  pub include_terms-IsValid :
      (names : List String)
      → All Valid names
      → All {A = Bool × String} (λ t. Valid t.1) (include_terms names)
  include_terms-IsValid [] h = tt
  include_terms-IsValid (name ∷ []) h = h
  include_terms-IsValid (name ∷ other ∷ names) h = tt

  pub exclude_terms-IsValid :
      (names : List String)
      → All Valid names
      → All {A = Bool × String} (λ t. Valid t.1) (exclude_terms names)
  exclude_terms-IsValid [] h = tt
  exclude_terms-IsValid (name ∷ names) (h, hs) = (h, exclude_terms-IsValid names hs)

  labels-IsValid :
      (wanted : Bool) (labels : List (String × String))
      → All (λ l. Valid l.0 × Valid l.1) labels
      → All {A = Bool × (String × String)}
          (λ t. Valid t.1.0 × Valid t.1.1)
          (map (λ l. (wanted, l)) labels)
  labels-IsValid wanted [] h = tt
  labels-IsValid wanted (l ∷ labels) (h, hs) = (h, labels-IsValid wanted labels hs)

  pub label_terms-IsValid :
      (wanted : Bool) (refs : List FilterRef)
      → All IsValid refs
      → All {A = Bool × (String × String)}
          (λ t. Valid t.1.0 × Valid t.1.1)
          (label_terms wanted refs)
  label_terms-IsValid wanted [] h = tt
  label_terms-IsValid wanted (ref ∷ refs) ((_, labels), hs) =
      All-append (λ (t : Bool × (String × String)). Valid t.1.0 × Valid t.1.1)
        (map (λ l. (wanted, l)) ref.match_labels) (label_terms wanted refs)
        (labels-IsValid wanted ref.match_labels labels) (label_terms-IsValid wanted refs hs)
