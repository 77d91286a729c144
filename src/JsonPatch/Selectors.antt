-- ===== src/JsonPatch/Selectors.antt =====
-- genericresources.go: the filters of a SleepInfo as selectors.
pub mod Names
use kube_green.Base.{Bool, not, ◌&&◌, String, ◌<>◌, ◌==◌, List, [], ◌∷◌, ◌++◌, map}
use kube_green.Base.{Option, none, some, Result, ok, ◌>>=◌, if◌then◌else◌}
use kube_green.Base.Dict.{Dict}
use kube_green.Base.Text.{join}
use text.Mathlib.Text.{starts_with}
use kube_green.Api.{FilterRef, PatchTarget, SleepInfo, get_include_ref, get_exclude_ref}
use kube_green.Cluster.{Objects, ListOptions}

unfoldable pub match_patch_target_and_filter_ref : PatchTarget → FilterRef → Bool
match_patch_target_and_filter_ref target filter_ref =
    starts_with filter_ref.api_version (target.group <> "/") && filter_ref.kind == target.kind

-- The loop that collects the names of the filters for a target.
unfoldable pub matching_names : List FilterRef → PatchTarget → List String
unfolding match_patch_target_and_filter_ref
matching_names [] target = []
matching_names (ref ∷ refs) target =
    let rest = matching_names refs target in
    if match_patch_target_and_filter_ref target ref && not (ref.name == "")
    then ref.name ∷ rest
    else rest

unfoldable pub get_field_to_exclude : List FilterRef → PatchTarget → List String
unfolding matching_names
get_field_to_exclude exclude_ref target =
    map (λ name. "metadata.name!=" <> name) (matching_names exclude_ref target)

-- The `switch` on the number of names: the selectors, and the set of names to keep afterwards
-- (empty where the map is nil).
abbrev pub include_names : List String → List String × List String
include_names [] = ([], [])
include_names (name ∷ []) = (("metadata.name==" <> name) ∷ [], [])
include_names (name ∷ other ∷ names) = ([], name ∷ other ∷ names)

unfoldable pub get_field_to_include : List FilterRef → PatchTarget → List String × List String
unfolding matching_names
get_field_to_include include_ref target = include_names (matching_names include_ref target)

-- The loops over labels; a label map is listed in the order of the range.
abbrev pub labels_with : String → Dict String → List String
labels_with operator labels = map (λ l. l.0 <> (operator <> l.1)) labels

unfoldable pub get_labels_to_exclude : List FilterRef → List String
get_labels_to_exclude [] = []
get_labels_to_exclude (exclude ∷ refs) =
    labels_with "!=" exclude.match_labels ++ get_labels_to_exclude refs

unfoldable pub get_labels_to_include : List FilterRef → List String
get_labels_to_include [] = []
get_labels_to_include (include ∷ refs) =
    labels_with "==" include.match_labels ++ get_labels_to_include refs

-- A selector is parsed only if there are terms.
abbrev pub selector_of : (String → Result String) → List String → Result (Option String)
selector_of parse [] = ok none
selector_of parse (term ∷ terms) = do selector ← parse (join "," (term ∷ terms)); ok (some selector)

module _ {Object Value : Type 0} (objects : Objects Object Value) where
  -- The options, and the names to keep once the list is fetched.
  unfoldable pub get_list_options :
      SleepInfo → String → PatchTarget → Result (ListOptions × List String)
  get_list_options sleep_info namespace target = do
    let include_ref = get_include_ref sleep_info
    let exclude_ref = get_exclude_ref sleep_info
    let (fields_to_include, names_to_include) = get_field_to_include include_ref target
    let field_selectors = fields_to_include ++ get_field_to_exclude exclude_ref target
    field_selector ← selector_of objects.parse_field_selector field_selectors
    let label_selectors = get_labels_to_include include_ref ++ get_labels_to_exclude exclude_ref
    label_selector ← selector_of objects.parse_label_selector label_selectors
    ok (
      record {
        namespace = namespace;
        limit = 500;
        field_selector = field_selector;
        label_selector = label_selector;
      },
      names_to_include,
    )
