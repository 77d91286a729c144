-- ===== src/Tests/Choosing.antt =====
-- The list of the small cluster for a SleepInfo with filters.
use text.Mathlib.TextLemmas.{append_cancel_left}
use kube_green.Base.{
  ◌≡◌, refl, ap, Bool, true, false, not, ◌&&◌, String, ◌<>◌, ◌==◌, Option, none, some, List, [],
  ◌∷◌, map, All, all, arith, eq_iff, nat_eq,
}
use kube_green.Base.{Result, ok, err, failure, if◌then◌else◌}
use kube_green.Base.Text.{join}
use kube_green.Api.{FilterRef, SleepInfo}
use kube_green.Api.Patches.{deployment_target}
use kube_green.Api.Schedule.Format.{occurrences}
use kube_green.Cluster.{Objects, Client, GroupVersionKind, ListOptions}
use kube_green.Resource.{ResourceClient}
use kube_green.JsonPatch.Selectors.{
  match_patch_target_and_filter_ref, selector_of, get_field_to_exclude, get_field_to_include,
  get_labels_to_exclude, get_labels_to_include, get_list_options,
}
use kube_green.JsonPatch.Selectors.Names.{occurrences-append}
use kube_green.JsonPatch.Listing.{get_list_by_namespace}
use kube_green.Base.{filter, filter_cong}
use kube_green.JsonPatch.Listing.Terms.{name_term, label_term}
use kube_green.JsonPatch.Listing.Wanted.{name_holds, label_holds, ListsSelected, is_wanted}
use kube_green.JsonPatch.Listing.Selected.{get_list_by_namespace-is_wanted}
use kube_green.Tests.Cluster.{
  Workload, World, workloads, server, awake, deployment_kind, working_hours,
}

-- A parser of selectors with one term, of a name that is excluded.
abbrev parse_one : String → Result String
parse_one text =
    if nat_eq (occurrences b',' text) 0 && not (nat_eq (occurrences b'!' text) 0)
    then ok text
    else err (failure "not supported")

abbrev objects : Objects Workload String
objects = record workloads {
  parse_field_selector = parse_one;
  parse_label_selector = λ text. err (failure "not supported");
}

abbrev agrees_with : Option String → Workload → Bool
agrees_with none o = true
agrees_with (some text) o = not (text == "metadata.name!=" <> o.name)

abbrev client : Client Workload World
client = record server {
  list = λ gvk options w. (filter (agrees_with options.field_selector) w.items, none);
}

abbrev unlabelled : Workload → String × String → Bool
unlabelled o label = false

abbrev stored : GroupVersionKind → String → World → List Workload
stored gvk namespace w = w.items

abbrev Valid : String → Type 0
Valid name = (occurrences b',' name ≡ 0) × (occurrences b'!' name ≡ 0)

one_name :
    (names : List (Bool × String)) (selector : Option String)
    → All (λ t. Valid t.1) names
    → selector_of parse_one (map name_term names) ≡ ok selector
    → (o : Workload) → agrees_with selector o ≡ all (name_holds objects unlabelled o) names
unfolding join
one_name [] selector valid h o = ground arith
one_name ((true, n) ∷ []) selector ((_, v), _) h o =
    absurd (ground (arith, h, occurrences-append b'!' "metadata.name==" n, v))
one_name ((false, n) ∷ []) selector valid h o =
    let parsed : some ("metadata.name!=" <> n) ≡ selector = ground arith in
    rw (← parsed) (
      ground (
        arith,
        append_cancel_left "metadata.name!=" n o.name,
        eq_iff ("metadata.name!=" <> n) ("metadata.name!=" <> o.name),
        eq_iff o.name n,
      ))
one_name (t ∷ u ∷ names) selector valid h o =
    let rest = join "," (map name_term (u ∷ names)) in
    absurd (
      ground (
        arith,
        h,
        occurrences-append b',' (name_term t) ("," <> rest),
        occurrences-append b',' "," rest,
      ))

no_labels :
    (labels : List (Bool × (String × String))) (selector : Option String)
    → selector_of objects.parse_label_selector (map label_term labels) ≡ ok selector
    → labels ≡ []
no_labels [] selector h = refl
no_labels (l ∷ labels) selector h = absurd (ground arith)

filtered :
    (gvk : GroupVersionKind) (options : ListOptions) (w : World) (names : List (Bool × String))
    (labels : List (Bool × (String × String)))
    → All (λ t. Valid t.1) names
    → selector_of objects.parse_field_selector (map name_term names) ≡ ok options.field_selector
    → labels ≡ []
    → client.list gvk options w ≡ (
      filter
          (λ o.
            all (name_holds objects unlabelled o) names
            && all (label_holds objects unlabelled o) labels)
          w.items,
      none,
    )
filtered gvk options w names labels valid fields e = rw e (
    ap (λ l. (l, none))
      (filter_cong _ _ w.items
        (λ o. ground (arith, one_name names options.field_selector valid fields o))))

abbrev lists : ListsSelected objects unlabelled client stored Valid
lists = record {
  selected = λ gvk options w names labels valid _ fields parsed few.
      filtered gvk options w names labels valid fields
        (no_labels labels options.label_selector parsed);
}

abbrev filter_of : String → FilterRef
filter_of name = record {
  api_version = "apps/v1";
  kind = "Deployment";
  name = name;
  match_labels = [];
}

-- Two names that are included, and one that is not.
abbrev choosy : SleepInfo
choosy = record working_hours {
  spec = record working_hours.spec {
    include_ref = filter_of "web" ∷ filter_of "idle" ∷ [];
    exclude_ref = filter_of "idle" ∷ [];
  };
}

abbrev chooser : ResourceClient Workload World
chooser = record {
  client = some client;
  sleep_info = some choosy;
  field_manager_name = "kube-green";
}

abbrev options : ListOptions
options = record {
  namespace = "shop";
  limit = 500;
  field_selector = some "metadata.name!=idle";
  label_selector = none;
}

options_lem :
    get_list_options objects choosy "shop" deployment_target ≡ ok (options, "web" ∷ "idle" ∷ [])
unfolding get_list_options get_field_to_include get_field_to_exclude get_labels_to_include
    get_labels_to_exclude match_patch_target_and_filter_ref join
options_lem = refl

get_list_by_namespace-is_wanted_example :
    get_list_by_namespace objects chooser "shop" deployment_target awake
    ≡ (filter (is_wanted objects unlabelled choosy deployment_target) awake.items, none)
get_list_by_namespace-is_wanted_example =
    get_list_by_namespace-is_wanted objects unlabelled client stored Valid lists chooser choosy
      "shop" deployment_target awake deployment_kind options ("web" ∷ "idle" ∷ []) refl refl refl
      options_lem (((refl, refl), tt), (((refl, refl), tt), tt)) (((refl, refl), tt), tt)
      (omega arith)
