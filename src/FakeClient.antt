-- ===== src/FakeClient.antt =====
-- internal/testutil/fakeclient.go: the client that the tests put around the fake client of
-- controller-runtime. It can answer with an error, filters a list by the names of its objects, and
-- keeps secrets as the API server does. The client inside, the selectors and the accessors of
-- apimachinery are parameters.
pub mod Stores
use kube_green.Base.{Bool, false, String, ◌∷◌, List, [], Option, none, some, if◌then◌else◌}
use kube_green.Base.{Error, failure, Result, ok, err, ◌>>=◌}
use kube_green.Base.Dict.{Dict, insert}
use kube_green.Base.Exec.{Exec, raise}
use kube_green.Api.{SleepInfoExecution}
use kube_green.Cluster.{GroupVersionKind, ListOptions, Secret, Client}

-- `Method`
pub data Method : Type 0 where
  list : Method
  create : Method
  update : Method
  patch : Method
  apply : Method

-- What the predicate of the tests is given: the list that is asked for, an object, or nil.
pub data Subject (Object : Type 0) : Type 0 where
  list_of : GroupVersionKind → Subject Object
  secret : Secret → Subject Object
  execution : SleepInfoExecution → Subject Object
  object : Object → Subject Object
  nothing : Subject Object

-- fields.Selector and the package meta of apimachinery
pub record Accessors (Object : Type 0) : Type 0 where
  pub get_name : Object → Result String
  pub extract_list : List Object → Result (List Object)
  pub set_list : List Object → Result (Unit {0})
  -- a parsed field selector, at an object with only a name
  pub matches : String → String → Bool

-- `stringData` written over `data`, in any order of its keys.
abbrev pub write_over : Dict String → Dict String → Dict String
write_over [] entries = entries
write_over ((k, v) ∷ strings) entries = insert k v (write_over strings entries)

-- `convertSecretStringData`, where a `stringData` with no key is a nil one.
unfoldable pub convert_secret_string_data : Secret → Secret
convert_secret_string_data sent = elim sent.string_data [
  | [] ↦ sent
  | entry ∷ strings ↦ elim sent.data_map [
    | none ↦ record sent { data_map = some (write_over (entry ∷ strings) []); string_data = [] }
    | some entries ↦ record sent {
      data_map = some (write_over (entry ∷ strings) entries);
      string_data = [];
    }
  ]
]

module _ {Object : Type 0} (accessors : Accessors Object) where
  unfoldable pub filter_objects_by_name : String → List Object → Result (List Object)
  filter_objects_by_name field_selector [] = ok []
  filter_objects_by_name field_selector (obj ∷ rest) =
      let later = filter_objects_by_name field_selector rest in
      do
        name ← accessors.get_name obj
        items ← later
        ok (if accessors.matches field_selector name then obj ∷ items else items)

  -- `List` from the answer of the client inside on.
  unfoldable pub filter_listed :
      Option String → List Object × Option Error → List Object × Option Error
  unfolding filter_objects_by_name
  filter_listed field_selector (items, some e) = (items, some e)
  filter_listed none (items, none) = (items, none)
  filter_listed (some field_selector) (items, none) =
      let filtered : Result (List Object) = (do
        obj_list ← accessors.extract_list items
        filtered_objs ← filter_objects_by_name field_selector obj_list
        _ ← accessors.set_list filtered_objs
        ok filtered_objs) in
      elim filtered [ ok kept ↦ (kept, none) | err e ↦ (items, some e) ]

-- `PossiblyErroringFakeCtrlRuntimeClient`
pub record FakeClient (Object W : Type 0) : Type 0 where
  pub client : Client Object W
  pub should_error : Option (Method → Subject Object → Bool)

module _ {Object W : Type 0} (accessors : Accessors Object) (p : FakeClient Object W) where
  abbrev pub fails : Method → Subject Object → Bool
  fails method obj = elim p.should_error [
    | none ↦ false
    | some should_error ↦ should_error method obj
  ]

  -- An error of the tests, in place of the call.
  abbrev pub unless : {A : Type 0} → Method → Subject Object → String → Exec W A → Exec W A
  unless method obj text call = if fails method obj then raise (failure text) else call

  abbrev pub fake_list : GroupVersionKind → ListOptions → W → List Object × Option Error
  fake_list gvk list_opts w =
      if fails list (list_of gvk)
      then ([], some (failure "error during list"))
      else filter_listed accessors list_opts.field_selector
          (p.client.list gvk (record list_opts { field_selector = none }) w)

  -- As a client: what is not defined here is promoted from the client inside. No object that the
  -- controllers patch is a secret.
  abbrev pub as_client : Client Object W
  as_client = record p.client {
    list = fake_list;
    create_secret = λ sent.
        unless create (secret sent) "error during create"
          (p.client.create_secret (convert_secret_string_data sent));
    update_secret = λ sent.
        unless update (secret sent) "error during update"
          (p.client.update_secret (convert_secret_string_data sent));
    update_execution = λ sent.
        unless update (execution sent) "error during update" (p.client.update_execution sent);
    patch = λ new old. unless patch (object new) "error during patch" (p.client.patch new old);
    apply = λ o owner. unless apply nothing "error during apply" (p.client.apply o owner);
  }
